-- ===== src/Booking/Seats.antt =====
-- The seats of a request against the seats of a bus (src/modules/booking/booking.service.ts).
pub mod Scan
pub mod Marks
pub mod Distinct
use bus_booking_backend.Prelude.{
  ℕ, zero, suc, ◌+◌, String, Bool, true, false, not, Option, none, some, List, [], ◌∷◌, ◌++◌,
  length, find, filter, str_eq, ltb, ◌<>◌, if◌then◌else◌,
}
use bus_booking_backend.Errors.{bad_request}
use bus_booking_backend.Store.{ObjectId, Result, ok, err}
use bus_booking_backend.Documents.{Seat, SeatStatus, is_available}

-- `[...new Set(seats)]`: the first occurrence of each
unfoldable pub dedupe : List String → List String
dedupe [] = []
dedupe (s ∷ ss) = s ∷ filter (λ t. not (str_eq s t)) (dedupe ss)

-- `seats.find((s) => s.seatNo === seatNo)`
abbrev pub find_seat : String → List Seat → Option Seat
find_seat seat_no = find (λ s. str_eq s.seat_no seat_no)

-- `seats.findIndex((s) => s.seatNo === seatNo)`, with `none` for -1
unfoldable pub find_index : String → List Seat → Option ℕ
find_index seat_no [] = none
find_index seat_no (s ∷ ss) =
    let rest = find_index seat_no ss in
    if str_eq s.seat_no seat_no then some 0 else elim rest [ none ↦ none | some i ↦ some (suc i) ]

-- The loop over the requested seats: the unavailable ones in order, and the total fare.
unfoldable pub scan_seats :
    List Seat
    → List String
    → (unavailable : List String) → (total_fare : ℕ) → Result (List String × ℕ)
scan_seats seats [] unavailable total_fare = ok (unavailable, total_fare)
scan_seats seats (seat_no ∷ rest) unavailable total_fare = elim (find_seat seat_no seats) [
  | none ↦ err (bad_request ("Seat " <> (seat_no <> " does not exist")) none)
  | some seat ↦
      scan_seats seats rest
        (if is_available seat.status then unavailable else unavailable ++ seat_no ∷ [])
        (total_fare + seat.fare)
]

-- One element of the seats changed in place.
unfoldable pub modify_at : ℕ → (Seat → Seat) → List Seat → List Seat
modify_at i f [] = []
modify_at zero f (s ∷ ss) = f s ∷ ss
modify_at (suc i) f (s ∷ ss) = s ∷ modify_at i f ss

-- `$set` of fields of `seats.${i}`; `past_end` is what MongoDB does past the end of the array.
unfoldable pub set_at :
    (List Seat → ℕ → (Seat → Seat) → List Seat) → ℕ → (Seat → Seat) → List Seat → List Seat
unfolding modify_at
set_at past_end i f seats = if ltb i (length seats) then modify_at i f seats else past_end seats i f

-- The keys of one `$set` document, in the order in which they were added.
unfoldable pub set_all :
    (List Seat → ℕ → (Seat → Seat) → List Seat) → List ℕ → (Seat → Seat) → List Seat → List Seat
unfolding set_at
set_all past_end [] f seats = seats
set_all past_end (i ∷ is) f seats = set_all past_end is f (set_at past_end i f seats)

-- The indices, in `seats`, of the named seats; a name that is not there adds no key.
unfoldable pub indices_of : List String → List Seat → List ℕ
unfolding find_index
indices_of [] seats = []
indices_of (seat_no ∷ rest) seats = elim (find_index seat_no seats) [
  | none ↦ indices_of rest seats
  | some i ↦ i ∷ indices_of rest seats
]

abbrev pub mark_locked : ObjectId → Seat → Seat
mark_locked user_id s = record s { status = SeatStatus.locked; booked_by_user_id = some user_id }

abbrev pub mark_booked : Seat → Seat
mark_booked s = record s { status = SeatStatus.booked }

abbrev pub mark_available : Seat → Seat
mark_available s = record s { status = SeatStatus.available; booked_by_user_id = none }
