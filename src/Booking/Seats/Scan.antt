-- ===== src/Booking/Seats/Scan.antt =====
-- What the loop of `createBooking` over the requested seats computes
-- (src/modules/booking/booking.service.ts).
use bus_booking_backend.Prelude.{
  ℕ, ◌+◌, String, ◌≡◌, refl, ◌∙◌, ap, ◌≢◌, true, Option, none, some, List, [], ◌∷◌, ◌++◌, All,
  if◌then◌else◌, arith, Option-cases, Bool-cases, inl, inr,
}
use native.Mathlib.Nat.{add_assoc}
use bus_booking_backend.Store.{ok}
use bus_booking_backend.Documents.{Seat, SeatStatus, is_available}
use bus_booking_backend.Booking.Seats.{find_seat, scan_seats}

-- A seat of that number is there, and it is available.
abbrev pub IsFree : List Seat → String → Type 0
IsFree seats n =
    (seat : Seat) × (find_seat n seats ≡ some seat) × (seat.status ≡ SeatStatus.available)

abbrev fare_of : Option Seat → ℕ
fare_of none = 0
fare_of (some s) = s.fare

-- The sum of the fares of the named seats.
abbrev pub total_of : List Seat → List String → ℕ
total_of seats [] = 0
total_of seats (n ∷ ns) = fare_of (find_seat n seats) + total_of seats ns

-- Unavailable seats, once found, stay in the result.
scan_seats_keeps :
    (seats : List Seat) (ns us vs : List String) (t f : ℕ)
    → us ≢ []
    → scan_seats seats ns us t ≡ ok (vs, f)
    → vs ≢ []
unfolding scan_seats
scan_seats_keeps seats [] us vs t f h e = ground arith
scan_seats_keeps seats (m ∷ ns) us vs t f h e = elim (Option-cases (find_seat m seats)) [
  | inl missing ↦ cc (rw (missing, scan_seats) at e)
  | inr (seat, at) ↦
      scan_seats_keeps seats ns _ vs (t + seat.fare) f (kept m us seat h) (rw (at, scan_seats) at e)
]
  where
    kept :
        (m : String) (us : List String) (seat : Seat)
        → us ≢ []
        → (if is_available seat.status then us else us ++ m ∷ []) ≢ []
    kept m [] seat h = absurd (h refl)
    kept m (u ∷ us) seat h = ground arith

available_of_test :
    (status : SeatStatus) → is_available status ≡ true → status ≡ SeatStatus.available
available_of_test status h = ground arith

-- One round of the loop that leaves the list empty has met an available seat.
scan_seats_round :
    (seats : List Seat) (n : String) (ns : List String) (t f : ℕ)
    → scan_seats seats (n ∷ ns) [] t ≡ ok ([], f)
    → (free : IsFree seats n) × (scan_seats seats ns [] (t + free.0.fare) ≡ ok ([], f))
unfolding scan_seats
scan_seats_round seats n ns t f e = elim (Option-cases (find_seat n seats)) [
  | inl missing ↦ cc (rw (missing, scan_seats) at e)
  | inr (seat, at) ↦ elim (Bool-cases (is_available seat.status)) [
    | inl free ↦ ((seat, at, available_of_test seat.status free), rw (at, scan_seats, free) at e)
    | inr taken ↦ absurd (
        scan_seats_keeps seats ns (n ∷ []) [] (t + seat.fare) f (λ h. cc)
          (rw (at, scan_seats, taken) at e) refl)
  ]
]

-- If the loop ends with no unavailable seat, then each requested seat exists and is available, and
-- its total is the sum of their fares.
pub scan_seats-IsFree :
    (seats : List Seat) (ns : List String) (t f : ℕ)
    → scan_seats seats ns [] t ≡ ok ([], f)
    → All (IsFree seats) ns × (f ≡ t + total_of seats ns)
scan_seats-IsFree seats [] t f e = unfold scan_seats in ground arith
scan_seats-IsFree seats (n ∷ ns) t f e =
    let ((seat, at, free), rest) = scan_seats_round seats n ns t f e in
    let (others, sum) = scan_seats-IsFree seats ns (t + seat.fare) f rest in
    (((seat, at, free), others), rw at (omega (arith, sum)))

-- Conversely, seats that all exist and are available pass the loop.
pub scan_seats_passes :
    (seats : List Seat) (ns : List String) (t : ℕ)
    → All (IsFree seats) ns
    → scan_seats seats ns [] t ≡ ok ([], t + total_of seats ns)
unfolding scan_seats
scan_seats_passes seats [] t h = ground arith
scan_seats_passes seats (n ∷ ns) t ((seat, at, free), h) =
    rw (at, scan_seats, free)
      (scan_seats_passes seats ns (t + seat.fare) h
        ∙ ap (λ k. ok ([], k)) (add_assoc t seat.fare (total_of seats ns)))
