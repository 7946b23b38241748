-- ===== src/Booking/Cancel/Seats.antt =====
-- Which seats `cancelBooking` frees (src/modules/booking/booking.service.ts).
use bus_booking_backend.Prelude.{
  ℕ, zero, suc, ◌+◌, ◌≤◌, String, ◌≡◌, refl, ap, ◌&&◌, List, [], ◌∷◌, length, get_elem?, ltb, leb,
  if◌then◌else◌, arith,
}
use mathlib.Core.Option
use bus_booking_backend.Documents.{Seat}
use bus_booking_backend.Booking.Seats.{modify_at, set_at, set_all}
use bus_booking_backend.Booking.Cancel.{positions}

length-modify_at :
    (i : ℕ) (f : Seat → Seat) (seats : List Seat) → length (modify_at i f seats) ≡ length seats
unfolding modify_at
length-modify_at i f [] = refl
length-modify_at zero f (s ∷ ss) = refl
length-modify_at (suc i) f (s ∷ ss) = ap suc (length-modify_at i f ss)

get_elem?-modify_at :
    (i j : ℕ) (f : Seat → Seat) (seats : List Seat)
    → get_elem? (modify_at i f seats) j ≡ (
        if ltb i j
        then get_elem? seats j
        else if ltb j i
        then get_elem? seats j
        else Option.map f (get_elem? seats j))
unfolding modify_at
get_elem?-modify_at i j f [] = ground arith
get_elem?-modify_at zero zero f (s ∷ ss) = refl
get_elem?-modify_at zero (suc j) f (s ∷ ss) = ground arith
get_elem?-modify_at (suc i) zero f (s ∷ ss) = ground arith
get_elem?-modify_at (suc i) (suc j) f (s ∷ ss) = ground (arith, get_elem?-modify_at i j f ss)

module _ (past_end : List Seat → ℕ → (Seat → Seat) → List Seat) (f : Seat → Seat) where
  -- The seats at the positions from `first` on are changed, one for each passenger.
  get_elem?-positions :
      (ns : List String) (first j : ℕ) (seats : List Seat)
      → first + length ns ≤ length seats
      → get_elem? (set_all past_end (positions first ns) f seats) j ≡ (
          if leb first j && ltb j (first + length ns)
          then Option.map f (get_elem? seats j)
          else get_elem? seats j)
  unfolding set_all set_at positions
  get_elem?-positions [] first j seats h = ground arith
  get_elem?-positions (n ∷ ns) first j seats h = ground (
    arith,
    get_elem?-positions ns (suc first) j (modify_at first f seats),
    length-modify_at first f seats,
    get_elem?-modify_at first j f seats,
  )

  -- For `n` passengers it is the first `n` seats of the bus that are changed, whichever seats
  -- these passengers have.
  pub get_elem?-set_positions :
      (ns : List String) (j : ℕ) (seats : List Seat)
      → length ns ≤ length seats
      → get_elem? (set_all past_end (positions 0 ns) f seats) j
        ≡ (if ltb j (length ns) then Option.map f (get_elem? seats j) else get_elem? seats j)
  get_elem?-set_positions ns j seats h = ground (arith, get_elem?-positions ns 0 j seats)
