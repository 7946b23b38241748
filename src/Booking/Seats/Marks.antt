-- ===== src/Booking/Seats/Marks.antt =====
-- What the `$set` documents of the booking service do to the seats of a bus, seat number by seat
-- number (src/modules/booking/booking.service.ts).
use mathlib.Core.Option
use bus_booking_backend.Prelude.{
  ℕ, zero, suc, ◌<◌, String, ◌≡◌, refl, ◌∙◌, ap, ◌||◌, Option, none, some, List, [], ◌∷◌, length,
  map, includes, str_eq, if◌then◌else◌, arith, eq_iff, inl, inr, Option-cases,
}
use bus_booking_backend.Documents.{Seat}
use bus_booking_backend.Booking.Seats.{
  find_seat, find_index, modify_at, set_at, set_all, indices_of,
}

abbrev pub numbers : List Seat → List String
numbers = map (λ s. s.seat_no)

-- A change of a seat that keeps its number, and that is the same if it is made twice.
pub record IsMark (f : Seat → Seat) : Type 0 where
  pub keeps : (s : Seat) → (f s).seat_no ≡ s.seat_no
  pub twice : (s : Seat) → f (f s) ≡ f s

-- The index of a seat depends on the numbers alone.
pub find_index-numbers :
    (n : String) (xs ys : List Seat) → numbers xs ≡ numbers ys → find_index n xs ≡ find_index n ys
unfolding find_index
find_index-numbers n [] [] e = refl
find_index-numbers n [] (y ∷ ys) e = cc
find_index-numbers n (x ∷ xs) [] e = cc
find_index-numbers n (x ∷ xs) (y ∷ ys) e = ground (arith, find_index-numbers n xs ys)

find_index-lt-length :
    (n : String) (seats : List Seat) (i : ℕ) → find_index n seats ≡ some i → i < length seats
unfolding find_index
find_index-lt-length n [] i e = cc
find_index-lt-length n (x ∷ xs) zero e = omega arith
find_index-lt-length n (x ∷ xs) (suc i) e = ground (arith, find_index-lt-length n xs i)

find_seat_missing :
    (n : String) (seats : List Seat) → find_index n seats ≡ none → find_seat n seats ≡ none
unfolding find_index
find_seat_missing n [] e = refl
find_seat_missing n (x ∷ xs) e = ground (arith, find_seat_missing n xs)

indices_of_missing :
    (n : String) (ns : List String) (seats : List Seat)
    → find_index n seats ≡ none
    → indices_of (n ∷ ns) seats ≡ indices_of ns seats
unfolding indices_of
indices_of_missing n ns seats e = rw (e, indices_of)

indices_of_found :
    (n : String) (ns : List String) (seats : List Seat) (i : ℕ)
    → find_index n seats ≡ some i
    → indices_of (n ∷ ns) seats ≡ i ∷ indices_of ns seats
unfolding indices_of
indices_of_found n ns seats i e = rw (e, indices_of)

module _ (f : Seat → Seat) (mark : IsMark f) where
  numbers-modify_at : (i : ℕ) (seats : List Seat) → numbers (modify_at i f seats) ≡ numbers seats
  unfolding modify_at
  numbers-modify_at i [] = refl
  numbers-modify_at zero (x ∷ xs) = ap (λ n. n ∷ numbers xs) (mark.keeps x)
  numbers-modify_at (suc i) (x ∷ xs) = ap (λ l. x.seat_no ∷ l) (numbers-modify_at i xs)

  find_seat-modify_at :
      (n m : String) (i : ℕ) (seats : List Seat)
      → find_index n seats ≡ some i
      → find_seat m (modify_at i f seats)
        ≡ (if str_eq n m then Option.map f (find_seat m seats) else find_seat m seats)
  unfolding modify_at find_index
  find_seat-modify_at n m i [] e = cc
  find_seat-modify_at n m zero (x ∷ xs) e = ground (
    arith,
    mark.keeps x,
    eq_iff x.seat_no n,
    eq_iff x.seat_no m,
    eq_iff n m,
    eq_iff (f x).seat_no m,
  )
  find_seat-modify_at n m (suc i) (x ∷ xs) e =
      ground
        (arith, find_seat-modify_at n m i xs, eq_iff x.seat_no n, eq_iff x.seat_no m, eq_iff n m)

  -- The recursion behind `find_seat-set_all`: marks at an index, then at the rest.
  module _ (past_end : List Seat → ℕ → (Seat → Seat) → List Seat) where
    abbrev marked : String → List String → List Seat → Option Seat
    marked m ns seats =
        if includes m ns then Option.map f (find_seat m seats) else find_seat m seats

    set_at_inside :
        (n : String) (i : ℕ) (seats : List Seat)
        → find_index n seats ≡ some i
        → set_at past_end i f seats ≡ modify_at i f seats
    unfolding set_at
    set_at_inside n i seats e = ground (arith, find_index-lt-length n seats i e)

    map_twice : (o : Option Seat) → Option.map f (Option.map f o) ≡ Option.map f o
    map_twice none = refl
    map_twice (some s) = ap some (mark.twice s)

    marked-cons :
        (n m : String) (ns : List String) (o : Option Seat)
        → (if includes m ns
            then Option.map f (if str_eq n m then Option.map f o else o)
            else if str_eq n m
            then Option.map f o
            else o)
          ≡ (if str_eq n m || includes m ns then Option.map f o else o)
    marked-cons n m ns o = ground (arith, map_twice o)

    marked-cons_missing :
        (n m : String) (ns : List String) (seats : List Seat)
        → find_seat n seats ≡ none
        → marked m ns seats ≡ marked m (n ∷ ns) seats
    marked-cons_missing n m ns seats e = ground (arith, eq_iff n m)

    -- Setting the fields of the named seats marks exactly these: every other seat number finds
    -- what it found. The indices may have been taken from an older reading of the same seats.
    pub find_seat-set_all :
        (ns : List String) (seen seats : List Seat) (m : String)
        → numbers seats ≡ numbers seen
        → find_seat m (set_all past_end (indices_of ns seen) f seats) ≡ marked m ns seats
    unfolding set_all
    find_seat-set_all [] seen seats m same = unfold indices_of in refl
    find_seat-set_all (n ∷ ns) seen seats m same = elim (Option-cases (find_index n seen)) [
      | inl missing ↦ rw (indices_of_missing n ns seen missing) (
          find_seat-set_all ns seen seats m same
          ∙ marked-cons_missing n m ns seats
              (find_seat_missing n seats (find_index-numbers n seats seen same ∙ missing)))
      | inr (i, at) ↦
          let here = find_index-numbers n seats seen same ∙ at in
          let next =
            find_seat-set_all ns seen (modify_at i f seats) m (numbers-modify_at i seats ∙ same) in
          rw (indices_of_found n ns seen i at, set_all, set_at_inside n i seats here)
            (next
              ∙ ap (λ o. if includes m ns then Option.map f o else o)
                  (find_seat-modify_at n m i seats here)
              ∙ marked-cons n m ns (find_seat m seats))
    ]

    -- The seat numbers stay as they are.
    pub numbers-set_all :
        (ns : List String) (seen seats : List Seat)
        → numbers seats ≡ numbers seen
        → numbers (set_all past_end (indices_of ns seen) f seats) ≡ numbers seats
    unfolding set_all
    numbers-set_all [] seen seats same = unfold indices_of in refl
    numbers-set_all (n ∷ ns) seen seats same = elim (Option-cases (find_index n seen)) [
      | inl missing ↦ rw (indices_of_missing n ns seen missing) (numbers-set_all ns seen seats same)
      | inr (i, at) ↦
          let here = find_index-numbers n seats seen same ∙ at in
          rw (indices_of_found n ns seen i at, set_all, set_at_inside n i seats here)
            (numbers-set_all ns seen (modify_at i f seats) (numbers-modify_at i seats ∙ same)
              ∙ numbers-modify_at i seats)
    ]

-- The seats after a change: those named are marked, and every other number finds what it found.
abbrev pub AreMarked : (Seat → Seat) → List String → (before after : List Seat) → Type 0
AreMarked f ns before after =
    (m : String)
    → find_seat m after
      ≡ (if includes m ns then Option.map f (find_seat m before) else find_seat m before)
