-- ===== src/Booking/Seats/Distinct.antt =====
-- The test for duplicate seat numbers: `new Set(seats)` has as many elements as the request
-- (src/modules/booking/booking.service.ts).
use bus_booking_backend.Prelude.{
  ◌≤◌, String, ◌≡◌, refl, ap, ◌∙◌, Bool, true, false, not, List, [], ◌∷◌, length, filter, includes,
  all_distinct, str_eq, arith, eq_iff,
}
use bus_booking_backend.Booking.Seats.{dedupe}

abbrev differs : String → String → Bool
differs s t = not (str_eq s t)

length-filter-le : (s : String) (l : List String) → length (filter (differs s) l) ≤ length l
length-filter-le s [] = omega arith
length-filter-le s (t ∷ l) = ground (arith, length-filter-le s l)

filter_full :
    (s : String) (l : List String)
    → length (filter (differs s) l) ≡ length l
    → (filter (differs s) l ≡ l) × (includes s l ≡ false)
filter_full s [] h = (refl, refl)
filter_full s (t ∷ l) h =
    ground (arith, filter_full s l, length-filter-le s l, eq_iff s t, eq_iff t s)

pub length-dedupe-le : (l : List String) → length (dedupe l) ≤ length l
unfolding dedupe
length-dedupe-le [] = omega arith
length-dedupe-le (s ∷ l) = omega (arith, length-dedupe-le l, length-filter-le s (dedupe l))

-- If nothing was dropped, then no seat number was named twice, and the list is as it was.
pub dedupe_full :
    (l : List String) → length (dedupe l) ≡ length l → (dedupe l ≡ l) × (all_distinct l ≡ true)
unfolding dedupe
dedupe_full [] h = (refl, refl)
dedupe_full (s ∷ l) h =
    let (same, distinct) =
      dedupe_full l (omega (arith, h, length-dedupe-le l, length-filter-le s (dedupe l))) in
    let (kept, fresh) = filter_full s (dedupe l) (omega (arith, h, ap length same)) in
    (ap (λ k. s ∷ k) (kept ∙ same), rw (distinct, ← same, fresh) refl)

filter_absent : (s : String) (l : List String) → includes s l ≡ false → filter (differs s) l ≡ l
filter_absent s [] h = refl
filter_absent s (t ∷ l) h = ground (arith, filter_absent s l, eq_iff s t, eq_iff t s)

-- A list without repetition passes the test.
pub dedupe_distinct : (l : List String) → all_distinct l ≡ true → dedupe l ≡ l
unfolding dedupe
dedupe_distinct [] h = refl
dedupe_distinct (s ∷ l) h = ground (arith, dedupe_distinct l, filter_absent s l)
