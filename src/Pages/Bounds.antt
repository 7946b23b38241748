-- ===== src/Pages/Bounds.antt =====
-- The numbers that a list gives with a page (src/core/types/index.ts).
use native.Mathlib.Nat.{div-add-mod, mod-lt, mul-le-mul_right}
use bus_booking_backend.Prelude.{
  ℕ, ◌+◌, ◌-◌, ◌*◌, ◌≤◌, ◌<◌, ◌≡◌, refl, inl, inr, Bool-cases, Bool, true, false, arith, ltb,
}
use bus_booking_backend.Store.{Stored}
use bus_booking_backend.World.{Table}
use bus_booking_backend.Pages.{page_of, total_pages}

before_lt : (a b : ℕ) → ltb a b ≡ true → a + 1 ≤ b
before_lt a b h = ground arith

not_ltb : (a b : ℕ) → ltb a b ≡ false → b ≤ a
not_ltb a b h = ground arith

add_pages : (a k limit : ℕ) → (a + k) * limit ≡ a * limit + k * limit
add_pages a k limit = omega arith

-- The number of pages is enough for all elements, and none of them is needless.
total_pages_bounds :
    (total limit : ℕ)
    → 0 < limit
    → (total ≤ total_pages total limit * limit) × (total_pages total limit * limit < total + limit)
unfolding total_pages
total_pages_bounds total limit h =
    let parts = div-add-mod (total + (limit - 1)) limit in
    let rest = mod-lt (total + (limit - 1)) h in (omega arith, omega arith)

within :
    (page pages total limit : ℕ)
    → total ≤ pages * limit
    → pages * limit < total + limit
    → ltb (page * limit) total ≡ ltb page pages
within page pages total limit enough tight = elim (Bool-cases (ltb page pages)) [
  | inl before ↦
      let one = add_pages page 1 limit in
      let below = mul-le-mul_right limit (before_lt (page) pages before) in rw before (ground arith)
  | inr after ↦
      let above = mul-le-mul_right limit (not_ltb page pages after) in rw after (ground arith)
]

least : (n pages total limit : ℕ) → pages * limit < total + limit → total ≤ n * limit → pages ≤ n
least n pages total limit tight holds = elim (Bool-cases (ltb n pages)) [
  | inl fewer ↦
      let one = add_pages n 1 limit in
      let below = mul-le-mul_right limit (before_lt n pages fewer) in ground arith
  | inr not_fewer ↦ ground arith
]

module _ {S D : Type 0} (t : Table S D) (s : S) (filter : Stored D → Bool) (page limit : ℕ) where
  -- For a limit above 0 the pages that a list says it has hold all elements that it counts, and
  -- any number of pages that holds them is at least that number; the list says that there is a next
  -- page exactly before the last of them, and a previous one exactly after the first.
  pub page_of-bounds :
      (n : ℕ)
      → 0 < limit
      → (page_of t s filter page limit).total ≤ n * limit
      → ((page_of t s filter page limit).total
          ≤ (page_of t s filter page limit).total_pages * limit)
        × ((page_of t s filter page limit).total_pages ≤ n)
        × ((page_of t s filter page limit).has_next
            ≡ ltb page (page_of t s filter page limit).total_pages)
        × ((page_of t s filter page limit).has_prev ≡ ltb 1 page)
  unfolding page_of
  page_of-bounds n pos holds =
      let total = t.model.count_documents (t.get s) filter in
      let pages = total_pages total limit in
      let (enough, tight) = total_pages_bounds total limit pos in
      (
        enough,
        least n pages total limit tight holds,
        within page pages total limit enough tight,
        refl,
      )
