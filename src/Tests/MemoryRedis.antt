-- ===== src/Tests/MemoryRedis.antt =====
-- An in-memory stand-in for Redis, which meets the laws of `Store`.
use bus_booking_backend.Prelude.{
  ℕ, ◌+◌, ◌*◌, ◌≤◌, String, ◌≡◌, refl, Option, none, some, List, [], ◌∷◌, str_eq, ltb,
  if◌then◌else◌, arith, eq_iff,
}
use bus_booking_backend.Store.{Redis}

pub record Entry : Type 0 where
  pub key : String
  pub expires : ℕ
  pub value : String

unfoldable pub get : List Entry → ℕ → String → Option String
get [] now k = none
get (e ∷ s) now k =
    if str_eq e.key k then if ltb now e.expires then some e.value else none else get s now k

unfoldable pub setex : List Entry → ℕ → String → ℕ → String → List Entry
setex s now k ttl v = record { key = k; expires = now + ttl * 1000; value = v } ∷ s

unfoldable pub del : List Entry → String → List Entry
del [] k = []
del (e ∷ s) k = let rest = del s k in if str_eq e.key k then rest else e ∷ rest

pub get-setex :
    (s : List Entry) (t u : ℕ) (k j : String) (ttl : ℕ) (v : String)
    → t ≤ u
    → get (setex s t k ttl v) u j
      ≡ (if str_eq k j then if ltb u (t + ttl * 1000) then some v else none else get s u j)
unfolding get setex
get-setex s t u k j ttl v h = refl

pub get-del :
    (s : List Entry) (u : ℕ) (k j : String)
    → get (del s k) u j ≡ (if str_eq k j then none else get s u j)
unfolding get del
get-del [] u k j = ground arith
get-del (e ∷ s) u k j = ground (arith, get-del s u k j, eq_iff e.key k, eq_iff e.key j, eq_iff k j)

abbrev pub memory_redis : Redis
memory_redis = record {
  Store = List Entry;
  get = get;
  setex = setex;
  del = del;
  get-setex = get-setex;
  get-del = get-del;
}
