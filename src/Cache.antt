-- ===== src/Cache.antt =====
-- The generic cache of src/core/redis/redis.service.ts: cacheSet, cacheGet, cacheDel and
-- cacheDelPattern, as the bus service uses them.
pub mod Laws
use bus_booking_backend.Prelude.{
  ℕ, String, ◌≡◌, Bool, true, false, ◌&&◌, Option, none, some, List, [], ◌∷◌, ◌<>◌, str_eq,
  get_or_default, includes, is_some, if◌then◌else◌,
}
use bus_booking_backend.Store.{ObjectId, Result, ok, err, Stored}
use bus_booking_backend.Action.{Action, pure, lift, modify, gets, ◌>>=◌}
use bus_booking_backend.World.{Env, State}

-- `JSON.stringify` and `JSON.parse` on the values of a type. A date is stored as its text.
pub record Json (A : Type 0) : Type 0 where
  pub stringify : A → String
  pub parse : String → Result A

-- A value that JSON gives back, from a text that is not empty.
abbrev pub IsJson : {A : Type 0} → Json A → A → Type 0
IsJson json a = (str_eq (json.stringify a) "" ≡ false) × (json.parse (json.stringify a) ≡ ok a)

-- `${PREFIX.CACHE}${key}`
abbrev pub cache_key : String → String
cache_key key = "cache:" <> key

-- The command KEYS, with its glob patterns, and the setting `env.redis.ttl.cache`.
pub record Keys (env : Env) : Type 0 where
  pub keys : env.redis.Store → (now : ℕ) → (pattern : String) → List String
  pub glob : (pattern key : String) → Bool
  pub includes-keys :
      (s : env.redis.Store) (now : ℕ) (pattern key : String)
      → includes key (keys s now pattern) ≡ (is_some (env.redis.get s now key) && glob pattern key)
  pub glob_star :
      (key : String) → glob (cache_key "bus:search:*") (cache_key ("bus:search:" <> key)) ≡ true
  pub cache_ttl : ℕ

module _ (env : Env) where
  abbrev stored_text : env.redis.Store → ℕ → String → Option String
  stored_text s now key = env.redis.get s now (cache_key key)

  -- `raw ? JSON.parse(raw) : null`
  abbrev parsed : {A : Type 0} → Json A → Option String → Result (Option A)
  parsed json none = ok none
  parsed json (some raw) =
      if str_eq raw ""
      then ok none
      else elim (json.parse raw) [ ok a ↦ ok (some a) | err e ↦ err e ]

  unfoldable pub cache_get : {A : Type 0} → Json A → String → Action (State env) (Option A)
  cache_get json key s = (parsed json (stored_text s.redis s.now key), s)

  module _ (api : Keys env) where
    unfoldable pub cache_set : {A : Type 0} → Json A → String → A → Option ℕ → State env → State env
    cache_set json key value ttl s = record s {
      redis =
          env.redis.setex s.redis s.now (cache_key key) (get_or_default ttl api.cache_ttl)
            (json.stringify value);
    }

    -- `del(...keys)`
    unfoldable pub del_all : List String → env.redis.Store → env.redis.Store
    del_all [] s = s
    del_all (k ∷ ks) s = del_all ks (env.redis.del s k)

    unfoldable pub cache_del_pattern : String → State env → State env
    cache_del_pattern pattern s = record s {
      redis = del_all (api.keys s.redis s.now (cache_key pattern)) s.redis;
    }

  unfoldable pub cache_del : String → State env → State env
  cache_del key s = record s { redis = env.redis.del s.redis (cache_key key) }
