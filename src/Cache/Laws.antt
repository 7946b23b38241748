-- ===== src/Cache/Laws.antt =====
-- What the cache answers after a write and after a removal (src/core/redis/redis.service.ts).
use bus_booking_backend.Prelude.{
  ℕ, ◌+◌, ◌*◌, ◌≤◌, ◌<◌, String, ◌≡◌, ◌∙◌, refl, Bool, true, ◌&&◌, Option, none, some, List, [],
  ◌∷◌, ◌<>◌, str_eq_refl, includes, is_some, if◌then◌else◌, arith, lt→ltb,
}
use bus_booking_backend.Store.{ok}
use bus_booking_backend.World.{Env, State}
use bus_booking_backend.Cache.{
  Json, IsJson, Keys, cache_key, cache_get, cache_set, cache_del, cache_del_pattern, del_all,
}

and_true : (a b : Bool) → b ≡ true → (a && b) ≡ a
and_true a b h = ground arith

-- What is listed whenever it is there is not there once the list is removed.
listed : (o : Option String) (b : Bool) → b ≡ is_some o → (if b then none else o) ≡ none
listed none b h = rw h
listed (some x) b h = rw h

module _ (env : Env) where
  -- The cache answers with a value that was set and that JSON gives back, from any state that has the same Redis, until
  -- the time to live has passed.
  pub cache_get-cache_set :
      {A : Type 0} (api : Keys env) (json : Json A) (key : String) (a : A) (ttl : ℕ)
      (s t : State env)
      → IsJson json a
      → t.redis ≡ (cache_set env api json key a (some ttl) s).redis
      → s.now ≤ t.now
      → t.now < s.now + ttl * 1000
      → cache_get env json key t ≡ (ok (some a), t)
  unfolding cache_get cache_set
  cache_get-cache_set api json key a ttl s t (nonempty, back) same after before = rw (
    same,
    env.redis.get-setex s.redis s.now t.now (cache_key key) (cache_key key) ttl (json.stringify a)
        after,
    str_eq_refl (cache_key key),
    lt→ltb t.now (s.now + ttl * 1000) before,
    nonempty,
    back,
  )

  -- The same, from any state whose Redis answers for the key as it did after the write.
  pub cache_get_kept :
      {A : Type 0} (api : Keys env) (json : Json A) (key : String) (a : A) (ttl : ℕ)
      (s t : State env)
      → IsJson json a
      → env.redis.get t.redis t.now (cache_key key)
        ≡ env.redis.get (cache_set env api json key a (some ttl) s).redis t.now (cache_key key)
      → s.now ≤ t.now
      → t.now < s.now + ttl * 1000
      → cache_get env json key t ≡ (ok (some a), t)
  unfolding cache_get cache_set
  cache_get_kept api json key a ttl s t (nonempty, back) kept after before = rw (
    kept,
    env.redis.get-setex s.redis s.now t.now (cache_key key) (cache_key key) ttl (json.stringify a)
        after,
    str_eq_refl (cache_key key),
    lt→ltb t.now (s.now + ttl * 1000) before,
    nonempty,
    back,
  )

  -- What is not in Redis is not in the cache.
  pub cache_get_missing :
      {A : Type 0} (json : Json A) (key : String) (s : State env)
      → env.redis.get s.redis s.now (cache_key key) ≡ none
      → cache_get env json key s ≡ (ok none, s)
  unfolding cache_get
  cache_get_missing json key s h = rw h

  module _ (api : Keys env) where
    get-del_all :
        (ks : List String) (s : env.redis.Store) (now : ℕ) (k : String)
        → env.redis.get (del_all env api ks s) now k
          ≡ (if includes k ks then none else env.redis.get s now k)
    unfolding del_all
    get-del_all [] s now k = refl
    get-del_all (j ∷ ks) s now k =
        ground (arith, get-del_all ks (env.redis.del s j) now k, env.redis.get-del s now j k)

    -- No key of a search is left after the removal by pattern.
    pub search_gone :
        (s : State env) (key : String)
        → env.redis.get
            (cache_del_pattern env api "bus:search:*" s).redis
            s.now
            (cache_key ("bus:search:" <> key))
          ≡ none
    unfolding cache_del_pattern
    search_gone s key =
        let k = cache_key ("bus:search:" <> key) in
        let ks = api.keys s.redis s.now (cache_key "bus:search:*") in
        get-del_all ks s.redis s.now k
        ∙ listed (env.redis.get s.redis s.now k) (includes k ks) (
            api.includes-keys s.redis s.now (cache_key "bus:search:*") k
            ∙ and_true (is_some (env.redis.get s.redis s.now k))
                (api.glob (cache_key "bus:search:*") k) (api.glob_star key))

    none_either : {A : Type 0} (b : Bool) (o : Option A) → o ≡ none → (if b then none else o) ≡ none
    none_either b o h = ground arith

    -- A key that was removed stays away when the searches are removed.
    pub key_gone :
        (s : State env) (key : String)
        → env.redis.get
            (cache_del_pattern env api "bus:search:*" (cache_del env key s)).redis
            s.now
            (cache_key key)
          ≡ none
    unfolding cache_del_pattern cache_del
    key_gone s key =
        let r = env.redis.del s.redis (cache_key key) in
        let ks = api.keys r s.now (cache_key "bus:search:*") in
        get-del_all ks r s.now (cache_key key)
        ∙ none_either (includes (cache_key key) ks) (env.redis.get r s.now (cache_key key)) (
            rw (
              env.redis.get-del s.redis s.now (cache_key key) (cache_key key),
              str_eq_refl (cache_key key),
            ))
