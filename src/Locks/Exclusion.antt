-- ===== src/Locks/Exclusion.antt =====
-- What a seat lock excludes, and what it does not (src/core/redis/redis.service.ts).
use mathlib.Core.List.{Perm}
use bus_booking_backend.Prelude.{
  ℕ, ◌+◌, ◌*◌, ◌≤◌, ◌<◌, String, ◌≡◌, ◌≢◌, ap, true, false, List, arith, eq_iff, sort_texts-perm,
  join, ◌<>◌, none, some, Bool-cases, lt→ltb, ne→str_eq, str_eq_refl, inl, inr,
}
use bus_booking_backend.Store.{ok}
use bus_booking_backend.World.{Env, State}
use bus_booking_backend.Locks.{lock_key, lock_seats, unlock_seats, redis_get, is_held_by_other}

-- The key names a set of seats: the order of the request does not matter.
pub lock_key-perm :
    (bus_id : String) {xs ys : List String} → Perm xs ys → lock_key bus_id xs ≡ lock_key bus_id ys
unfolding lock_key
lock_key-perm bus_id p =
    ap (λ l. "seat_lock:" <> (bus_id <> (":" <> join "," l))) (sort_texts-perm p)

module _ (env : Env) where
  -- The state as a later call finds it, if nothing touched Redis in between.
  abbrev pub later : State env → ℕ → State env
  later s t = record s { now = t }

  -- The state of Redis after a lock that was granted.
  pub redis-lock_seats :
      (s : State env) (bus_id : String) (seats : List String) (u : String)
      → (lock_seats env bus_id seats u s).0 ≡ ok true
      → (lock_seats env bus_id seats u s).1 ≡ record s {
        redis = env.redis.setex s.redis s.now (lock_key bus_id seats) env.seat_lock_ttl u;
      }
  unfolding lock_seats
  redis-lock_seats s bus_id seats u locked =
      elim (Bool-cases (is_held_by_other (redis_get env s (lock_key bus_id seats)) u)) [
        | inl held ↦ cc (rw held at locked)
        | inr free ↦ rw free
      ]

  -- Whoever holds a key, another user is refused and changes nothing.
  pub lock_seats_held :
      (s : State env) (bus_id : String) (seats : List String) (u v : String)
      → redis_get env s (lock_key bus_id seats) ≡ some u
      → u ≢ v
      → u ≢ ""
      → lock_seats env bus_id seats v s ≡ (ok false, s)
  unfolding lock_seats
  lock_seats_held s bus_id seats u v e ne nonempty = rw e (ground (arith, eq_iff u v, eq_iff u ""))

  -- A key that nobody holds is granted.
  pub lock_seats_free :
      (s : State env) (bus_id : String) (seats : List String) (v : String)
      → redis_get env s (lock_key bus_id seats) ≡ none
      → (lock_seats env bus_id seats v s).0 ≡ ok true
  unfolding lock_seats
  lock_seats_free s bus_id seats v e = rw e

  get-setex_live :
      (s : State env) (k u : String) (t : ℕ)
      → s.now ≤ t
      → t < s.now + env.seat_lock_ttl * 1000
      → env.redis.get (env.redis.setex s.redis s.now k env.seat_lock_ttl u) t k ≡ some u
  get-setex_live s k u t h before = rw (
    env.redis.get-setex s.redis s.now t k k env.seat_lock_ttl u h,
    str_eq_refl k,
    lt→ltb t (s.now + env.seat_lock_ttl * 1000) before,
  )

  -- Once a user with a non-empty identifier has locked seats of a bus, and until the lock expires,
  -- another user who asks for the same seats of the same bus, in whatever order, gets `false`, and
  -- the state stays as it is, if nothing else has touched Redis in between.
  pub lock_seats-excludes :
      (s : State env) (bus_id : String) (xs ys : List String) (u v : String) (t : ℕ)
      → (lock_seats env bus_id xs u s).0 ≡ ok true
      → Perm xs ys
      → u ≢ v
      → u ≢ ""
      → s.now ≤ t
      → t < s.now + env.seat_lock_ttl * 1000
      → lock_seats env bus_id ys v (later (lock_seats env bus_id xs u s).1 t)
        ≡ (ok false, later (lock_seats env bus_id xs u s).1 t)
  lock_seats-excludes s bus_id xs ys u v t locked p ne nonempty h before =
      lock_seats_held (later (lock_seats env bus_id xs u s).1 t) bus_id ys u v
        (rw (redis-lock_seats s bus_id xs u locked, ← lock_key-perm bus_id p)
          (get-setex_live s (lock_key bus_id xs) u t h before))
        ne nonempty

  -- A lock says nothing about another key: while one user holds the seats `xs`, a second user gets
  -- the seats `ys` of the same bus whenever the two keys differ and the second key was free, also
  -- where `xs` and `ys` have a seat in common.
  pub lock_seats-overlap :
      (s : State env) (bus_id : String) (xs ys : List String) (u v : String) (t : ℕ)
      → (lock_seats env bus_id xs u s).0 ≡ ok true
      → lock_key bus_id xs ≢ lock_key bus_id ys
      → s.now ≤ t
      → env.redis.get s.redis t (lock_key bus_id ys) ≡ none
      → (lock_seats env bus_id ys v (later (lock_seats env bus_id xs u s).1 t)).0 ≡ ok true
  lock_seats-overlap s bus_id xs ys u v t locked ne h free =
      lock_seats_free (later (lock_seats env bus_id xs u s).1 t) bus_id ys v (
        rw
          (
            redis-lock_seats s bus_id xs u locked,
            env.redis.get-setex s.redis s.now t (lock_key bus_id xs) (lock_key bus_id ys)
                env.seat_lock_ttl u h,
            ne→str_eq _ _ ne,
          )
          free)

  -- Once the seats are unlocked, in whatever order they are named, any user can lock them.
  pub lock_seats-unlock_seats :
      (s : State env) (bus_id : String) (xs ys : List String) (v : String)
      → Perm xs ys
      → (lock_seats env bus_id ys v (unlock_seats env bus_id xs s)).0 ≡ ok true
  lock_seats-unlock_seats s bus_id xs ys v p =
      lock_seats_free (unlock_seats env bus_id xs s) bus_id ys v (
        unfold unlock_seats in
        rw (← lock_key-perm bus_id p, env.redis.get-del, str_eq_refl (lock_key bus_id xs)))
