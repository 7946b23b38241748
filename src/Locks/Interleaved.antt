-- ===== src/Locks/Interleaved.antt =====
-- `lockSeats` as its two Redis commands, the `get` and the `setex` of the pipeline, between which
-- another call may run (src/core/redis/redis.service.ts).
use bus_booking_backend.Prelude.{
  ◌+◌, ◌*◌, ◌<◌, String, ◌≡◌, ◌≢◌, refl, Bool, true, false, ◌⊎◌, inl, inr, Bool-cases, List, none,
  some, arith, str_eq_refl, lt→ltb,
}
use bus_booking_backend.Store.{ok}
use bus_booking_backend.World.{Env, State}
use bus_booking_backend.Locks.{lock_key, lock_seats, redis_get, is_held_by_other, acquired}
use bus_booking_backend.Locks.Exclusion.{lock_seats_held}

-- Where a call of `lockSeats` stands: before the `get`, between the `get` and the `setex`, returned.
pub data Phase : Type 0 where
  called : Phase
  passed : Phase
  returned : Bool → Phase

module _ (env : Env) where
  -- One command of a call for the key `k` by the user `u`.
  pub data Command (k u : String) : Phase → State env → Phase → State env → Type 0 where
    get_held :
        (s : State env)
        → is_held_by_other (redis_get env s k) u ≡ true
        → Command k u called s (returned false) s
    get_free :
        (s : State env)
        → is_held_by_other (redis_get env s k) u ≡ false
        → Command k u called s passed s
    setex : (s : State env) → Command k u passed s (returned true) (acquired env s k u)

  -- The commands of a call of `u` and a call of `v` for one key, in any order, at one moment.
  pub data Run (k u v : String)
      : Phase → Phase → State env → Phase → Phase → State env → Type 0 where
    done : (p q : Phase) (s : State env) → Run k u v p q s p q s
    left :
        {p p' p'' q q'' : Phase} {s s' s'' : State env}
        → Command k u p s p' s'
        → Run k u v p' q s' p'' q'' s''
        → Run k u v p q s p'' q'' s''
    right :
        {p p'' q q' q'' : Phase} {s s' s'' : State env}
        → Command k v q s q' s'
        → Run k u v p q' s' p'' q'' s''
        → Run k u v p q s p'' q'' s''

  -- A call that nothing interrupts is one `get`, and one `setex` where the lock is granted, with the
  -- value and the state that `lockSeats` returns, whatever another call for the key waits for.
  pub lock_seats-Run :
      (bus_id : String) (seats : List String) (u v : String) (q : Phase) (s : State env)
      → (granted : Bool) × (s' : State env) × (lock_seats env bus_id seats u s ≡ (ok granted, s'))
        × Run (lock_key bus_id seats) u v called q s (returned granted) q s'
  unfolding lock_seats
  lock_seats-Run bus_id seats u v q s =
      let k = lock_key bus_id seats in
      elim (Bool-cases (is_held_by_other (redis_get env s k) u)) [
        | inl held ↦ (false, s, (rw held), left (get_held s held) (done _ _ _))
        | inr free ↦ (
          true,
          acquired env s k u,
          (rw free),
          left (get_free s free) (left (setex s) (done _ _ _)),
        )
      ]

  -- The key of a lock that was just taken.
  redis_get-acquired :
      (s : State env) (k u : String)
      → 0 < env.seat_lock_ttl
      → redis_get env (acquired env s k u) k ≡ some u
  redis_get-acquired s k u lives = rw (
    env.redis.get-setex s.redis s.now s.now k k env.seat_lock_ttl u (omega arith),
    str_eq_refl k,
    lt→ltb s.now (s.now + env.seat_lock_ttl * 1000) (omega arith),
  )

  -- If nobody holds the key of some seats, the locks live longer than no time, and the second user
  -- is not the first and has a non-empty identifier, then the commands of a call of each of the two
  -- for these seats can run in an order in which both calls return `true`. The key then names the
  -- second user, and a further call of the first, who was told that the seats are locked, is
  -- refused.
  pub lock_seats_interleaved :
      (bus_id : String) (seats : List String) (u v : String) (s : State env)
      → redis_get env s (lock_key bus_id seats) ≡ none
      → 0 < env.seat_lock_ttl
      → v ≢ u
      → v ≢ ""
      → (s' : State env) × Run
          (lock_key bus_id seats)
          u
          v
          called
          called
          s
          (returned true)
          (returned true)
          s'
        × (redis_get env s' (lock_key bus_id seats) ≡ some v)
        × (lock_seats env bus_id seats u s' ≡ (ok false, s'))
  lock_seats_interleaved bus_id seats u v s free lives ne nonempty =
      let k = lock_key bus_id seats in
      let s' = acquired env (acquired env s k u) k v in
      let last = redis_get-acquired (acquired env s k u) k v lives in
      (
        s',
        left (get_free s (rw free))
            (right (get_free s (rw free)) (left (setex s) (right (setex _) (done _ _ _)))),
        last,
        lock_seats_held env s' bus_id seats v u last ne nonempty,
      )

  -- What stays true of two calls for a key that was free: it is free and no call was refused, or a
  -- call was granted.
  abbrev Progress : (k : String) → Phase → Phase → State env → Type 0
  Progress k p q s =
      ((redis_get env s k ≡ none) × (p ≢ returned false) × (q ≢ returned false))
      ⊎ ((p ≡ returned true) ⊎ (q ≡ returned true))

  Command-Progress :
      {k u : String} {p p' : Phase} {s s' : State env} (q : Phase)
      → Command k u p s p' s'
      → Progress k p q s
      → Progress k p' q s'
  Command-Progress q (Command.get_held s held) (inl (free, _, _)) = cc (rw free at held)
  Command-Progress q (Command.get_held s held) (inr (inl e)) = cc e
  Command-Progress q (Command.get_held s held) (inr (inr e)) = inr (inr e)
  Command-Progress q (Command.get_free s _) (inl (free, _, nq)) = inl (free, (λ e. cc e), nq)
  Command-Progress q (Command.get_free s _) (inr (inl e)) = cc e
  Command-Progress q (Command.get_free s _) (inr (inr e)) = inr (inr e)
  Command-Progress q (Command.setex s) _ = inr (inl refl)

  Progress-swap : {k : String} (s : State env) (p q : Phase) → Progress k p q s → Progress k q p s
  Progress-swap s p q (inl (free, np, nq)) = inl (free, nq, np)
  Progress-swap s p q (inr (inl e)) = inr (inr e)
  Progress-swap s p q (inr (inr e)) = inr (inl e)

  Run-Progress :
      {k u v : String} {p q p' q' : Phase} {s s' : State env}
      → Run k u v p q s p' q' s'
      → Progress k p q s
      → Progress k p' q' s'
  Run-Progress (Run.done p q s) h = h
  Run-Progress (Run.left {q = q} c r) h = Run-Progress r (Command-Progress q c h)
  Run-Progress (Run.right {p = p} {q = q} {q' = q'} {s = s} {s' = s'} c r) h =
      Run-Progress r (Progress-swap s' q' p (Command-Progress p c (Progress-swap s p q h)))

  -- Two calls for the same free seats never refuse each other both: in every order of their
  -- commands in which both return, at least one of them returns `true`.
  pub lock_seats_progress :
      {k u v : String} (a b : Bool) {s s' : State env}
      → redis_get env s k ≡ none
      → Run k u v called called s (returned a) (returned b) s'
      → (a ≡ true) ⊎ (b ≡ true)
  lock_seats_progress true b free r = inl refl
  lock_seats_progress false b free r =
      elim (Run-Progress r (inl (free, (λ e. cc e), (λ e. cc e)))) [
        | inl (_, na, _) ↦ absurd (na refl)
        | inr (inl e) ↦ cc e
        | inr (inr e) ↦ inr (cc e)
      ]
