-- ===== src/Locks.antt =====
-- The seat locks and one-time passwords of src/core/redis/redis.service.ts.
pub mod Exclusion
pub mod Interleaved
use bus_booking_backend.Prelude.{
  ℕ, String, Bool, true, false, not, ◌&&◌, Option, none, some, List, ◌<>◌, str_eq, join, sort_texts,
  if◌then◌else◌,
}
use bus_booking_backend.Store.{ok}
use bus_booking_backend.Action.{Action}
use bus_booking_backend.World.{Env, State}

-- `${PREFIX.SEAT_LOCK}${busId}:${seats.sort().join(',')}`
unfoldable pub lock_key : String → List String → String
lock_key bus_id seats = "seat_lock:" <> (bus_id <> (":" <> join "," (sort_texts seats)))

-- `existing && existing !== userId`; the empty text is falsy
abbrev pub is_held_by_other : Option String → String → Bool
is_held_by_other none user_id = false
is_held_by_other (some holder) user_id = not (str_eq holder "") && not (str_eq holder user_id)

unfoldable pub otp_key : String → String
otp_key phone = "otp:" <> phone

module _ (env : Env) where
  abbrev pub redis_get : State env → String → Option String
  redis_get s key = env.redis.get s.redis s.now key

  -- `setex(lockKey, env.redis.ttl.seatLock, userId)`
  abbrev pub acquired : State env → (key user_id : String) → State env
  acquired s key user_id = record s {
    redis = env.redis.setex s.redis s.now key env.seat_lock_ttl user_id;
  }

  unfoldable pub lock_seats : String → List String → String → Action (State env) Bool
  lock_seats bus_id seats user_id s =
      let key = lock_key bus_id seats in
      if is_held_by_other (redis_get s key) user_id
      then (ok false, s)
      else (ok true, acquired s key user_id)

  unfoldable pub unlock_seats : String → List String → State env → State env
  unlock_seats bus_id seats s = record s { redis = env.redis.del s.redis (lock_key bus_id seats) }

  unfoldable pub set_otp : String → String → State env → State env
  set_otp phone otp s = record s {
    redis = env.redis.setex s.redis s.now (otp_key phone) env.otp_ttl otp;
  }

  unfoldable pub get_otp : String → State env → Option String
  get_otp phone s = redis_get s (otp_key phone)

  unfoldable pub delete_otp : String → State env → State env
  delete_otp phone s = record s { redis = env.redis.del s.redis (otp_key phone) }
