-- ===== src/Tests/Locks.antt =====
-- Seat locks and error responses at concrete inputs.
use mathlib.Core.List.{Perm, Permᴰ}
use bus_booking_backend.Prelude.{
  String, ◌≡◌, refl, true, false, none, some, List, [], ◌∷◌, arith, ap, str_eq, ◌≤◌, ◌<◌,
}
use bus_booking_backend.Errors.{error_handler, cast}
use bus_booking_backend.Errors.Statuses.{IsAnswer, error_handler-range}
use bus_booking_backend.Store.{ok}
use bus_booking_backend.World.{State}
use bus_booking_backend.Locks.{lock_key, lock_seats, redis_get}
use bus_booking_backend.Locks.Exclusion.{later, lock_seats-excludes}
use bus_booking_backend.Locks.Interleaved.{called, returned, Run, lock_seats_interleaved}
use bus_booking_backend.Tests.MemoryRedis.{get}
use bus_booking_backend.Tests.Sample.{env, start}

abbrev two : List String
two = "02" ∷ "03" ∷ []

abbrev swapped : List String
swapped = "03" ∷ "02" ∷ []

swapped-two : Perm two swapped
swapped-two = ∣ Permᴰ.swap refl refl ∣₁

abbrev locked : State env
locked = (lock_seats env "b" two "alice" start).1

lock_two : (lock_seats env "b" two "alice" start).0 ≡ ok true
unfolding lock_seats get
lock_two = refl

lock_seats-excludes_example :
    lock_seats env "b" swapped "bob" (later env locked 5000) ≡ (ok false, later env locked 5000)
lock_seats-excludes_example =
    lock_seats-excludes env start "b" two swapped "alice" "bob" 5000 lock_two swapped-two
      (λ e. cc (ap (λ x. str_eq x "bob") e)) (λ e. cc (ap (λ x. str_eq x "") e)) (omega arith)
      (omega arith)

unlocked : redis_get env start (lock_key "b" two) ≡ none
unfolding get
unlocked = refl

lock_seats_interleaved_example :
    (s' : State env) × Run env
      (lock_key "b" two)
      "alice"
      "bob"
      called
      called
      start
      (returned true)
      (returned true)
      s'
    × (redis_get env s' (lock_key "b" two) ≡ some "bob")
    × (lock_seats env "b" two "alice" s' ≡ (ok false, s'))
lock_seats_interleaved_example =
    lock_seats_interleaved env "b" two "alice" "bob" start unlocked (omega arith)
      (λ e. cc (ap (λ x. str_eq x "bob") e)) (λ e. cc (ap (λ x. str_eq x "") e))

error_handler-range_example :
    ((error_handler (cast "_id" "x")).success ≡ false)
    × (400 ≤ (error_handler (cast "_id" "x")).status)
    × ((error_handler (cast "_id" "x")).status < 600)
    × IsAnswer (cast "_id" "x") (error_handler (cast "_id" "x"))
error_handler-range_example = error_handler-range (cast "_id" "x") tt
