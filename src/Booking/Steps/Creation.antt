-- ===== src/Booking/Steps/Creation.antt =====
-- `createBooking` takes at most the step of a creation, however it ends
-- (src/modules/booking/booking.service.ts).
use bus_booking_backend.Prelude.{
  String, ◌≡◌, refl, ap, sym, ◌∙◌, true, false, Option, none, some, arith, ◌⊎◌, inl, inr,
  Bool-cases, List,
}
use bus_booking_backend.Errors.{Error}
use bus_booking_backend.Store.{ObjectId, ok, err, Result-cases}
use bus_booking_backend.Action.{>>=_preserves}
use bus_booking_backend.World.{Env, State}
use bus_booking_backend.Locks.{lock_seats, unlock_seats, is_held_by_other, redis_get, lock_key}
use bus_booking_backend.Booking.Create.{
  CreateBookingDto, Checked, check_request, reserve, save_booking, new_booking, lock_marks,
  create_booking, to_object_id,
}
use bus_booking_backend.Booking.Create.Outcome.{check_request_unchanged}
use bus_booking_backend.Booking.Steps.{Step, Step-at}

module _ (env : Env) where
  -- The lock is refused, or taken in Redis alone.
  pub lock_seats-cases :
      (bus : String) (seats : List String) (u : String) (s : State env)
      → (lock_seats env bus seats u s ≡ (ok false, s))
        ⊎ ((r : env.redis.Store) × (lock_seats env bus seats u s
              ≡ (ok true, record s { redis = r })))
  unfolding lock_seats
  lock_seats-cases bus seats u s =
      elim (Bool-cases (is_held_by_other (redis_get env s (lock_key bus seats)) u)) [
        | inl held ↦ rw held (inl refl)
        | inr free ↦
            rw free
              (inr (env.redis.setex s.redis s.now (lock_key bus seats) env.seat_lock_ttl u, refl))
      ]

  save_booking-cases :
      (dto : CreateBookingDto) (ten : Option String) (c : Checked) (s : State env)
      → ((e : Error) × (save_booking env dto c ten s).0 ≡ err e
          × (save_booking env dto c ten s).1.bookings ≡ s.bookings)
        ⊎ ((i : ObjectId) × (save_booking env dto c ten s).0
              ≡ ok (record {
                id = i;
                doc = new_booking env dto c (to_object_id env.cast_id ten) s.bookings s.now;
              })
            × (env.bookings.create s.bookings
                  (new_booking env dto c (to_object_id env.cast_id ten) s.bookings s.now)
                ≡ ok (i, (save_booking env dto c ten s).1.bookings)))
  unfolding save_booking
  save_booking-cases dto ten c s =
      elim (Result-cases (env.buses.update_by_id s.buses c.bus_id (lock_marks env c))) [
        | inr (e, h) ↦ inl (e, ground arith, ground arith)
        | inl (b, h) ↦
            elim (Result-cases (
              env.bookings.create s.bookings
                (new_booking env dto c (to_object_id env.cast_id ten) s.bookings s.now))) [
                  | inr (e, l) ↦ inl (e, ground arith, ground arith)
                  | inl ((i, c'), l) ↦ inr (i, ground arith, ground arith)
                ]
      ]

  -- What a reservation leaves: the bookings as they were, or a pending one beside them.
  reserve-cases :
      (dto : CreateBookingDto) (u : String) (ten : Option String) (c : Checked) (s : State env)
      → ((reserve env dto u ten c s).1.bookings ≡ s.bookings)
        ⊎ ((i : ObjectId) × (env.bookings.create s.bookings
                (new_booking env dto c (to_object_id env.cast_id ten) s.bookings s.now)
              ≡ ok (i, (reserve env dto u ten c s).1.bookings)))
  unfolding reserve unlock_seats
  reserve-cases dto u ten c s = elim (lock_seats-cases dto.bus_id c.seats u s) [
    | inl held ↦ inl (ground arith)
    | inr (r, free) ↦ elim (save_booking-cases dto ten c (record s { redis = r })) [
      | inl (e, h, k) ↦ inl (ground arith)
      | inr (i, h, k) ↦ inr (i, ground arith)
    ]
  ]

  reserve-Step :
      (Fits : ObjectId → Type 0) (dto : CreateBookingDto) (u : String) (ten : Option String)
      (c : Checked) (s : State env) (j : ObjectId)
      → Step Fits
          (env.bookings.find_by_id s.bookings j)
          (env.bookings.find_by_id (reserve env dto u ten c s).1.bookings j)
  unfolding new_booking
  reserve-Step Fits dto u ten c s j = elim (reserve-cases dto u ten c s) [
    | inl kept ↦ Step.stay (ap (λ c. env.bookings.find_by_id c j) kept)
    | inr (i, w) ↦
        let doc = new_booking env dto c (to_object_id env.cast_id ten) s.bookings s.now in
        let after = (reserve env dto u ten c s).1.bookings in
        rw (env.bookings.find_by_id-create s.bookings after doc i j w) (
          Step-at Fits i j (env.bookings.find_by_id s.bookings j) (some doc) none
            (λ same. rw (← same) (env.bookings.create_fresh s.bookings after doc i w))
            (λ _. Step.begin doc refl refl refl refl refl))
  ]

  -- Whatever the call returns or throws, each booking is as it was, or was not there and is now
  -- pending.
  pub create_booking-Step :
      (Fits : ObjectId → Type 0) (dto : CreateBookingDto) (u : String) (ten : Option String)
      (s : State env) (j : ObjectId)
      → Step Fits
          (env.bookings.find_by_id s.bookings j)
          (env.bookings.find_by_id (create_booking env dto u ten s).1.bookings j)
  unfolding create_booking
  create_booking-Step Fits dto u ten s j =
      >>=_preserves
        (λ t.
          Step Fits (env.bookings.find_by_id s.bookings j) (env.bookings.find_by_id t.bookings j))
        (check_request env dto u) (reserve env dto u ten) s
        (rw (check_request_unchanged env dto u s) (Step.stay refl))
        (λ c t e.
          let same : t ≡ s = sym (ap (λ r. r.1) e) ∙ check_request_unchanged env dto u s in
          rw same (reserve-Step Fits dto u ten c s j))
