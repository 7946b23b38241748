-- ===== src/Booking/Create/Leaks.antt =====
-- What `createBooking` leaves when its last write is rejected
-- (src/modules/booking/booking.service.ts).
use bus_booking_backend.Prelude.{String, ◌≡◌, refl, ◌∙◌, Option, none, arith, str_eq_refl}
use bus_booking_backend.Errors.{Error}
use bus_booking_backend.Store.{ObjectId, ok, err, Stored}
use bus_booking_backend.World.{Env, State}
use bus_booking_backend.Documents.{Bus, seat_nos}
use bus_booking_backend.Locks.{unlock_seats, lock_key, redis_get}
use bus_booking_backend.Booking.Create.{
  CreateBookingDto, Checked, to_object_id, new_booking, lock_marks, create_booking, save_booking,
  reserve,
}
use bus_booking_backend.Booking.Create.Succeeds.{passed, IsBookable, check_request_passes, locks}

module _ (env : Env) where
  fails_to_save :
      (dto : CreateBookingDto) (ten : Option String) (c : Checked) (s : State env)
      (buses : env.buses.Coll) (e : Error)
      → env.buses.update_by_id s.buses c.bus_id (lock_marks env c) ≡ ok buses
      → env.bookings.create s.bookings
          (new_booking env dto c (to_object_id env.cast_id ten) s.bookings s.now)
        ≡ err e
      → save_booking env dto c ten s ≡ (err e, record s { buses = buses })
  unfolding save_booking
  fails_to_save dto ten c s buses e h k = ground arith

  reserve_leaks :
      (dto : CreateBookingDto) (u : String) (ten : Option String) (c : Checked) (s : State env)
      (buses : env.buses.Coll) (e : Error)
      → redis_get env s (lock_key dto.bus_id c.seats) ≡ none
      → env.buses.update_by_id s.buses c.bus_id (lock_marks env c) ≡ ok buses
      → env.bookings.create s.bookings
          (new_booking env dto c (to_object_id env.cast_id ten) s.bookings s.now)
        ≡ err e
      → let key = lock_key dto.bus_id c.seats in
        let redis = env.redis.del (env.redis.setex s.redis s.now key env.seat_lock_ttl u) key in
        (reserve env dto u ten c s ≡ (err e, record s { buses = buses; redis = redis }))
        × (env.redis.get redis s.now key ≡ none)
  unfolding reserve unlock_seats
  reserve_leaks dto u ten c s buses e free h l =
      let key = lock_key dto.bus_id c.seats in
      let redis = env.redis.setex s.redis s.now key env.seat_lock_ttl u in
      let locked = locks env dto.bus_id c.seats u s free in
      let failed = fails_to_save dto ten c (record s { redis = redis }) buses e h l in
      (ground arith, rw (env.redis.get-del redis s.now key key, str_eq_refl key))

  -- Where the booking itself is rejected after the seats were marked, the call throws that error,
  -- and the marks stay: only the lock in Redis is taken back.
  pub create_booking_leaks :
      (dto : CreateBookingDto) (u : String) (ten : Option String) (s : State env) (bus : Stored Bus)
      (user_id bus_id : ObjectId) (buses : env.buses.Coll) (e : Error)
      → IsBookable env s dto u bus user_id bus_id
      → redis_get env s (lock_key dto.bus_id (seat_nos dto.passengers)) ≡ none
      → env.buses.update_by_id s.buses bus_id (lock_marks env (passed dto bus user_id bus_id))
        ≡ ok buses
      → env.bookings.create s.bookings (
          new_booking env dto
            (passed dto bus user_id bus_id)
            (to_object_id env.cast_id ten)
            s.bookings
            s.now)
        ≡ err e
      → ((create_booking env dto u ten s).0 ≡ err e)
        × ((create_booking env dto u ten s).1.buses ≡ buses)
        × ((create_booking env dto u ten s).1.bookings ≡ s.bookings)
        × (env.redis.get
              (create_booking env dto u ten s).1.redis
              s.now
              (lock_key dto.bus_id (seat_nos dto.passengers))
            ≡ none)
  unfolding create_booking
  create_booking_leaks dto u ten s bus user_id bus_id buses e k free h l =
      let left = reserve_leaks dto u ten (passed dto bus user_id bus_id) s buses e free h l in
      let (same, lock) = left in
      let checked = check_request_passes env dto u s bus user_id bus_id k in
      let ended : create_booking env dto u ten s
          ≡ reserve env dto u ten (passed dto bus user_id bus_id) s =
        ground arith in
      rw (ended ∙ same) (refl, refl, refl, lock)
