-- ===== src/Booking/Create/Race.antt =====
-- Two `createBooking` calls whose checks run before either lock
-- (src/modules/booking/booking.service.ts).
use bus_booking_backend.Prelude.{String, ◌≡◌, ◌≢◌, Option, none, arith, ne→str_eq}
use bus_booking_backend.Store.{ObjectId, ok, Stored}
use bus_booking_backend.World.{Env, State}
use bus_booking_backend.Documents.{Bus, seat_nos}
use bus_booking_backend.Locks.{lock_key, redis_get}
use bus_booking_backend.Booking.Create.{
  CreateBookingDto, Checked, check_request, to_object_id, new_booking, lock_marks, reserve,
}
use bus_booking_backend.Booking.Create.Succeeds.{
  passed, IsBookable, CanWrite, reserve_succeeds, check_request_passes,
}

module _ (env : Env) where
  -- Another key is as free as it was.
  unlocked_after :
      (s t : State env) (k j u : String)
      → k ≢ j
      → redis_get env s j ≡ none
      → t.redis ≡ env.redis.setex s.redis s.now k env.seat_lock_ttl u
      → t.now ≡ s.now
      → redis_get env t j ≡ none
  unlocked_after s t k j u ne free redis now =
      rw
        (
          redis,
          now,
          env.redis.get-setex s.redis s.now s.now k j env.seat_lock_ttl u (omega arith),
          ne→str_eq k j ne,
        )
        free

  -- Two requests that both pass their checks before either takes its lock both return a booking,
  -- also where they have a seat in common, if their lists of seats have different keys that nobody
  -- holds, and the stores accept the writes.
  pub reserve_races :
      (dto dto' : CreateBookingDto) (u u' : String) (ten ten' : Option String)
      (bus bus' : Stored Bus) (user_id user_id' bus_id bus_id' : ObjectId) (s : State env)
      (buses buses' : env.buses.Coll) (i i' : ObjectId) (bookings bookings' : env.bookings.Coll)
      → IsBookable env s dto u bus user_id bus_id
      → IsBookable env s dto' u' bus' user_id' bus_id'
      → lock_key dto.bus_id (seat_nos dto.passengers)
        ≢ lock_key dto'.bus_id (seat_nos dto'.passengers)
      → redis_get env s (lock_key dto'.bus_id (seat_nos dto'.passengers)) ≡ none
      → CanWrite env s dto ten (passed dto bus user_id bus_id) buses i bookings
      → env.buses.update_by_id buses bus_id' (lock_marks env (passed dto' bus' user_id' bus_id'))
        ≡ ok buses'
      → env.bookings.create bookings (
          new_booking env dto'
            (passed dto' bus' user_id' bus_id')
            (to_object_id env.cast_id ten')
            bookings
            s.now)
        ≡ ok (i', bookings')
      → (c c' : Checked) × (t t' : State env) × (check_request env dto u s ≡ (ok c, s))
        × (check_request env dto' u' s ≡ (ok c', s))
        × (reserve env dto u ten c s ≡ (
          ok (record {
            id = i;
            doc = new_booking env dto c (to_object_id env.cast_id ten) s.bookings s.now;
          }),
          t,
        ))
        × (reserve env dto' u' ten' c' t ≡ (
          ok (record {
            id = i';
            doc = new_booking env dto' c' (to_object_id env.cast_id ten') t.bookings t.now;
          }),
          t',
        ))
  reserve_races dto dto' u u' ten ten' bus bus' user_id user_id' bus_id bus_id' s buses buses' i i'
        bookings bookings' k k' ne free w h l =
      let c = passed dto bus user_id bus_id in
      let c' = passed dto' bus' user_id' bus_id' in
      let (t, d) = reserve_succeeds env dto u ten c s buses i bookings w in
      let (t', d') = reserve_succeeds env dto' u' ten' c' t buses' i' bookings' (record {
        unlocked =
            unlocked_after s t (lock_key dto.bus_id c.seats) (lock_key dto'.bus_id c'.seats) u ne
              free d.redis d.same_now;
        bus_write = rw d.same_buses h;
        booking_write = rw (d.same_bookings, d.same_now) l;
      }) in
      (
        c,
        c',
        t,
        t',
        check_request_passes env dto u s bus user_id bus_id k,
        check_request_passes env dto' u' s bus' user_id' bus_id' k',
        d.result,
        d'.result,
      )
