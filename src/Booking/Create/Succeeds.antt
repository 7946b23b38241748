-- ===== src/Booking/Create/Succeeds.antt =====
-- When `createBooking` returns
-- (src/modules/booking/booking.service.ts).
use bus_booking_backend.Prelude.{
  ◌+◌, String, ◌≡◌, ap, ◌∙◌, true, Option, none, some, [], All, all_distinct, arith, List,
}
use bus_booking_backend.Store.{ObjectId, ok, Stored}
use bus_booking_backend.World.{Env, State}
use bus_booking_backend.Documents.{Bus, BusStatus, seat_nos}
use bus_booking_backend.Locks.{lock_seats, lock_key, redis_get}
use bus_booking_backend.Booking.Seats.{scan_seats}
use bus_booking_backend.Booking.Seats.Scan.{IsFree, total_of, scan_seats_passes}
use bus_booking_backend.Booking.Seats.Distinct.{dedupe_distinct}
use bus_booking_backend.Booking.Create.{
  CreateBookingDto, Checked, check_request, to_object_id, new_booking, lock_marks, create_booking,
  save_booking, reserve,
}

-- What the checks hand on for a request that passes them.
abbrev pub passed : CreateBookingDto → Stored Bus → (user_id bus_id : ObjectId) → Checked
passed dto bus user_id bus_id = record {
  bus = bus;
  user_id = user_id;
  bus_id = bus_id;
  seats = seat_nos dto.passengers;
  total_fare = total_of bus.doc.seats (seat_nos dto.passengers);
}

module _ (env : Env) where
  -- A request for distinct seats of an active bus that are all available.
  pub record IsBookable (s : State env) (dto : CreateBookingDto) (u : String) (bus : Stored Bus)
      (user_id bus_id : ObjectId) : Type 0 where
    pub cast_bus : env.cast_id dto.bus_id ≡ some bus.id
    pub found : env.buses.find_by_id s.buses bus.id ≡ some bus.doc
    pub active : bus.doc.status ≡ BusStatus.active
    pub user : to_object_id env.cast_id (some u) ≡ some user_id
    pub key : to_object_id env.cast_id (some dto.bus_id) ≡ some bus_id
    pub distinct : all_distinct (seat_nos dto.passengers) ≡ true
    pub free : All (IsFree bus.doc.seats) (seat_nos dto.passengers)

  pub check_request_passes :
      (dto : CreateBookingDto) (u : String) (s : State env) (bus : Stored Bus)
      (user_id bus_id : ObjectId)
      → IsBookable s dto u bus user_id bus_id
      → check_request env dto u s ≡ (ok (passed dto bus user_id bus_id), s)
  unfolding check_request
  check_request_passes dto u s bus user_id bus_id k =
      let seats = seat_nos dto.passengers in
      let same = dedupe_distinct seats k.distinct in
      let total : 0 + total_of bus.doc.seats seats ≡ total_of bus.doc.seats seats = omega arith in
      let scanned : scan_seats bus.doc.seats seats [] 0 ≡ ok ([], total_of bus.doc.seats seats) =
        scan_seats_passes bus.doc.seats seats 0 k.free ∙ ap (λ t. ok ([], t)) total in
      let cast = k.cast_bus in
      let found = k.found in
      let active = k.active in let user = k.user in let key = k.key in ground arith

  -- What the writes of a reservation need: a lock that is free, and stores that accept both.
  pub record CanWrite (s : State env) (dto : CreateBookingDto) (ten : Option String) (c : Checked)
      (buses : env.buses.Coll) (i : ObjectId) (bookings : env.bookings.Coll) : Type 0 where
    pub unlocked : redis_get env s (lock_key dto.bus_id c.seats) ≡ none
    pub bus_write : env.buses.update_by_id s.buses c.bus_id (lock_marks env c) ≡ ok buses
    pub booking_write :
        env.bookings.create s.bookings
          (new_booking env dto c (to_object_id env.cast_id ten) s.bookings s.now)
        ≡ ok (i, bookings)

  -- What a reservation returns and leaves.
  pub record IsDone (s : State env) (dto : CreateBookingDto) (u : String) (ten : Option String)
      (c : Checked) (buses : env.buses.Coll) (i : ObjectId) (bookings : env.bookings.Coll)
      (s' : State env) : Type 0 where
    pub result : reserve env dto u ten c s ≡ (
      ok (record {
        id = i;
        doc = new_booking env dto c (to_object_id env.cast_id ten) s.bookings s.now;
      }),
      s',
    )
    pub same_buses : s'.buses ≡ buses
    pub same_bookings : s'.bookings ≡ bookings
    pub same_now : s'.now ≡ s.now
    pub redis :
        s'.redis ≡ env.redis.setex s.redis s.now (lock_key dto.bus_id c.seats) env.seat_lock_ttl u

  -- A free lock is granted.
  pub locks :
      (bus_id : String) (seats : List String) (u : String) (s : State env)
      → redis_get env s (lock_key bus_id seats) ≡ none
      → lock_seats env bus_id seats u s ≡ (
        ok true,
        record s {
          redis = env.redis.setex s.redis s.now (lock_key bus_id seats) env.seat_lock_ttl u;
        },
      )
  unfolding lock_seats
  locks bus_id seats u s h = rw h

  saves :
      (dto : CreateBookingDto) (ten : Option String) (c : Checked) (s : State env)
      (buses : env.buses.Coll) (i : ObjectId) (bookings : env.bookings.Coll)
      → env.buses.update_by_id s.buses c.bus_id (lock_marks env c) ≡ ok buses
      → env.bookings.create s.bookings
          (new_booking env dto c (to_object_id env.cast_id ten) s.bookings s.now)
        ≡ ok (i, bookings)
      → save_booking env dto c ten s ≡ (
        ok (record {
          id = i;
          doc = new_booking env dto c (to_object_id env.cast_id ten) s.bookings s.now;
        }),
        record s { buses = buses; bookings = bookings },
      )
  unfolding save_booking
  saves dto ten c s buses i bookings h k = ground arith

  -- A reservation does not read the bus again: with a free lock and accepted writes it succeeds,
  -- whatever has happened to the seats since the checks.
  pub reserve_succeeds :
      (dto : CreateBookingDto) (u : String) (ten : Option String) (c : Checked) (s : State env)
      (buses : env.buses.Coll) (i : ObjectId) (bookings : env.bookings.Coll)
      → CanWrite s dto ten c buses i bookings
      → (s' : State env) × IsDone s dto u ten c buses i bookings s'
  unfolding reserve
  reserve_succeeds dto u ten c s buses i bookings k =
      let locked = locks dto.bus_id c.seats u s k.unlocked in
      let saved =
        saves dto ten c
          (record s {
            redis = env.redis.setex s.redis s.now (lock_key dto.bus_id c.seats) env.seat_lock_ttl u;
          })
          buses i bookings k.bus_write k.booking_write in
      (
        (reserve env dto u ten c s).1,
        record {
          result = ground arith;
          same_buses = ground arith;
          same_bookings = ground arith;
          same_now = ground arith;
          redis = ground arith;
        },
      )

  -- A request for distinct available seats of an active bus returns a booking, if nobody holds the
  -- lock of these seats and the two writes are accepted.
  pub create_booking_succeeds :
      (dto : CreateBookingDto) (u : String) (ten : Option String) (s : State env) (bus : Stored Bus)
      (user_id bus_id : ObjectId) (buses : env.buses.Coll) (i : ObjectId)
      (bookings : env.bookings.Coll)
      → IsBookable s dto u bus user_id bus_id
      → CanWrite s dto ten (passed dto bus user_id bus_id) buses i bookings
      → (s' : State env) × (create_booking env dto u ten s ≡ (
        ok (record {
          id = i;
          doc =
              new_booking env dto
                (passed dto bus user_id bus_id)
                (to_object_id env.cast_id ten)
                s.bookings
                s.now;
        }),
        s',
      ))
        × (s'.buses ≡ buses)
        × (s'.bookings ≡ bookings)
  unfolding create_booking
  create_booking_succeeds dto u ten s bus user_id bus_id buses i bookings k w =
      let (s', d) =
        reserve_succeeds dto u ten (passed dto bus user_id bus_id) s buses i bookings w in
      let checked = check_request_passes dto u s bus user_id bus_id k in
      let result = d.result in (s', ground arith, d.same_buses, d.same_bookings)
