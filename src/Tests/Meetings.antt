-- ===== src/Tests/Meetings.antt =====
-- Two requests that meet, and a request that fails late.
use bus_booking_backend.Prelude.{
  ap, str_eq, ◌≡◌, ◌≢◌, refl, false, none, [], ◌∷◌, codes, sort_texts, includes, List, join,
}
use bus_booking_backend.Errors.{duplicate_key}
use bus_booking_backend.Store.{ok, err, Stored, Model}
use bus_booking_backend.Documents.{Bus, Booking, BookingStatus, seat_nos}
use bus_booking_backend.World.{Env, State}
use bus_booking_backend.Locks.{lock_key, lock_seats, unlock_seats}
use bus_booking_backend.Booking.Seats.{
  dedupe, find_index, scan_seats, modify_at, set_at, set_all, indices_of,
}
use bus_booking_backend.Booking.Create.{
  CreateBookingDto, Checked, create_booking, check_request, save_booking, reserve, to_object_id,
  is_object_id, new_booking, lock_marks,
}
use bus_booking_backend.Booking.Create.Succeeds.{
  passed, IsBookable, CanWrite, create_booking_succeeds,
}
use bus_booking_backend.Booking.Create.Race.{reserve_races}
use bus_booking_backend.Booking.Create.Leaks.{create_booking_leaks}
use bus_booking_backend.Booking.Create.Disjoint.{create_booking_disjoint}
use bus_booking_backend.Tests.Memory.{memory, lookup, change, create, add, new_id}
use bus_booking_backend.Tests.MemoryRedis.{get, setex, del}
use bus_booking_backend.Tests.Sample.{
  env, start, request, passenger, alice, bob, bus, bus_id, booking, seat,
}
use bus_booking_backend.Tests.Bookings.{for_two, created, after_create, create_booking_run}

abbrev the_bus : Stored Bus
the_bus = record { id = bus_id; doc = bus }

-- The last seat alone, which the request for two asks for too.
abbrev for_one : CreateBookingDto
for_one = request (passenger "03" ∷ [])

two-IsBookable : IsBookable env start for_two alice the_bus alice bus_id
unfolding lookup to_object_id is_object_id codes
two-IsBookable = record {
  cast_bus = refl;
  found = refl;
  active = refl;
  user = refl;
  key = refl;
  distinct = refl;
  free = ((seat "02", refl, refl), ((seat "03", refl, refl), tt));
}

one-IsBookable : IsBookable env start for_one bob the_bus bob bus_id
unfolding lookup to_object_id is_object_id codes
one-IsBookable = record {
  cast_bus = refl;
  found = refl;
  active = refl;
  user = refl;
  key = refl;
  distinct = refl;
  free = ((seat "03", refl, refl), tt);
}

abbrev marked : List (Stored Bus)
marked = change bus_id (lock_marks env (passed for_two the_bus alice bus_id)) start.buses

abbrev marked_twice : List (Stored Bus)
marked_twice = change bus_id (lock_marks env (passed for_one the_bus bob bus_id)) marked

abbrev first : Booking
first = new_booking env for_two (passed for_two the_bus alice bus_id) none [] 0

abbrev one_made : List (Stored Booking)
one_made = record { id = "a"; doc = first } ∷ []

abbrev second : Booking
second = new_booking env for_one (passed for_one the_bus bob bus_id) none one_made 0

abbrev two_made : List (Stored Booking)
two_made = record { id = "0a"; doc = second } ∷ one_made

two_writable :
    CanWrite env start for_two none (passed for_two the_bus alice bus_id) marked "a" one_made
unfolding get create add lookup new_id to_object_id
two_writable = record { unlocked = refl; bus_write = refl; booking_write = refl }

create_booking_succeeds_example :
    (s' : State env) × (create_booking env for_two alice none start
      ≡ (ok (record { id = "a"; doc = first }), s'))
    × (s'.buses ≡ marked)
    × (s'.bookings ≡ one_made)
unfolding to_object_id
create_booking_succeeds_example =
    create_booking_succeeds env for_two alice none start the_bus alice bus_id marked "a" one_made
      two-IsBookable two_writable

keys_differ :
    lock_key for_two.bus_id (seat_nos for_two.passengers)
    ≢ lock_key for_one.bus_id (seat_nos for_one.passengers)
unfolding lock_key sort_texts codes join
keys_differ e = cc (ap (λ k. str_eq k "seat_lock:aaaaaaaaaaaaaaaaaaaaaaaa:03") e)

reserve_races_example :
    (c c' : Checked) × (t t' : State env) × (check_request env for_two alice start ≡ (ok c, start))
    × (check_request env for_one bob start ≡ (ok c', start))
    × (reserve env for_two alice none c start ≡ (
      ok (record {
        id = "a";
        doc = new_booking env for_two c (to_object_id env.cast_id none) [] 0;
      }),
      t,
    ))
    × (reserve env for_one bob none c' t ≡ (
      ok (record {
        id = "0a";
        doc = new_booking env for_one c' (to_object_id env.cast_id none) t.bookings t.now;
      }),
      t',
    ))
unfolding get create add lookup new_id to_object_id
reserve_races_example =
    reserve_races env for_two for_one alice bob none none the_bus the_bus alice bob bus_id bus_id
      start marked marked_twice "a" "0a" one_made two_made two-IsBookable one-IsBookable keys_differ
      refl two_writable refl refl

-- The seat 01, for which the second of two calls is made.
abbrev for_first : CreateBookingDto
for_first = request (passenger "01" ∷ [])

abbrev other : Stored Booking
other = record {
  id = "0a";
  doc = record (booking BookingStatus.pending none for_first.passengers) {
    user_id = bob;
    total_fare = 100;
  };
}

abbrev after_other : State env
after_other = (create_booking env for_first bob none after_create).1

create_other_run : create_booking env for_first bob none after_create ≡ (ok other, after_other)
unfolding create_booking check_request to_object_id is_object_id codes dedupe scan_seats reserve
    lock_seats lock_key sort_texts save_booking set_all indices_of find_index set_at modify_at
    new_booking lookup change create add new_id get setex del unlock_seats join
create_other_run = refl

create_booking_disjoint_example : includes "02" (seat_nos other.doc.passengers) ≡ false
create_booking_disjoint_example =
    create_booking_disjoint env for_two for_first alice bob none none start after_create after_other
      created other "02" create_booking_run create_other_run refl refl

-- A database that accepts no new booking.
abbrev no_more : Model Booking
no_more = record {
  Coll = List (Stored Booking);
  find_by_id = memory.find_by_id;
  find_all = memory.find_all;
  find_one = memory.find_one;
  count_documents = memory.count_documents;
  find_page = memory.find_page;
  create = λ c d. err (duplicate_key none);
  update_by_id = memory.update_by_id;
  delete_by_id = memory.delete_by_id;
  create_fresh = λ c c' d i h. cc;
  find_by_id-create = λ c c' d i j h. cc;
  find_by_id-update_by_id = memory.find_by_id-update_by_id;
  find_by_id-delete_by_id = memory.find_by_id-delete_by_id;
  find_one_sound = memory.find_one_sound;
  find_one_complete = memory.find_one_complete;
}

abbrev full_env : Env
full_env = record env { bookings = no_more }

abbrev full_start : State full_env
full_start = record {
  now = 0;
  buses = start.buses;
  bookings = [];
  payments = [];
  users = [];
  grievances = [];
  drivers = [];
  redis = [];
  events = [];
  jobs = [];
}

full-IsBookable : IsBookable full_env full_start for_two alice the_bus alice bus_id
unfolding lookup to_object_id is_object_id codes
full-IsBookable = record {
  cast_bus = refl;
  found = refl;
  active = refl;
  user = refl;
  key = refl;
  distinct = refl;
  free = ((seat "02", refl, refl), ((seat "03", refl, refl), tt));
}

create_booking_leaks_example :
    ((create_booking full_env for_two alice none full_start).0 ≡ err (duplicate_key none))
    × ((create_booking full_env for_two alice none full_start).1.buses ≡ marked)
    × ((create_booking full_env for_two alice none full_start).1.bookings ≡ [])
    × (full_env.redis.get
          (create_booking full_env for_two alice none full_start).1.redis
          0
          (lock_key for_two.bus_id (seat_nos for_two.passengers))
        ≡ none)
unfolding get
create_booking_leaks_example =
    create_booking_leaks full_env for_two alice none full_start the_bus alice bus_id marked
      (duplicate_key none) full-IsBookable refl refl refl
