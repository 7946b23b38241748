-- ===== src/Tests/Buses.antt =====
-- The bus service and its cache at concrete inputs.

use bus_booking_backend.Prelude.{
  ℕ, String, ◌≡◌, ◌∙◌, refl, Bool, true, false, ◌&&◌, none, some, List, [], ◌∷◌, includes, is_some,
  length, arith, codes, eq_iff, map,
}
use bus_booking_backend.Store.{ok, Stored}
use bus_booking_backend.Documents.{Bus, BusStatus, VehicleType}
use bus_booking_backend.World.{State}
use bus_booking_backend.Cache.{Keys, cache_get, cache_set}
use bus_booking_backend.Cache.Laws.{cache_get-cache_set}
use bus_booking_backend.Booking.Create.{to_object_id, is_object_id}
use bus_booking_backend.BusService.{
  BusApi, CreateBusDto, UpdateBusDto, new_bus, set_fields, get_bus, fetch_bus, check_update,
  write_update, update_bus, check_bus, write_bus, create_bus, get_available_seats,
}
use bus_booking_backend.BusService.Fresh.{IsUpdated, update_bus-IsUpdated, get_bus_stale}
use bus_booking_backend.BusService.Made.{create_bus_available}
use bus_booking_backend.Tests.Memory.{lookup, change, create, add, new_id}
use bus_booking_backend.Tests.MemoryRedis.{Entry, get}
use bus_booking_backend.Tests.Sample.{env, start, alice, bus, bus_id}

-- The keys that are still there; a pattern fits every key.
unfoldable live_keys : List Entry → ℕ → List Entry → List String
live_keys s now [] = []
live_keys s now (e ∷ es) =
    let rest = live_keys s now es in
    elim (is_some (get s now e.key)) [ true ↦ e.key ∷ rest | false ↦ rest ]

includes-live_keys :
    (s : List Entry) (now : ℕ) (es : List Entry) (k : String)
    → includes k (live_keys s now es) ≡ (is_some (get s now k) && includes k (map (λ e. e.key) es))
unfolding live_keys
includes-live_keys s now [] k = ground arith
includes-live_keys s now (e ∷ es) k = ground (arith, includes-live_keys s now es k, eq_iff e.key k)

live_named :
    (s : List Entry) (now : ℕ) (k : String)
    → (is_some (get s now k) && includes k (map (λ e. e.key) s)) ≡ is_some (get s now k)
unfolding get
live_named [] now k = refl
live_named (e ∷ s) now k = ground (arith, live_named s now k, eq_iff e.key k)

and_true : (b : Bool) → b ≡ (b && true)
and_true true = refl
and_true false = refl

abbrev keys : Keys env
keys = record {
  keys = λ s now pattern. live_keys s now s;
  glob = λ pattern key. true;
  includes-keys = λ s now pattern key.
      includes-live_keys s now s key ∙ live_named s now key ∙ and_true (is_some (get s now key));
  glob_star = λ key. refl;
  cache_ttl = 3600;
}

abbrev the_bus : Stored Bus
the_bus = record { id = bus_id; doc = bus }

abbrev api : BusApi env
api = record {
  cache = keys;
  bus_json = record { stringify = λ b. "{bus}"; parse = λ t. ok the_bus };
  trim = λ t. t;
}

cache_get-cache_set_example :
    cache_get env api.bus_json "x"
      (record (cache_set env keys api.bus_json "x" the_bus (some 300) start) { now = 299999 })
    ≡ (
      ok (some the_bus),
      record (cache_set env keys api.bus_json "x" the_bus (some 300) start) { now = 299999 },
    )
unfolding cache_set
cache_get-cache_set_example =
    cache_get-cache_set env keys api.bus_json "x" the_bus 300 start
      (record (cache_set env keys api.bus_json "x" the_bus (some 300) start) { now = 299999 })
      (refl, refl) refl (omega arith) (omega arith)

-- A request of a stranger that sets the status, and the fare beside it.
abbrev cheap : UpdateBusDto
cheap = record {
  bus_no = none;
  vehicle_type = none;
  route = none;
  depart_at = none;
  arrive_at = none;
  total_seats = none;
  seats = none;
  base_fare = some 1;
  amenities = none;
  status = some BusStatus.active;
}

abbrev cheap_bus : Stored Bus
cheap_bus = record { id = bus_id; doc = set_fields env api.trim cheap bus }

abbrev after_update : State env
after_update = (update_bus env api bus_id cheap alice start).1

update_bus_run : update_bus env api bus_id cheap alice start ≡ (ok cheap_bus, after_update)
unfolding update_bus check_update write_update lookup change
update_bus_run = refl

update_bus-IsUpdated_example :
    (old : Bus) × IsUpdated env api start bus_id cheap alice cheap_bus after_update old
update_bus-IsUpdated_example =
    update_bus-IsUpdated env api bus_id cheap alice start after_update cheap_bus update_bus_run

abbrev after_get : State env
after_get = (get_bus env api bus_id start).1

get_bus_run : get_bus env api bus_id start ≡ (ok the_bus, after_get)
unfolding get_bus fetch_bus cache_get lookup get
get_bus_run = refl

-- The bus is gone from the database, and still answered.
get_bus_stale_example :
    get_bus env api bus_id (record after_get { buses = []; now = 1000 })
    ≡ (ok the_bus, record after_get { buses = []; now = 1000 })
unfolding get
get_bus_stale_example =
    get_bus_stale env api bus_id start after_get (record after_get { buses = []; now = 1000 })
      the_bus (refl, refl) refl get_bus_run refl (omega arith) (omega arith)

abbrev new_request : CreateBusDto
new_request = record {
  bus_no = "KA-02";
  vehicle_type = VehicleType.sleeper;
  route = record { origin = "A"; destination = "B"; stops = [] };
  depart_at = "1";
  arrive_at = "2";
  total_seats = 2;
  seats = none;
  base_fare = 100;
  amenities = [];
}

abbrev made_bus : Stored Bus
made_bus = record { id = "0a"; doc = new_bus env api.trim new_request alice none }

abbrev after_made : State env
after_made = (create_bus env api new_request alice none start).1

create_bus_run : create_bus env api new_request alice none start ≡ (ok made_bus, after_made)
unfolding create_bus check_bus write_bus to_object_id is_object_id codes create add lookup new_id
create_bus_run = refl

create_bus_available_example :
    (get_available_seats env "0a" after_made ≡ (ok made_bus.doc.seats, after_made))
    × (length made_bus.doc.seats ≡ 2)
create_bus_available_example =
    create_bus_available env api new_request alice none start after_made made_bus create_bus_run
      refl refl
