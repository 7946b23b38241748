-- ===== src/BusService.antt =====
-- src/modules/bus/bus.service.ts: create, update, remove, getById and getAvailableSeats, and the
-- schemas of src/modules/bus/bus.validation.ts; `search` is in `Search`. The fields of the operator
-- that `populate` adds to an answer are left out.
pub mod Search
pub mod Fields
pub mod Fresh
pub mod Made
mod Schemas
unfoldable pub use Schemas.*
use bus_booking_backend.Prelude.{
  ℕ, zero, suc, ◌+◌, String, Bool, true, false, not, ◌&&◌, ◌||◌, Option, none, some, List, [], ◌∷◌,
  map, filter, length, leb, ltb, str_eq, ◌<>◌, codes, decimal, get_or_default, is_some,
  if◌then◌else◌,
}
use mathlib.Core.Option
use bus_booking_backend.Errors.{bad_request, not_found}
use bus_booking_backend.Store.{ObjectId, Stored}
use bus_booking_backend.Action.{Action, pure, throw_if, or_throw, modify, ◌>>=◌, ◌>>◌}
use bus_booking_backend.Documents.{
  Bus, Seat, SeatStatus, Stop, Route, VehicleType, BusStatus, is_available,
}
use bus_booking_backend.Events.{DomainEvent}
use bus_booking_backend.World.{
  Env, State, load, update, update_and_load, insert, cast_or_throw, buses_of, emit,
}
use bus_booking_backend.Cache.{Json, Keys, cache_get, cache_set, cache_del, cache_del_pattern}
use bus_booking_backend.Booking.Create.{to_object_id}

module _ (env : Env) where
  abbrev to_stop : StopDto → Stop
  to_stop d = record {
    name = d.name;
    code = d.code;
    order = d.order;
    arrival_time = Option.map env.parse_date d.arrival_time;
    departure_time = Option.map env.parse_date d.departure_time;
    fare_from_origin = d.fare_from_origin;
  }

  abbrev to_route : RouteDto → Route
  to_route d = record {
    origin = d.origin;
    destination = d.destination;
    stops = map to_stop d.stops;
  }

  -- The document that `Bus.create` is given, with the default status of the schema.
  abbrev pub new_bus :
      (String → String) → CreateBusDto → (operator : ObjectId) → Option ObjectId → Bus
  new_bus trim dto operator tenant_id = record {
    bus_no = trim dto.bus_no;
    operator_id = operator;
    tenant_id = tenant_id;
    vehicle_type = dto.vehicle_type;
    route = to_route dto.route;
    depart_at = env.parse_date dto.depart_at;
    arrive_at = env.parse_date dto.arrive_at;
    total_seats = dto.total_seats;
    seats = seats_or_default dto.seats dto.total_seats dto.base_fare;
    base_fare = dto.base_fare;
    amenities = dto.amenities;
    status = BusStatus.active;
  }

  -- `{ $set: dto }`: the fields that are given
  abbrev pub set_fields : (String → String) → UpdateBusDto → Bus → Bus
  set_fields trim dto b = record b {
    bus_no = get_or_default (Option.map trim dto.bus_no) b.bus_no;
    vehicle_type = get_or_default dto.vehicle_type b.vehicle_type;
    route = get_or_default (Option.map to_route dto.route) b.route;
    depart_at = get_or_default (Option.map env.parse_date dto.depart_at) b.depart_at;
    arrive_at = get_or_default (Option.map env.parse_date dto.arrive_at) b.arrive_at;
    total_seats = get_or_default dto.total_seats b.total_seats;
    seats = get_or_default (Option.map (map to_seat) dto.seats) b.seats;
    base_fare = get_or_default dto.base_fare b.base_fare;
    amenities = get_or_default dto.amenities b.amenities;
    status = get_or_default dto.status b.status;
  }

  -- What the service takes from outside beside the environment: the commands of the cache, JSON on
  -- buses, and the setting `trim` of a schema's text.
  pub record BusApi : Type 0 where
    pub cache : Keys env
    pub bus_json : Json (Stored Bus)
    pub trim : String → String

  module _ (api : BusApi) where
    -- The bus from the database, which is then cached for `BUS_CACHE_TTL` seconds.
    unfoldable pub fetch_bus : String → Action (State env) (Stored Bus)
    fetch_bus id = do
      key ← cast_or_throw env id
      found ← load (buses_of env) key
      bus ← or_throw found (not_found "Bus")
      modify (cache_set env api.cache api.bus_json ("bus:" <> id) bus (some 300))
      pure bus

    -- `getById`
    unfoldable pub get_bus : String → Action (State env) (Stored Bus)
    get_bus id = do
      cached ← cache_get env api.bus_json ("bus:" <> id)
      elim cached [ some bus ↦ pure bus | none ↦ fetch_bus id ]

    -- The checks of `create`, which give the operator's identifier.
    unfoldable pub check_bus : CreateBusDto → String → Action (State env) ObjectId
    check_bus dto operator_id = do
      throw_if (leb (env.parse_date dto.arrive_at) (env.parse_date dto.depart_at))
          (bad_request "departAt must be before arriveAt" none)
      or_throw (to_object_id env.cast_id (some operator_id))
          (bad_request "Invalid operator id" none)

    -- The document, the cache and the event.
    unfoldable pub write_bus :
        CreateBusDto → Option String → ObjectId → Action (State env) (Stored Bus)
    write_bus dto tenant_id operator = do
      bus ←
          insert (buses_of env) (new_bus api.trim dto operator (to_object_id env.cast_id tenant_id))
      modify (cache_del_pattern env api.cache "bus:search:*")
      emit env (DomainEvent.bus_created bus.id tenant_id)
      pure bus

    unfoldable pub create_bus :
        CreateBusDto → String → Option String → Action (State env) (Stored Bus)
    create_bus dto operator_id tenant_id = do
      operator ← check_bus dto operator_id
      write_bus dto tenant_id operator

    -- The checks of `update`: the operator's own bus, or a request that sets a status.
    unfoldable pub check_update : String → UpdateBusDto → String → Action (State env) ObjectId
    check_update id dto operator_id = do
      key ← cast_or_throw env id
      found ← load (buses_of env) key
      bus ← or_throw found (not_found "Bus")
      throw_if (not (str_eq bus.doc.operator_id operator_id) && not (is_some dto.status))
          (bad_request "Not authorized to update this bus" none)
      pure key

    unfoldable pub write_update : String → UpdateBusDto → ObjectId → Action (State env) (Stored Bus)
    write_update id dto key = do
      found ← update_and_load (buses_of env) key (set_fields api.trim dto)
      updated ← or_throw found (not_found "Bus")
      modify (cache_del env ("bus:" <> id))
      modify (cache_del_pattern env api.cache "bus:search:*")
      emit env (DomainEvent.bus_updated id)
      pure updated

    unfoldable pub update_bus : String → UpdateBusDto → String → Action (State env) (Stored Bus)
    update_bus id dto operator_id = do
      key ← check_update id dto operator_id
      write_update id dto key

    -- `remove`
    unfoldable pub remove_bus : String → Action (State env) (Unit {0})
    remove_bus id = do
      key ← cast_or_throw env id
      found ← load (buses_of env) key
      _ ← or_throw found (not_found "Bus")
      modify (λ s. record s { buses = env.buses.delete_by_id s.buses key })
      modify (cache_del env ("bus:" <> id))
      modify (cache_del_pattern env api.cache "bus:search:*")

  unfoldable pub get_available_seats : String → Action (State env) (List Seat)
  get_available_seats bus_id = do
    key ← cast_or_throw env bus_id
    found ← load (buses_of env) key
    bus ← or_throw found (not_found "Bus")
    pure (filter (λ s. is_available s.status) bus.doc.seats)
