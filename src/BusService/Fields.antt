-- ===== src/BusService/Fields.antt =====
-- The fields of a bus after an update (src/modules/bus/bus.service.ts).
use mathlib.Core.Option
use bus_booking_backend.Prelude.{◌≡◌, refl, map, get_or_default, Option, none, some}
use bus_booking_backend.Documents.{Bus}
use bus_booking_backend.World.{Env}
use bus_booking_backend.BusService.{BusApi, UpdateBusDto, set_fields}

-- What a field is after a request that may give a value, and what it is stored as.
abbrev pub IsPut : {A B : Type 0} → (A → B) → Option A → (old new : B) → Type 0
IsPut f none old new = new ≡ old
IsPut f (some a) old new = new ≡ f a

map-IsPut :
    {A B : Type 0} (f : A → B) (o : Option A) (old : B)
    → IsPut f o old (get_or_default (Option.map f o) old)
map-IsPut f none old = refl
map-IsPut f (some a) old = refl

get-IsPut : {A : Type 0} (o : Option A) (old : A) → IsPut (λ a. a) o old (get_or_default o old)
get-IsPut none old = refl
get-IsPut (some a) old = refl

module _ (env : Env) (api : BusApi env) where
  -- The fields of a bus after a request: what it gives, in the form that is stored, and otherwise
  -- what was there.
  pub record HasFields (dto : UpdateBusDto) (old new : Bus) : Type 0 where
    pub bus_no : IsPut api.trim dto.bus_no old.bus_no new.bus_no
    pub vehicle_type : IsPut (λ v. v) dto.vehicle_type old.vehicle_type new.vehicle_type
    pub route :
        IsPut
          (λ r. record {
            origin = r.origin;
            destination = r.destination;
            stops =
                map
                  (λ d. record {
                    name = d.name;
                    code = d.code;
                    order = d.order;
                    arrival_time = Option.map env.parse_date d.arrival_time;
                    departure_time = Option.map env.parse_date d.departure_time;
                    fare_from_origin = d.fare_from_origin;
                  })
                  r.stops;
          })
          dto.route
          old.route
          new.route
    pub depart_at : IsPut env.parse_date dto.depart_at old.depart_at new.depart_at
    pub arrive_at : IsPut env.parse_date dto.arrive_at old.arrive_at new.arrive_at
    pub total_seats : IsPut (λ n. n) dto.total_seats old.total_seats new.total_seats
    pub seats :
        IsPut
          (map (λ d. record {
            seat_no = d.seat_no;
            status = d.status;
            fare = d.fare;
            booked_by_user_id = none;
          }))
          dto.seats
          old.seats
          new.seats
    pub base_fare : IsPut (λ n. n) dto.base_fare old.base_fare new.base_fare
    pub amenities : IsPut (λ l. l) dto.amenities old.amenities new.amenities
    pub status : IsPut (λ v. v) dto.status old.status new.status
    pub operator_id : new.operator_id ≡ old.operator_id
    pub tenant_id : new.tenant_id ≡ old.tenant_id

  pub set_fields-HasFields :
      (dto : UpdateBusDto) (old : Bus) → HasFields dto old (set_fields env api.trim dto old)
  set_fields-HasFields dto old = record {
    bus_no = map-IsPut api.trim dto.bus_no old.bus_no;
    vehicle_type = get-IsPut dto.vehicle_type old.vehicle_type;
    route = map-IsPut _ dto.route old.route;
    depart_at = map-IsPut env.parse_date dto.depart_at old.depart_at;
    arrive_at = map-IsPut env.parse_date dto.arrive_at old.arrive_at;
    total_seats = get-IsPut dto.total_seats old.total_seats;
    seats = map-IsPut _ dto.seats old.seats;
    base_fare = get-IsPut dto.base_fare old.base_fare;
    amenities = get-IsPut dto.amenities old.amenities;
    status = get-IsPut dto.status old.status;
    operator_id = refl;
    tenant_id = refl;
  }
