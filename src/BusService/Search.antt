-- ===== src/BusService/Search.antt =====
-- `search` of src/modules/bus/bus.service.ts, and `searchBusSchema` of bus.validation.ts.
use bus_booking_backend.Prelude.{
  ℕ, String, Bool, true, false, ◌&&◌, Option, none, some, leb, str_eq, ◌<>◌, get_or_default,
  if◌then◌else◌,
}
use bus_booking_backend.Store.{ObjectId, Result, Stored}
use bus_booking_backend.Action.{Action, pure, modify, lift, ◌>>=◌, ◌>>◌}
use bus_booking_backend.Documents.{Bus, VehicleType, is_active_bus}
use bus_booking_backend.World.{Env, State, cast_or_throw, buses_of}
use bus_booking_backend.Pages.{Page, paginate}
use bus_booking_backend.Cache.{Json, Keys, cache_get, cache_set}

-- `searchBusSchema`
pub record SearchBusDto : Type 0 where
  pub origin : String  -- `from`
  pub destination : String  -- `to`
  pub date : String
  pub vehicle_type : Option VehicleType
  pub page : ℕ
  pub limit : ℕ

abbrev vehicle_text : VehicleType → String
vehicle_text VehicleType.seater = "seater"
vehicle_text VehicleType.sleeper = "sleeper"
vehicle_text VehicleType.ac_seater = "ac_seater"
vehicle_text VehicleType.ac_sleeper = "ac_sleeper"
vehicle_text VehicleType.luxury = "luxury"

-- `dto.vehicleType ? { vehicleType } : {}`
abbrev has_vehicle : Option VehicleType → Bus → Bool
has_vehicle none b = true
has_vehicle (some v) b = str_eq (vehicle_text b.vehicle_type) (vehicle_text v)

abbrev has_bus_tenant : Option ObjectId → Option ObjectId → Bool
has_bus_tenant none b = true
has_bus_tenant (some t) none = false
has_bus_tenant (some t) (some u) = str_eq u t

-- The filter of the query, with the two regular expressions and the ends of the day.
abbrev pub is_searched :
    (from_regex to_regex : String → Bool)
    → (start_of_day end_of_day : ℕ) → Option VehicleType
    → Option ObjectId
    → Stored Bus
    → Bool
is_searched from_regex to_regex start_of_day end_of_day vehicle tenant b =
    from_regex b.doc.route.origin
    && to_regex b.doc.route.destination
    && leb start_of_day b.doc.depart_at
    && leb b.doc.depart_at end_of_day
    && is_active_bus b.doc.status
    && has_vehicle vehicle b.doc
    && has_bus_tenant tenant b.doc.tenant_id

module _ (env : Env) where
  -- What the search takes from outside beside the environment: the commands of the cache, JSON on
  -- its request and its answer, `new RegExp(pattern, 'i')` with its method `test`, and
  -- `setHours(23, 59, 59, 999)`.
  pub record SearchApi : Type 0 where
    pub cache : Keys env
    pub dto_text : SearchBusDto → String
    pub page_json : Json (Page Bus)
    pub new_regex : String → Result (String → Bool)
    pub end_of_day : ℕ → ℕ

  module _ (api : SearchApi) where
    -- `bus:search:${JSON.stringify(dto)}:${tenantId ?? 'global'}`, without its first part
    abbrev pub search_key : SearchBusDto → Option String → String
    search_key dto tenant_id = api.dto_text dto <> (":" <> get_or_default tenant_id "global")

    -- `tenantId ? { tenantId } : {}`, cast by the schema
    abbrev cast_tenant : Option String → Action (State env) (Option ObjectId)
    cast_tenant none = pure none
    cast_tenant (some t) =
        if str_eq t "" then pure none else (cast_or_throw env t >>= λ i. pure (some i))

    -- The page from the database, which is then cached for `BUS_CACHE_TTL` seconds.
    unfoldable pub search_database : SearchBusDto → Option String → Action (State env) (Page Bus)
    search_database dto tenant_id = do
      from_regex ← lift (api.new_regex dto.origin)
      to_regex ← lift (api.new_regex dto.destination)
      let day = env.parse_date dto.date
      tenant ← cast_tenant tenant_id
      result ←
          paginate (buses_of env)
            (is_searched from_regex to_regex day (api.end_of_day day) dto.vehicle_type tenant)
            dto.page dto.limit
      modify (
          cache_set env api.cache api.page_json ("bus:search:" <> search_key dto tenant_id) result
            (some 300))
      pure result

    unfoldable pub search_buses : SearchBusDto → Option String → Action (State env) (Page Bus)
    search_buses dto tenant_id = do
      cached ← cache_get env api.page_json ("bus:search:" <> search_key dto tenant_id)
      elim cached [ some page ↦ pure page | none ↦ search_database dto tenant_id ]
