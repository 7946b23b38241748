-- ===== src/BusService/Made.antt =====
-- What `create` has done when it returns, and the seats of a new bus
-- (src/modules/bus/bus.service.ts).
use bus_booking_backend.Prelude.{
  ℕ, zero, suc, ◌+◌, ◌<◌, String, str_eq, str_eq_refl, if◌then◌else◌, ◌≡◌, refl, sym, ap, ◌∙◌,
  Option, none, some, [], ◌∷◌, ◌++◌, arith, length, filter,
}
use bus_booking_backend.Store.{ObjectId, ok, Stored}
use bus_booking_backend.Action.{>>=-eq-ok}
use bus_booking_backend.Documents.{Bus, BusStatus, is_available}
use bus_booking_backend.Events.{DomainEvent}
use bus_booking_backend.World.{Env, State}
use bus_booking_backend.Cache.{cache_del_pattern}
use bus_booking_backend.Cache.Laws.{search_gone}
use bus_booking_backend.Booking.Create.{to_object_id}
use bus_booking_backend.BusService.{
  BusApi, CreateBusDto, new_bus, default_seats, seats_or_default, check_bus, write_bus, create_bus,
  get_available_seats,
}
use bus_booking_backend.BusService.Search.{
  SearchApi, SearchBusDto, search_key, search_database, search_buses,
}
use bus_booking_backend.BusService.Fresh.{search_missing}

length-default_seats : (i n fare : ℕ) → length (default_seats i n fare) ≡ n
unfolding default_seats
length-default_seats i zero fare = refl
length-default_seats i (suc n) fare = ap suc (length-default_seats (i + 1) n fare)

-- All default seats are available.
filter-default_seats :
    (i n fare : ℕ)
    → filter (λ s. is_available s.status) (default_seats i n fare) ≡ default_seats i n fare
unfolding default_seats
filter-default_seats i zero fare = refl
filter-default_seats i (suc n) fare = ground (arith, filter-default_seats (i + 1) n fare)

module _ (env : Env) where
  module _ (api : BusApi env) where
    check_bus_unchanged :
        (dto : CreateBusDto) (u : String) (s : State env) → (check_bus env api dto u s).1 ≡ s
    unfolding check_bus
    check_bus_unchanged dto u s = ground arith

    check_bus_checks :
        (dto : CreateBusDto) (u : String) (s : State env) (operator : ObjectId)
        → (check_bus env api dto u s).0 ≡ ok operator
        → (env.parse_date dto.depart_at < env.parse_date dto.arrive_at)
          × (to_object_id env.cast_id (some u) ≡ some operator)
    unfolding check_bus
    check_bus_checks dto u s operator h = (ground arith, ground arith)

    record IsWritten (s : State env) (dto : CreateBusDto) (ten : Option String)
        (operator : ObjectId) (b : Stored Bus) (s' : State env) : Type 0 where
      pub doc : b.doc ≡ new_bus env api.trim dto operator (to_object_id env.cast_id ten)
      pub bus_write : env.buses.create s.buses b.doc ≡ ok (b.id, s'.buses)
      pub same_now : s'.now ≡ s.now
      pub redis : s'.redis ≡ (cache_del_pattern env api.cache "bus:search:*" s).redis
      pub events : s'.events ≡ s.events ++ DomainEvent.bus_created b.id ten ∷ []

    write_bus-IsWritten :
        (dto : CreateBusDto) (ten : Option String) (operator : ObjectId) (s s' : State env)
        (b : Stored Bus)
        → write_bus env api dto ten operator s ≡ (ok b, s')
        → IsWritten s dto ten operator b s'
    unfolding write_bus cache_del_pattern
    write_bus-IsWritten dto ten operator s s' b h = ground arith

    -- A bus was made.
    pub record IsMade (s : State env) (dto : CreateBusDto) (u : String) (ten : Option String)
        (b : Stored Bus) (s' : State env) : Type 0 where
      pub departs : env.parse_date dto.depart_at < env.parse_date dto.arrive_at
      pub operator : to_object_id env.cast_id (some u) ≡ some b.doc.operator_id
      pub active : b.doc.status ≡ BusStatus.active
      pub seats : b.doc.seats ≡ seats_or_default dto.seats dto.total_seats dto.base_fare
      pub fresh : env.buses.find_by_id s.buses b.id ≡ none
      pub buses :
          (j : ObjectId)
          → env.buses.find_by_id s'.buses j
            ≡ (if str_eq b.id j then some b.doc else env.buses.find_by_id s.buses j)
      pub events : s'.events ≡ s.events ++ DomainEvent.bus_created b.id ten ∷ []
      pub searched :
          (search : SearchApi env) (request : SearchBusDto) (tenant_id : Option String)
          → search_buses env search request tenant_id s'
            ≡ search_database env search request tenant_id s'

    made :
        (dto : CreateBusDto) (u : String) (ten : Option String) (s s' : State env) (b : Stored Bus)
        (operator : ObjectId)
        → env.parse_date dto.depart_at < env.parse_date dto.arrive_at
        → to_object_id env.cast_id (some u) ≡ some operator
        → IsWritten s dto ten operator b s'
        → IsMade s dto u ten b s'
    made dto u ten s s' b operator departs cast w = record {
      departs = departs;
      operator = rw w.doc cast;
      active = rw w.doc refl;
      seats = ap (λ d. d.seats) w.doc;
      fresh = env.buses.create_fresh s.buses s'.buses b.doc b.id w.bus_write;
      buses = λ j. env.buses.find_by_id-create s.buses s'.buses b.doc b.id j w.bus_write;
      events = w.events;
      searched = λ search request tenant_id. search_missing env api search request tenant_id s' (
          rw (w.redis, w.same_now)
            (search_gone env api.cache s (search_key env search request tenant_id)));
    }

    -- A bus that `create` returns departs before it arrives, belongs to the operator, is active,
    -- and is stored under a new identifier beside the other buses, with the seats of the request or
    -- else the default ones; it is announced, and every `search` asks the database again.
    pub create_bus-IsMade :
        (dto : CreateBusDto) (u : String) (ten : Option String) (s s' : State env) (b : Stored Bus)
        → create_bus env api dto u ten s ≡ (ok b, s')
        → IsMade s dto u ten b s'
    unfolding create_bus
    create_bus-IsMade dto u ten s s' b h =
        let (operator, t, e, h') =
          >>=-eq-ok (check_bus env api dto u) (write_bus env api dto ten) s s' b h in
        let same : t ≡ s = sym (ap (λ r. r.1) e) ∙ check_bus_unchanged dto u s in
        let (departs, cast) = check_bus_checks dto u s operator (ap (λ r. r.0) e) in
        made dto u ten s s' b operator departs cast
          (write_bus-IsWritten dto ten operator s s' b (rw same at h'))

  available_of :
      (s : State env) (b : Stored Bus)
      → env.cast_id b.id ≡ some b.id
      → env.buses.find_by_id s.buses b.id ≡ some b.doc
      → get_available_seats env b.id s ≡ (ok (filter (λ x. is_available x.status) b.doc.seats), s)
  unfolding get_available_seats
  available_of s b cast found = ground arith

  -- A bus that `create` returns for a request without seats has as many seats as the request says,
  -- and `getAvailableSeats` answers with all of them, if the new identifier casts to itself.
  pub create_bus_available :
      (api : BusApi env) (dto : CreateBusDto) (u : String) (ten : Option String) (s s' : State env)
      (b : Stored Bus)
      → create_bus env api dto u ten s ≡ (ok b, s')
      → dto.seats ≡ none
      → env.cast_id b.id ≡ some b.id
      → (get_available_seats env b.id s' ≡ (ok b.doc.seats, s'))
        × (length b.doc.seats ≡ dto.total_seats)
  create_bus_available api dto u ten s s' b h no_seats cast =
      let k = create_bus-IsMade api dto u ten s s' b h in
      let seats : b.doc.seats ≡ default_seats 0 dto.total_seats dto.base_fare =
        k.seats ∙ ap (λ o. seats_or_default o dto.total_seats dto.base_fare) no_seats in
      let at : env.buses.find_by_id s'.buses b.id ≡ some b.doc =
        rw (k.buses b.id, str_eq_refl b.id) refl in
      (
        available_of s' b cast at
            ∙ ap (λ l. (ok l, s'))
                (ap (filter (λ x. is_available x.status)) seats
                  ∙ filter-default_seats 0 dto.total_seats dto.base_fare
                  ∙ sym seats),
        ap length seats ∙ length-default_seats 0 dto.total_seats dto.base_fare,
      )
