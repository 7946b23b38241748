-- ===== src/BusService/Fresh.antt =====
-- Which bus `getById` and `search` answer with after an update, and while an answer is cached
-- (src/modules/bus/bus.service.ts).
use bus_booking_backend.Prelude.{
  ◌+◌, ◌*◌, ◌≤◌, ◌<◌, String, str_eq, if◌then◌else◌, ◌≡◌, subst, sym, ap, ◌∙◌, true, ◌||◌, Option,
  none, some, [], ◌∷◌, ◌++◌, arith, is_some, some_eq, some_of, ◌<>◌,
}
use bus_booking_backend.Store.{ObjectId, ok, Stored}
use bus_booking_backend.Store.Laws.{update_all, update_self}
use bus_booking_backend.Action.{>>=-eq-ok}
use bus_booking_backend.Documents.{Bus}
use bus_booking_backend.Events.{DomainEvent}
use bus_booking_backend.World.{Env, State}
use bus_booking_backend.Cache.{
  IsJson, cache_key, cache_get, cache_set, cache_del, cache_del_pattern,
}
use bus_booking_backend.Cache.Laws.{cache_get_kept, cache_get_missing, search_gone, key_gone}
use bus_booking_backend.BusService.{
  BusApi, UpdateBusDto, set_fields, fetch_bus, get_bus, check_update, write_update, update_bus,
}
use bus_booking_backend.BusService.Fields.{HasFields, set_fields-HasFields}
use bus_booking_backend.BusService.Search.{
  SearchApi, SearchBusDto, search_key, search_database, search_buses,
}

module _ (env : Env) (api : BusApi env) where
  -- Without a cached answer the database is asked.
  get_bus_missing :
      (id : String) (s : State env)
      → env.redis.get s.redis s.now (cache_key ("bus:" <> id)) ≡ none
      → get_bus env api id s ≡ fetch_bus env api id s
  unfolding get_bus
  get_bus_missing id s h =
      let e = cache_get_missing env api.bus_json ("bus:" <> id) s h in ground arith

  pub search_missing :
      (search : SearchApi env) (request : SearchBusDto) (tenant_id : Option String) (s : State env)
      → env.redis.get s.redis s.now
          (cache_key ("bus:search:" <> search_key env search request tenant_id))
        ≡ none
      → search_buses env search request tenant_id s ≡ search_database env search request tenant_id s
  unfolding search_buses
  search_missing search request tenant_id s h =
      let e =
        cache_get_missing env search.page_json
          ("bus:search:" <> search_key env search request tenant_id) s h in
      ground arith

  check_update_unchanged :
      (id : String) (dto : UpdateBusDto) (u : String) (s : State env)
      → (check_update env api id dto u s).1 ≡ s
  unfolding check_update
  check_update_unchanged id dto u s = ground arith

  record IsAllowed (s : State env) (id : String) (dto : UpdateBusDto) (u : String) (key : ObjectId)
      (old : Bus) : Type 0 where
    pub cast : env.cast_id id ≡ some key
    pub found : env.buses.find_by_id s.buses key ≡ some old
    pub allowed : (str_eq old.operator_id u || is_some dto.status) ≡ true

  check_update-IsAllowed :
      (id : String) (dto : UpdateBusDto) (u : String) (s : State env) (key : ObjectId)
      → (check_update env api id dto u s).0 ≡ ok key
      → (old : Bus) × IsAllowed s id dto u key old
  unfolding check_update
  check_update-IsAllowed id dto u s key h =
      let (old, at) = some_of (env.buses.find_by_id s.buses key) (λ e. ground arith) in
      (old, ground arith)

  -- What the writes of an update leave; the cache has neither the bus nor any search.
  record IsWritten (s : State env) (id : String) (dto : UpdateBusDto) (key : ObjectId)
      (b : Stored Bus) (s' : State env) : Type 0 where
    pub same_id : b.id ≡ key
    pub bus_write : env.buses.update_by_id s.buses key (set_fields env api.trim dto) ≡ ok s'.buses
    pub reread : env.buses.find_by_id s'.buses key ≡ some b.doc
    pub same_now : s'.now ≡ s.now
    pub redis :
        s'.redis
        ≡ (cache_del_pattern env api.cache "bus:search:*" (cache_del env ("bus:" <> id) s)).redis
    pub events : s'.events ≡ s.events ++ DomainEvent.bus_updated id ∷ []
    pub bookings : s'.bookings ≡ s.bookings

  write_update-IsWritten :
      (id : String) (dto : UpdateBusDto) (key : ObjectId) (s s' : State env) (b : Stored Bus)
      → write_update env api id dto key s ≡ (ok b, s')
      → IsWritten s id dto key b s'
  unfolding write_update cache_del cache_del_pattern
  write_update-IsWritten id dto key s s' b h = ground arith

  -- A bus was updated.
  pub record IsUpdated (s : State env) (id : String) (dto : UpdateBusDto) (u : String)
      (b : Stored Bus) (s' : State env) (old : Bus) : Type 0 where
    pub cast : env.cast_id id ≡ some b.id
    pub found : env.buses.find_by_id s.buses b.id ≡ some old
    pub allowed : (str_eq old.operator_id u || is_some dto.status) ≡ true
    pub fields : HasFields env api dto old b.doc
    pub buses :
        (j : ObjectId)
        → env.buses.find_by_id s'.buses j
          ≡ (if str_eq b.id j then some b.doc else env.buses.find_by_id s.buses j)
    pub events : s'.events ≡ s.events ++ DomainEvent.bus_updated id ∷ []
    pub bookings : s'.bookings ≡ s.bookings
    pub asked : get_bus env api id s' ≡ fetch_bus env api id s'
    pub searched :
        (search : SearchApi env) (request : SearchBusDto) (tenant_id : Option String)
        → search_buses env search request tenant_id s'
          ≡ search_database env search request tenant_id s'

  updated :
      (id : String) (dto : UpdateBusDto) (u : String) (s s' : State env) (b : Stored Bus)
      (key : ObjectId) (old : Bus)
      → IsAllowed s id dto u key old
      → IsWritten s id dto key b s'
      → IsUpdated s id dto u b s' old
  unfolding cache_del
  updated id dto u s s' b key old k w =
      let doc : b.doc ≡ set_fields env api.trim dto old = some_eq (
        sym w.reread
        ∙ update_self env.buses s.buses s'.buses key (set_fields env api.trim dto) old w.bus_write
            k.found) in
      record {
        cast = rw w.same_id k.cast;
        found = rw w.same_id k.found;
        allowed = k.allowed;
        fields = subst (HasFields env api dto old) (sym doc) (set_fields-HasFields env api dto old);
        buses = λ j.
            rw (w.same_id, doc)
              (update_all env.buses s.buses s'.buses key (set_fields env api.trim dto) old
                w.bus_write k.found j);
        events = w.events;
        bookings = w.bookings;
        asked =
            get_bus_missing id s'
              (rw (w.redis, w.same_now) (key_gone env api.cache s ("bus:" <> id)));
        searched = λ search request tenant_id. search_missing search request tenant_id s' (
            rw (w.redis, w.same_now)
              (search_gone env api.cache (cache_del env ("bus:" <> id) s)
                (search_key env search request tenant_id)));
      }

  -- A bus that `update` returns has each field that the request gives, with dates parsed and the
  -- number trimmed, and its other fields as before; either it is the operator's own, or the request sets a status. No other bus has
  -- changed, and `getById` with the same text and every `search` ask the database again.
  pub update_bus-IsUpdated :
      (id : String) (dto : UpdateBusDto) (u : String) (s s' : State env) (b : Stored Bus)
      → update_bus env api id dto u s ≡ (ok b, s')
      → (old : Bus) × IsUpdated s id dto u b s' old
  unfolding update_bus
  update_bus-IsUpdated id dto u s s' b h =
      let (key, t, e, h') =
        >>=-eq-ok (check_update env api id dto u) (write_update env api id dto) s s' b h in
      let same : t ≡ s = sym (ap (λ r. r.1) e) ∙ check_update_unchanged id dto u s in
      let (old, k) = check_update-IsAllowed id dto u s key (ap (λ r. r.0) e) in
      (
        old,
        updated id dto u s s' b key old k
            (write_update-IsWritten id dto key s s' b (rw same at h')),
      )

  fetch_bus_caches :
      (id : String) (s s' : State env) (b : Stored Bus)
      → fetch_bus env api id s ≡ (ok b, s')
      → (s'.redis ≡ (cache_set env api.cache api.bus_json ("bus:" <> id) b (some 300) s).redis)
        × (s'.now ≡ s.now)
  unfolding fetch_bus cache_set
  fetch_bus_caches id s s' b h = (ground arith, ground arith)

  -- Once `getById` has read a bus from the database, it answers with that bus for 300 seconds,
  -- whatever has become of the bus and its seats in the database, if Redis still has the answer and
  -- JSON gives the bus back.
  pub get_bus_stale :
      (id : String) (s s' t : State env) (b : Stored Bus)
      → IsJson api.bus_json b
      → env.redis.get s.redis s.now (cache_key ("bus:" <> id)) ≡ none
      → get_bus env api id s ≡ (ok b, s')
      → env.redis.get t.redis t.now (cache_key ("bus:" <> id))
        ≡ env.redis.get s'.redis t.now (cache_key ("bus:" <> id))
      → s.now ≤ t.now
      → t.now < s.now + 300 * 1000
      → get_bus env api id t ≡ (ok b, t)
  unfolding get_bus
  get_bus_stale id s s' t b json missing h kept after before =
      let (redis, now) = fetch_bus_caches id s s' b (sym (get_bus_missing id s missing) ∙ h) in
      let key = "bus:" <> id in
      let answer : cache_get env api.bus_json key t ≡ (ok (some b), t) =
        cache_get_kept env api.cache api.bus_json key b 300 s t json (rw redis at kept) after
          before in
      ground arith
