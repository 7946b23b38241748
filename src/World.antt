-- ===== src/World.antt =====
-- The state that the services share, what they take from outside, and the calls of a model as
-- actions on that state.
use bus_booking_backend.Prelude.{ℕ, String, Bool, Option, none, some, List, [], ◌∷◌, ◌++◌, ◌≡◌}
use bus_booking_backend.Errors.{cast, unknown}
use bus_booking_backend.Store.{ObjectId, Result, ok, err, Stored, Model, Redis}
use bus_booking_backend.Action.{Action, ◌>>◌, or_throw, modify}
use bus_booking_backend.Documents.{Bus, Booking, Payment, User, Grievance, Driver, Seat}
use bus_booking_backend.Events.{DomainEvent, Job}

-- What is not code of the repository: the models, Redis, the cast of a text to an `ObjectId`, the
-- generated parts of a booking, and the settings of src/core/config/env.config.ts that are read.
pub record Env : Type 1 where
  pub buses : Model Bus
  pub bookings : Model Booking
  pub payments : Model Payment
  pub users : Model User
  pub grievances : Model Grievance
  pub drivers : Model Driver
  pub redis : Redis
  -- `new Types.ObjectId(s)`: it throws where this is `none`
  pub cast_id : String → Option ObjectId
  -- the canonical form of an identifier casts to itself
  pub cast_id_idem : (s : String) (i : ObjectId) → cast_id s ≡ some i → cast_id i ≡ some i
  -- `new Date(s)`
  pub parse_date : String → ℕ
  -- the defaults `generateBookingRef` and `generatePNR`, from the clock and a random number, which
  -- may be another one whenever the bookings have changed
  pub booking_ref : (drawn_with : bookings.Coll) → (now : ℕ) → String
  pub pnr_number : (drawn_with : bookings.Coll) → (now : ℕ) → String
  -- MongoDB's `$set` of a field of an array element past the end of the array
  pub set_past_end : List Seat → (index : ℕ) → (Seat → Seat) → List Seat
  -- `env.redis.ttl.seatLock` and `env.redis.ttl.otp`, in seconds
  pub seat_lock_ttl : ℕ
  pub otp_ttl : ℕ

pub record State (env : Env) : Type 0 where
  pub now : ℕ  -- `Date.now()`
  pub buses : env.buses.Coll
  pub bookings : env.bookings.Coll
  pub payments : env.payments.Coll
  pub users : env.users.Coll
  pub grievances : env.grievances.Coll
  pub drivers : env.drivers.Coll
  pub redis : env.redis.Store
  pub events : List DomainEvent
  pub jobs : List Job

-- A collection inside the state.
pub record Table (S D : Type 0) : Type 1 where
  pub model : Model D
  pub get : S → model.Coll
  pub put : S → model.Coll → S

-- The calls of a model. They are `abbrev`, so that a method computes down to the model's fields.
module _ {S D : Type 0} (t : Table S D) where
  abbrev stored : ObjectId → Option D → Option (Stored D)
  stored i none = none
  stored i (some d) = some (record { id = i; doc = d })

  -- `Model.findById(i)`
  abbrev pub load : ObjectId → Action S (Option (Stored D))
  load i s = (ok (stored i (t.model.find_by_id (t.get s) i)), s)

  -- `Model.findOne(filter)`
  abbrev pub load_one : (Stored D → Bool) → Action S (Option (Stored D))
  load_one p s = (ok (t.model.find_one (t.get s) p), s)

  abbrev written : S → Result t.model.Coll → Result (Unit {0}) × S
  written s (ok c) = (ok tt, t.put s c)
  written s (err e) = (err e, s)

  -- `Model.updateOne({ _id: i }, ...)`, and `save()` of a loaded document
  abbrev pub update : ObjectId → (D → D) → Action S (Unit {0})
  update i f s = written s (t.model.update_by_id (t.get s) i f)

  -- `Model.findByIdAndUpdate(i, ..., { new: true })`
  abbrev pub update_and_load : ObjectId → (D → D) → Action S (Option (Stored D))
  update_and_load i f = update i f >> load i

  abbrev created : S → D → Result (ObjectId × t.model.Coll) → Result (Stored D) × S
  created s d (ok (i, c)) = (ok (record { id = i; doc = d }), t.put s c)
  created s d (err e) = (err e, s)

  -- `Model.create(d)`
  abbrev pub insert : D → Action S (Stored D)
  insert d s = created s d (t.model.create (t.get s) d)

module _ (env : Env) where
  -- The cast of an identifier in a query: a text that is none is a `CastError`.
  abbrev pub cast_or_throw : String → Action (State env) ObjectId
  cast_or_throw id = or_throw (env.cast_id id) (cast "_id" id)

  -- `new Types.ObjectId(id)`
  abbrev pub new_object_id : String → Action (State env) ObjectId
  new_object_id id = or_throw (env.cast_id id) (unknown "BSONError")

  abbrev pub buses_of : Table (State env) Bus
  buses_of = record { model = env.buses; get = λ s. s.buses; put = λ s c. record s { buses = c } }

  abbrev pub bookings_of : Table (State env) Booking
  bookings_of = record {
    model = env.bookings;
    get = λ s. s.bookings;
    put = λ s c. record s { bookings = c };
  }

  abbrev pub payments_of : Table (State env) Payment
  payments_of = record {
    model = env.payments;
    get = λ s. s.payments;
    put = λ s c. record s { payments = c };
  }

  abbrev pub users_of : Table (State env) User
  users_of = record { model = env.users; get = λ s. s.users; put = λ s c. record s { users = c } }

  abbrev pub grievances_of : Table (State env) Grievance
  grievances_of = record {
    model = env.grievances;
    get = λ s. s.grievances;
    put = λ s c. record s { grievances = c };
  }

  abbrev pub drivers_of : Table (State env) Driver
  drivers_of = record {
    model = env.drivers;
    get = λ s. s.drivers;
    put = λ s c. record s { drivers = c };
  }

  -- `eventBus.emit(event, payload)`
  abbrev pub emit : DomainEvent → Action (State env) (Unit {0})
  emit e = modify (λ s. record s { events = s.events ++ e ∷ [] })

  -- `queue.add(name, data)`
  abbrev pub add_job : Job → Action (State env) (Unit {0})
  add_job j = modify (λ s. record s { jobs = s.jobs ++ j ∷ [] })
