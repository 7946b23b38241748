-- ===== src/Booking/Create.antt =====
-- `createBooking` of src/modules/booking/booking.service.ts, in the two parts between which other
-- requests can run: the checks on what was read, and the lock with the writes.
pub mod Outcome
pub mod Created
pub mod Succeeds
pub mod Race
pub mod Leaks
pub mod Disjoint
use bus_booking_backend.Prelude.{
  ℕ, String, Bool, true, false, not, Option, none, some, List, [], ◌∷◌, length, all, ◌==◌, leb,
  str_eq, ◌<>◌, codes, join, sort_texts, ◌&&◌, ◌||◌, if◌then◌else◌,
}
use bus_booking_backend.Errors.{bad_request, not_found, conflict}
use bus_booking_backend.Store.{ObjectId, Stored}
use bus_booking_backend.Action.{
  Action, pure, throw_if, or_throw, modify, gets, lift, on_error, ◌>>=◌, ◌>>◌,
}
use bus_booking_backend.Documents.{
  Bus, Seat, Booking, BookingStatus, Passenger, seat_nos, is_active_bus,
}
use bus_booking_backend.Events.{DomainEvent, EmailType, Job}
use bus_booking_backend.World.{
  Env, State, load, update, insert, cast_or_throw, buses_of, bookings_of, emit, add_job,
}
use bus_booking_backend.Locks.{lock_seats, unlock_seats}
use bus_booking_backend.Booking.Seats.{dedupe, scan_seats, indices_of, set_all, mark_locked}

-- `CreateBookingDto`
pub record CreateBookingDto : Type 0 where
  pub bus_id : String
  pub travel_date : String
  pub origin : String  -- `from`
  pub destination : String  -- `to`
  pub passengers : List Passenger

abbrev is_hex : ℕ → Bool
is_hex c = leb b'0' c && leb c b'9' || leb b'a' c && leb c b'f' || leb b'A' c && leb c b'F'

-- `/^[0-9a-fA-F]{24}$/.test(value)`
unfoldable pub is_object_id : String → Bool
unfolding codes
is_object_id value = length (codes value) == 24 && all is_hex (codes value)

-- `toObjectId`
unfoldable pub to_object_id : (String → Option ObjectId) → Option String → Option ObjectId
unfolding is_object_id
to_object_id cast_id none = none
to_object_id cast_id (some value) = if is_object_id value then cast_id value else none

abbrev both_ids : Option ObjectId → Option ObjectId → Option (ObjectId × ObjectId)
both_ids (some a) (some b) = some (a, b)
both_ids _ _ = none

abbrev is_empty : List String → Bool
is_empty [] = true
is_empty (_ ∷ _) = false

-- What the checks have established, and what they read.
pub record Checked : Type 0 where
  pub bus : Stored Bus
  pub user_id : ObjectId
  pub bus_id : ObjectId
  pub seats : List String
  pub total_fare : ℕ

module _ (env : Env) where
  -- The checks, up to the lock.
  unfoldable pub check_request : CreateBookingDto → String → Action (State env) Checked
  check_request dto user_id = do
    key ← cast_or_throw env dto.bus_id
    found ← load (buses_of env) key
    bus ← or_throw found (not_found "Bus")
    throw_if (not (is_active_bus bus.doc.status))
        (bad_request "Bus is not available for booking" none)
    ids ←
        or_throw
          (both_ids (to_object_id env.cast_id (some user_id))
            (to_object_id env.cast_id (some dto.bus_id)))
          (bad_request "Invalid booking identifiers" none)
    let requested = seat_nos dto.passengers
    let unique = dedupe requested
    throw_if (not (length unique == length requested))
        (bad_request "Duplicate seat numbers in request" none)
    scanned ← lift (scan_seats bus.doc.seats unique [] 0)
    throw_if (not (is_empty scanned.0)) (conflict ("Seats unavailable: " <> join ", " scanned.0))
    pure (record {
      bus = bus;
      user_id = ids.0;
      bus_id = ids.1;
      seats = unique;
      total_fare = scanned.1;
    })

  -- The document that `Booking.create` is given, with the defaults of the schema.
  unfoldable pub new_booking :
      CreateBookingDto → Checked → Option ObjectId → env.bookings.Coll → (now : ℕ) → Booking
  new_booking dto c tenant_id drawn_with now = record {
    booking_ref = env.booking_ref drawn_with now;
    user_id = c.user_id;
    bus_id = c.bus_id;
    tenant_id = tenant_id;
    booking_at = now;
    travel_date = env.parse_date dto.travel_date;
    origin = dto.origin;
    destination = dto.destination;
    passengers = dto.passengers;
    total_fare = c.total_fare;
    payment_id = none;
    status = BookingStatus.pending;
    cancellation_reason = none;
    cancelled_at = none;
    cancelled_by = none;
    refund_amount = none;
    pnr_number = env.pnr_number drawn_with now;
    ticket_url = none;
  }

  abbrev pub lock_marks : Checked → Bus → Bus
  lock_marks c bus = record bus {
    seats =
        set_all env.set_past_end (indices_of (sort_texts c.seats) c.bus.doc.seats)
          (mark_locked c.user_id) bus.seats;
  }

  -- The body of the `try`: the seats are marked, and the booking is created.
  unfoldable pub save_booking :
      CreateBookingDto → Checked → Option String → Action (State env) (Stored Booking)
  save_booking dto c tenant_id = do
    update (buses_of env) c.bus_id (lock_marks c)
    now ← gets (λ s. s.now)
    drawn_with ← gets (λ s. s.bookings)
    insert (bookings_of env) (new_booking dto c (to_object_id env.cast_id tenant_id) drawn_with now)

  -- The lock, the writes, the event and the email.
  unfoldable pub reserve :
      CreateBookingDto → String → Option String → Checked → Action (State env) (Stored Booking)
  reserve dto user_id tenant_id c = do
    locked ← lock_seats env dto.bus_id c.seats user_id
    throw_if (not locked) (conflict "Seats are being booked by another user. Please try again.")
    booking ← on_error (save_booking dto c tenant_id) (unlock_seats env dto.bus_id c.seats)
    emit env (DomainEvent.booking_created booking.id user_id dto.bus_id c.total_fare tenant_id)
    add_job env (
        Job.email (record {
          kind = EmailType.booking_created;
          user_id = user_id;
          booking_id = some booking.id;
          booking_ref = some booking.doc.booking_ref;
          payment_id = none;
          amount = some c.total_fare;
        }))
    pure booking

  unfoldable pub create_booking :
      CreateBookingDto → String → Option String → Action (State env) (Stored Booking)
  create_booking dto user_id tenant_id = do
    c ← check_request dto user_id
    reserve dto user_id tenant_id c
