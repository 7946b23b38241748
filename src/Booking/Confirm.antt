-- ===== src/Booking/Confirm.antt =====
-- `confirmBooking` of src/modules/booking/booking.service.ts.
pub mod Outcome
pub mod Frame
use bus_booking_backend.Prelude.{String, not, Option, none, some, ◌<>◌}
use bus_booking_backend.Errors.{bad_request, not_found}
use bus_booking_backend.Store.{ObjectId, Stored}
use bus_booking_backend.Action.{Action, pure, throw_if, or_throw, modify, ◌>>=◌, ◌>>◌}
use bus_booking_backend.Documents.{Bus, Booking, BookingStatus, seat_nos, is_pending, status_text}
use bus_booking_backend.Events.{DomainEvent, EmailType, Job}
use bus_booking_backend.World.{
  Env, State, load, update, update_and_load, cast_or_throw, new_object_id, buses_of, bookings_of,
  emit, add_job,
}
use bus_booking_backend.Locks.{unlock_seats}
use bus_booking_backend.Booking.Seats.{indices_of, set_all, mark_booked}

abbrev pub set_confirmed : ObjectId → Booking → Booking
set_confirmed payment_id b = record b {
  status = BookingStatus.confirmed;
  payment_id = some payment_id;
}

module _ (env : Env) where
  -- The seats of the booking, by their indices in the bus that was read; an index of -1 is skipped.
  abbrev pub book_marks : Booking → (seen : Bus) → Bus → Bus
  book_marks booking seen bus = record bus {
    seats =
        set_all env.set_past_end (indices_of (seat_nos booking.passengers) seen.seats) mark_booked
          bus.seats;
  }

  -- What is read first: the booking, which has to be pending, and its bus.
  unfoldable pub check_confirm : String → Action (State env) (Stored Booking × Bus)
  check_confirm booking_id = do
    key ← cast_or_throw env booking_id
    found ← load (bookings_of env) key
    booking ← or_throw found (not_found "Booking")
    throw_if (not (is_pending booking.doc.status)) (
        bad_request ("Cannot confirm booking with status: " <> status_text booking.doc.status) none)
    found_bus ← load (buses_of env) booking.doc.bus_id
    bus ← or_throw found_bus (not_found "Bus")
    pure (booking, bus.doc)

  -- The two updates.
  unfoldable pub write_confirm : String → Stored Booking × Bus → Action (State env) (Stored Booking)
  write_confirm payment_id (booking, bus) = do
    update (buses_of env) booking.doc.bus_id (book_marks booking.doc bus)
    payment ← new_object_id env payment_id
    updated ← update_and_load (bookings_of env) booking.id (set_confirmed payment)
    or_throw updated (not_found "Booking")

  -- The lock is removed, and the confirmation is announced.
  unfoldable pub announce_confirm :
      String → String → Stored Booking → Action (State env) (Stored Booking)
  announce_confirm booking_id payment_id booking = do
    modify (unlock_seats env booking.doc.bus_id (seat_nos booking.doc.passengers))
    emit env (DomainEvent.booking_confirmed booking_id booking.doc.user_id payment_id)
    add_job env (
        Job.email (record {
          kind = EmailType.booking_confirmed;
          user_id = booking.doc.user_id;
          booking_id = some booking_id;
          booking_ref = none;
          payment_id = none;
          amount = none;
        }))
    pure booking

  unfoldable pub confirm_booking : String → String → Action (State env) (Stored Booking)
  confirm_booking booking_id payment_id = do
    checked ← check_confirm booking_id
    booking ← write_confirm payment_id checked
    announce_confirm booking_id payment_id booking
