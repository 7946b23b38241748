-- ===== src/Booking/Cancel.antt =====
-- `cancelBooking` of src/modules/booking/booking.service.ts.
pub mod Outcome
pub mod Seats
pub mod Freed
use bus_booking_backend.Prelude.{
  ℕ, zero, suc, ◌++◌, String, Bool, not, ◌&&◌, Option, none, some, List, [], ◌∷◌, length, str_eq,
  ◌<>◌,
}
use bus_booking_backend.Errors.{bad_request, not_found}
use bus_booking_backend.Store.{ObjectId, Stored}
use bus_booking_backend.Action.{Action, pure, throw_if, or_throw, modify, gets, ◌>>=◌, ◌>>◌}
use bus_booking_backend.Documents.{
  Bus, Booking, BookingStatus, seat_nos, is_cancellable, status_text,
}
use bus_booking_backend.Events.{DomainEvent}
use bus_booking_backend.World.{
  Env, State, load, update, update_and_load, cast_or_throw, new_object_id, buses_of, bookings_of,
  emit,
}
use bus_booking_backend.Locks.{unlock_seats}
use bus_booking_backend.Booking.Seats.{set_all, mark_available}

-- The indices `i` of `seatNos.reduce((acc, seatNo, i) => ...)`: from `first` on, one for each
-- seat number, whatever the number is.
unfoldable pub positions : ℕ → List String → List ℕ
positions first [] = []
positions first (seat_no ∷ rest) = first ∷ positions (suc first) rest

-- MongoDB's update without `cancellationReason`, which mongoose leaves out if it is undefined,
-- keeps the old value.
abbrev pub reason_after : Option String → Option String → Option String
reason_after none old = old
reason_after (some reason) old = some reason

abbrev pub set_cancelled : ObjectId → Option String → (now : ℕ) → Booking → Booking
set_cancelled user_id reason now b = record b {
  status = BookingStatus.cancelled;
  cancellation_reason = reason_after reason b.cancellation_reason;
  cancelled_at = some now;
  cancelled_by = some user_id;
}

module _ (env : Env) where
  abbrev pub free_marks : Booking → Bus → Bus
  free_marks booking bus = record bus {
    seats =
        set_all env.set_past_end (positions 0 (seat_nos booking.passengers)) mark_available
          bus.seats;
  }

  -- What is read first: the booking, which has to be the caller's own, unless the caller is an
  -- administrator, and pending or confirmed.
  unfoldable pub check_cancel : String → String → Bool → Action (State env) (Stored Booking)
  check_cancel booking_id user_id is_admin = do
    key ← cast_or_throw env booking_id
    found ← load (bookings_of env) key
    booking ← or_throw found (not_found "Booking")
    throw_if (not is_admin && not (str_eq booking.doc.user_id user_id)) (not_found "Booking")
    throw_if (not (is_cancellable booking.doc.status))
        (bad_request ("Cannot cancel booking with status: " <> status_text booking.doc.status) none)
    pure booking

  -- The two updates.
  unfoldable pub write_cancel :
      String → Option String → Stored Booking → Action (State env) (Stored Booking)
  write_cancel user_id reason booking = do
    update (buses_of env) booking.doc.bus_id (free_marks booking.doc)
    now ← gets (λ s. s.now)
    canceller ← new_object_id env user_id
    updated ← update_and_load (bookings_of env) booking.id (set_cancelled canceller reason now)
    or_throw updated (not_found "Booking")

  -- The lock is removed, and the cancellation is announced.
  unfoldable pub announce_cancel :
      String
      → String
      → Option String
      → Stored Booking
      → Stored Booking
      → Action (State env) (Stored Booking)
  announce_cancel booking_id user_id reason booking updated = do
    modify (unlock_seats env booking.doc.bus_id (seat_nos booking.doc.passengers))
    emit env (DomainEvent.booking_cancelled booking_id user_id reason)
    pure updated

  unfoldable pub cancel_booking :
      String → String → Option String → Bool → Action (State env) (Stored Booking)
  cancel_booking booking_id user_id reason is_admin = do
    booking ← check_cancel booking_id user_id is_admin
    updated ← write_cancel user_id reason booking
    announce_cancel booking_id user_id reason booking updated
