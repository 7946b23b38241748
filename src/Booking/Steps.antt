-- ===== src/Booking/Steps.antt =====
-- What may happen to one booking, apart from the code: the specification that the methods of
-- src/modules/booking/booking.service.ts refine.
pub mod Creation
pub mod Confirmation
pub mod Cancellation
use mathlib.Core.Option
use bus_booking_backend.Prelude.{
  ℕ, String, ◌≡◌, refl, ◌⊎◌, inl, inr, Option, none, some, Bool, true, false, arith, str_eq,
  if◌then◌else◌, Bool-cases, eq_iff,
}
use bus_booking_backend.Store.{ObjectId}
use bus_booking_backend.Documents.{Booking, BookingStatus}
use bus_booking_backend.Booking.Cancel.Outcome.{IsOpen}

-- One step of what is stored under one identifier. A confirmation needs a payment that fits.
pub data Step (Fits : ObjectId → Type 0) (o o' : Option Booking) : Type 0 where
  stay : o' ≡ o → Step Fits o o'
  begin :
      (b : Booking)
      → b.status ≡ BookingStatus.pending
      → b.payment_id ≡ none
      → b.cancelled_at ≡ none
      → o ≡ none
      → o' ≡ some b
      → Step Fits o o'
  confirm :
      (b : Booking) (payment : ObjectId)
      → Fits payment
      → b.status ≡ BookingStatus.pending
      → o ≡ some b
      → o' ≡ some (record b { status = BookingStatus.confirmed; payment_id = some payment })
      → Step Fits o o'
  cancel :
      (b : Booking) (by : ObjectId) (reason : Option String) (at_time : ℕ)
      → IsOpen b.status
      → o ≡ some b
      → o'
        ≡ some (record b {
          status = BookingStatus.cancelled;
          cancellation_reason = reason;
          cancelled_at = some at_time;
          cancelled_by = some by;
        })
      → Step Fits o o'

-- A step of the booking at one place of a collection, and nothing at the others.
pub Step-at :
    (Fits : ObjectId → Type 0) (i j : ObjectId) (o o' mine : Option Booking)
    → (i ≡ j → o ≡ mine)
    → (i ≡ j → Step Fits mine o')
    → Step Fits o (if str_eq i j then o' else o)
Step-at Fits i j o o' mine same st = elim (Bool-cases (str_eq i j)) [
  | inl eq ↦ let e = (eq_iff i j).0 eq in rw (eq, same e) (st e)
  | inr ne ↦ rw ne (Step.stay refl)
]
