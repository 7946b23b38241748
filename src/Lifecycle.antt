-- ===== src/Lifecycle.antt =====
-- The calls of the booking and payment services as steps of the whole state, and the sequences of
-- such steps: src/modules/booking/booking.service.ts and src/modules/payment/payment.service.ts.
pub mod Frames
pub mod Bookings
pub mod Payments
pub mod Settled
use bus_booking_backend.Prelude.{ℕ, ◌≤◌, String, Bool, Option, ◌≡◌}
use bus_booking_backend.World.{Env, State}
use bus_booking_backend.Booking.Create.{CreateBookingDto, create_booking}
use bus_booking_backend.Booking.Cancel.{cancel_booking}
use bus_booking_backend.Payment.{
  InitiatePaymentDto, RefundDto, initiate_payment, verify_payment, initiate_refund,
}

-- One call with any arguments, whether it returns or throws, or the passing of time. The source
-- calls `confirmBooking` from `verifyPayment` only.
pub data Call (env : Env) (s s' : State env) : Type 0 where
  create :
      (dto : CreateBookingDto) (u : String) (ten : Option String)
      → s' ≡ (create_booking env dto u ten s).1
      → Call env s s'
  cancel :
      (id u : String) (reason : Option String) (admin : Bool)
      → s' ≡ (cancel_booking env id u reason admin s).1
      → Call env s s'
  initiate :
      (dto : InitiatePaymentDto) (u : String) (ten : Option String)
      → s' ≡ (initiate_payment env dto u ten s).1
      → Call env s s'
  verify : (id reference u : String) → s' ≡ (verify_payment env id reference u s).1 → Call env s s'
  refund : (id : String) (dto : RefundDto) → s' ≡ (initiate_refund env id dto s).1 → Call env s s'
  wait : (time : ℕ) → s.now ≤ time → s' ≡ record s { now = time } → Call env s s'

-- Any number of calls, one after another.
pub data Reach (env : Env) (s : State env) : State env → Type 0 where
  start : Reach env s s
  call : {t s' : State env} → Reach env s t → Call env t s' → Reach env s s'
