-- ===== src/Payment/Steps.antt =====
-- What may happen to one payment, apart from the code: the specification that the methods of
-- src/modules/payment/payment.service.ts refine.
pub mod Writes
pub mod Verification
use mathlib.Core.Option
use bus_booking_backend.Prelude.{
  ℕ, ◌+◌, ◌≤◌, String, ◌≡◌, ◌≢◌, refl, ◌⊎◌, inl, inr, Option, none, some, [], ◌∷◌, ◌++◌, str_eq,
  leb, decimal, ◌<>◌, if◌then◌else◌, Bool-cases, eq_iff,
}
use bus_booking_backend.Store.{ObjectId}
use bus_booking_backend.Documents.{Payment, PaymentStatus, Booking, BookingStatus}
use bus_booking_backend.World.{Env, State}
use bus_booking_backend.Payment.{RefundDto}

-- A payment that is for the whole fare of a pending booking.
pub record IsFor (env : Env) (s : State env) (p : Payment) (b : Booking) : Type 0 where
  pub canonical : env.cast_id p.booking_id ≡ some p.booking_id
  pub found : env.bookings.find_by_id s.bookings p.booking_id ≡ some b
  pub pending : b.status ≡ BookingStatus.pending
  pub amount : p.amount ≡ b.total_fare

-- One step of what is stored under one identifier, from a state.
pub data PaymentStep (env : Env) (s : State env) (o o' : Option Payment) : Type 0 where
  stay : o' ≡ o → PaymentStep env s o o'
  initiate :
      (p : Payment) (b : Booking)
      → IsFor env s p b
      → p.status ≡ PaymentStatus.initiated
      → p.refunds ≡ []
      → p.total_refunded ≡ 0
      → o ≡ none
      → o' ≡ some p
      → PaymentStep env s o o'
  pay :
      (p : Payment) (reference : String) (now : ℕ)
      → p.status ≢ PaymentStatus.success
      → o ≡ some p
      → o'
        ≡ some (record p {
          status = PaymentStatus.success;
          provider_reference = some reference;
          paid_at = some now;
        })
      → PaymentStep env s o o'
  refund :
      (p : Payment) (dto : RefundDto) (now : ℕ)
      → p.status ≡ PaymentStatus.success
      → p.total_refunded + dto.amount ≤ p.amount
      → o ≡ some p
      → o'
        ≡ some (record p {
          refunds =
              p.refunds
              ++ record {
                amount = dto.amount;
                reason = dto.reason;
                refunded_at = now;
                refund_ref = some ("REF-" <> decimal now);
              }
                ∷ [];
          total_refunded = p.total_refunded + dto.amount;
          status =
              if leb p.amount (p.total_refunded + dto.amount)
              then PaymentStatus.refunded
              else PaymentStatus.partially_refunded;
        })
      → PaymentStep env s o o'

-- A step of the payment at one place of a collection, and nothing at the others.
pub PaymentStep-at :
    (env : Env) (s : State env) (i j : ObjectId) (o o' mine : Option Payment)
    → (i ≡ j → o ≡ mine)
    → PaymentStep env s mine o'
    → PaymentStep env s o (if str_eq i j then o' else o)
PaymentStep-at env s i j o o' mine same st = elim (Bool-cases (str_eq i j)) [
  | inl eq ↦ rw (eq, same ((eq_iff i j).0 eq)) st
  | inr ne ↦ rw ne (PaymentStep.stay refl)
]
