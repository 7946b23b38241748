-- ===== src/Payment.antt =====
-- src/modules/payment/payment.service.ts
pub mod Initiated
pub mod Balance
pub mod Verified
pub mod Refunded
pub mod Steps
use bus_booking_backend.Prelude.{
  ℕ, ◌+◌, ◌-◌, String, Bool, true, false, not, ◌&&◌, Option, none, some, List, [], ◌∷◌, ◌++◌, leb,
  ltb, str_eq, ◌<>◌, if◌then◌else◌, get_or_default, decimal, is_some, ◌||◌,
}
use bus_booking_backend.Errors.{bad_request, not_found, conflict}
use bus_booking_backend.Store.{ObjectId, Stored}
use bus_booking_backend.Action.{Action, pure, throw_if, or_throw, gets, ◌>>=◌, ◌>>◌}
use bus_booking_backend.Documents.{
  Booking, Payment, PaymentStatus, PaymentMethod, PaymentProvider, RefundEntry, is_pending,
  is_success, is_live_payment, status_text,
}
use bus_booking_backend.Events.{DomainEvent, EmailType, Job}
use bus_booking_backend.World.{
  Env, State, load, load_one, update, insert, cast_or_throw, new_object_id, bookings_of,
  payments_of, emit, add_job,
}
use bus_booking_backend.Booking.Confirm.{confirm_booking}

-- `initiatePaymentSchema`, without `metadata` and `upiId`, which no service reads
pub record InitiatePaymentDto : Type 0 where
  pub booking_id : String
  pub method : PaymentMethod
  pub provider : Option PaymentProvider

-- `refundSchema`
pub record RefundDto : Type 0 where
  pub amount : ℕ
  pub reason : String

-- The live payments of a booking.
abbrev pub is_live_for : ObjectId → Stored Payment → Bool
is_live_for booking_id p = str_eq p.doc.booking_id booking_id && is_live_payment p.doc.status

-- The document that `Payment.create` is given, with the defaults of the schema.
abbrev pub new_payment :
    InitiatePaymentDto → (user_id booking_id : ObjectId) → Option ObjectId → (amount : ℕ) → Payment
new_payment dto user_id booking_id tenant_id amount = record {
  user_id = user_id;
  booking_id = booking_id;
  tenant_id = tenant_id;
  amount = amount;
  currency = "INR";
  method = dto.method;
  provider = get_or_default dto.provider PaymentProvider.manual;
  provider_reference = none;
  gateway_order_id = none;
  status = PaymentStatus.initiated;
  refunds = [];
  total_refunded = 0;
  failure_reason = none;
  paid_at = none;
}

abbrev pub set_paid : String → (now : ℕ) → Payment → Payment
set_paid reference now p = record p {
  status = PaymentStatus.success;
  provider_reference = some reference;
  paid_at = some now;
}

-- `refunds.push(...)`, the new total, and the status that goes with it
abbrev pub add_refund : RefundDto → (now : ℕ) → Payment → Payment
add_refund dto now p =
    let total = p.total_refunded + dto.amount in
    record p {
      refunds =
          p.refunds
          ++ record {
            amount = dto.amount;
            reason = dto.reason;
            refunded_at = now;
            refund_ref = some ("REF-" <> decimal now);
          }
            ∷ [];
      total_refunded = total;
      status =
          if leb p.amount total then PaymentStatus.refunded else PaymentStatus.partially_refunded;
    }

-- `dto.amount > payment.amount - payment.totalRefunded`, over the integers
abbrev pub is_too_much : RefundDto → Payment → Bool
is_too_much dto p = ltb p.amount (p.total_refunded + dto.amount)

-- `payment.amount - payment.totalRefunded` as a text, negative where more was refunded
abbrev pub remaining_text : Payment → String
remaining_text p =
    if leb p.total_refunded p.amount
    then decimal (p.amount - p.total_refunded)
    else "-" <> decimal (p.total_refunded - p.amount)

module _ (env : Env) where
  -- `tenantId ? { tenantId: new Types.ObjectId(tenantId) } : {}`
  abbrev cast_tenant : Option String → Action (State env) (Option ObjectId)
  cast_tenant none = pure none
  cast_tenant (some t) =
      if str_eq t "" then pure none else (new_object_id env t >>= λ i. pure (some i))

  -- The checks: the caller's own pending booking, without a live payment.
  unfoldable pub check_initiate : InitiatePaymentDto → String → Action (State env) (Stored Booking)
  check_initiate dto user_id = do
    key ← cast_or_throw env dto.booking_id
    found ← load (bookings_of env) key
    booking ← or_throw found (not_found "Booking")
    throw_if (not (str_eq booking.doc.user_id user_id)) (not_found "Booking")
    throw_if (not (is_pending booking.doc.status))
        (bad_request ("Booking is already " <> status_text booking.doc.status) none)
    existing ← load_one (payments_of env) (is_live_for key)
    throw_if (is_some existing) (conflict "Payment already initiated for this booking")
    pure booking

  unfoldable pub write_initiate :
      InitiatePaymentDto
      → String
      → Option String
      → Stored Booking
      → Action (State env) (Stored Payment)
  write_initiate dto user_id tenant_id booking = do
    payer ← new_object_id env user_id
    key ← new_object_id env dto.booking_id
    tenant ← cast_tenant tenant_id
    payment ← insert (payments_of env) (new_payment dto payer key tenant booking.doc.total_fare)
    emit env (DomainEvent.payment_initiated payment.id dto.booking_id booking.doc.total_fare)
    pure payment

  unfoldable pub initiate_payment :
      InitiatePaymentDto → String → Option String → Action (State env) (Stored Payment)
  initiate_payment dto user_id tenant_id = do
    booking ← check_initiate dto user_id
    write_initiate dto user_id tenant_id booking

  -- The checks: the caller's own payment, which is not yet a success.
  unfoldable pub check_verify : String → String → Action (State env) (Stored Payment)
  check_verify payment_id user_id = do
    key ← cast_or_throw env payment_id
    found ← load (payments_of env) key
    payment ← or_throw found (not_found "Payment")
    throw_if (not (str_eq payment.doc.user_id user_id)) (not_found "Payment")
    throw_if (is_success payment.doc.status) (conflict "Payment already verified")
    pure payment

  -- The payment is saved as a success.
  unfoldable pub save_paid : String → Stored Payment → Action (State env) (Stored Payment)
  save_paid reference payment = do
    now ← gets (λ s. s.now)
    update (payments_of env) payment.id (set_paid reference now)
    pure (record payment { doc = set_paid reference now payment.doc })

  unfoldable pub announce_paid : String → Stored Payment → Action (State env) (Stored Payment)
  announce_paid user_id payment = do
    emit env (DomainEvent.payment_success payment.id payment.doc.booking_id payment.doc.amount)
    add_job env (
        Job.invoice (record {
          payment_id = payment.id;
          booking_id = payment.doc.booking_id;
          user_id = user_id;
        }))
    add_job env (
        Job.email (record {
          kind = EmailType.payment_success;
          user_id = user_id;
          booking_id = none;
          booking_ref = none;
          payment_id = some payment.id;
          amount = some payment.doc.amount;
        }))
    pure payment

  -- `verifyPayment`. The source takes every payment for verified: `isSuccess` is the constant
  -- `true`, so that its other branch does not run.
  unfoldable pub verify_payment :
      (payment_id reference user_id : String) → Action (State env) (Stored Payment)
  verify_payment payment_id reference user_id = do
    payment ← check_verify payment_id user_id
    paid ← save_paid reference payment
    confirm_booking env paid.doc.booking_id paid.id
    announce_paid user_id paid

  -- The checks: a payment that succeeded, and of which enough is left.
  unfoldable pub check_refund : String → RefundDto → Action (State env) (Stored Payment)
  check_refund payment_id dto = do
    key ← cast_or_throw env payment_id
    found ← load (payments_of env) key
    payment ← or_throw found (not_found "Payment")
    throw_if (not (is_success payment.doc.status))
        (bad_request "Can only refund successful payments" none)
    throw_if (is_too_much dto payment.doc)
        (bad_request ("Max refundable amount is " <> remaining_text payment.doc) none)
    pure payment

  unfoldable pub write_refund :
      String → RefundDto → Stored Payment → Action (State env) (Stored Payment)
  write_refund payment_id dto payment = do
    now ← gets (λ s. s.now)
    update (payments_of env) payment.id (add_refund dto now)
    emit env (DomainEvent.refund_initiated payment_id payment.doc.booking_id dto.amount)
    pure (record payment { doc = add_refund dto now payment.doc })

  unfoldable pub initiate_refund : String → RefundDto → Action (State env) (Stored Payment)
  initiate_refund payment_id dto = do
    payment ← check_refund payment_id dto
    write_refund payment_id dto payment

  -- `getPayment`, without the fields of the booking that `populate` adds to the answer
  unfoldable pub get_payment : String → String → Bool → Action (State env) (Stored Payment)
  get_payment payment_id user_id is_admin = do
    key ← cast_or_throw env payment_id
    owner ← if is_admin then pure "" else cast_or_throw env user_id
    found ←
        load_one (payments_of env)
          (λ p. str_eq p.id key && (is_admin || str_eq p.doc.user_id owner))
    or_throw found (not_found "Payment")
