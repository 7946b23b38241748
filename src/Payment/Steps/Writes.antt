-- ===== src/Payment/Steps/Writes.antt =====
-- `initiatePayment` and `initiateRefund` take at most one step each, however they end, and leave the
-- bookings alone (src/modules/payment/payment.service.ts).
use bus_booking_backend.Prelude.{
  String, ◌≡◌, refl, ap, sym, ◌∙◌, ◌⊎◌, inl, inr, Option, none, some, arith,
}
use bus_booking_backend.Store.{ObjectId, ok, err, Result, Stored, Result-cases}
use bus_booking_backend.Store.Laws.{update_all}
use bus_booking_backend.Documents.{Payment, Booking}
use bus_booking_backend.Action.{>>=_preserves, >>=_keeps}
use bus_booking_backend.World.{Env, State}
use bus_booking_backend.Payment.{
  InitiatePaymentDto, RefundDto, check_initiate, write_initiate, initiate_payment, check_refund,
  write_refund, initiate_refund, add_refund,
}
use bus_booking_backend.Payment.Initiated.{IsInitiated, initiate_payment-IsInitiated}
use bus_booking_backend.Payment.Balance.{
  IsRefundable, check_refund-IsRefundable, check_refund_unchanged, payments-initiate_payment,
  payments-write_refund,
}
use bus_booking_backend.Payment.Steps.{IsFor, PaymentStep, PaymentStep-at}

module _ (env : Env) where
  -- What an initiation leaves: the payments as they were, or a new one beside them.
  abbrev pub MayInitiate : State env → InitiatePaymentDto → String → State env → Type 0
  MayInitiate s dto u s' =
      (s'.payments ≡ s.payments)
      ⊎ ((p : Stored Payment) × (b : Stored Booking) × IsInitiated env s dto u p s' b)

  ended :
      (dto : InitiatePaymentDto) (u : String) (ten : Option String) (s : State env)
      (r : Result (Stored Payment) × State env)
      → initiate_payment env dto u ten s ≡ r
      → MayInitiate s dto u r.1
  ended dto u ten s (err e, t) h = inl (
      sym (ap (λ q. q.1.payments) h)
      ∙ payments-initiate_payment env dto u ten s e (ap (λ q. q.0) h))
  ended dto u ten s (ok p, t) h =
      let (b, k) = initiate_payment-IsInitiated env dto u ten s t p h in inr (p, b, k)

  pub initiate_payment-MayInitiate :
      (dto : InitiatePaymentDto) (u : String) (ten : Option String) (s : State env)
      → MayInitiate s dto u (initiate_payment env dto u ten s).1
  initiate_payment-MayInitiate dto u ten s =
      ended dto u ten s (initiate_payment env dto u ten s) refl

  pub bookings-initiate_payment :
      (dto : InitiatePaymentDto) (u : String) (ten : Option String) (s : State env)
      → (initiate_payment env dto u ten s).1.bookings ≡ s.bookings
  unfolding initiate_payment check_initiate write_initiate
  bookings-initiate_payment dto u ten s = ground arith

  IsInitiated-IsFor :
      (s : State env) (dto : InitiatePaymentDto) (u : String) (p : Stored Payment) (s' : State env)
      (b : Stored Booking)
      → IsInitiated env s dto u p s' b
      → IsFor env s p.doc b.doc
  IsInitiated-IsFor s dto u p s' b k = record {
    canonical = rw k.booking (env.cast_id_idem dto.booking_id b.id k.cast_booking);
    found = rw k.booking k.found;
    pending = k.pending;
    amount = k.amount;
  }

  pub MayInitiate-PaymentStep :
      (s : State env) (dto : InitiatePaymentDto) (u : String) (s' : State env) (j : ObjectId)
      → MayInitiate s dto u s'
      → PaymentStep env s
          (env.payments.find_by_id s.payments j)
          (env.payments.find_by_id s'.payments j)
  MayInitiate-PaymentStep s dto u s' j (inl kept) =
      PaymentStep.stay (ap (λ c. env.payments.find_by_id c j) kept)
  MayInitiate-PaymentStep s dto u s' j (inr (p, b, k)) = rw (k.payments j) (
      PaymentStep-at env s p.id j (env.payments.find_by_id s.payments j) (some p.doc) none
        (λ same. rw (← same) k.fresh)
        (PaymentStep.initiate p.doc b.doc (IsInitiated-IsFor s dto u p s' b k) k.initiated
          k.no_refunds.0 k.no_refunds.1 refl refl))

  write_refund-PaymentStep :
      (id : String) (dto : RefundDto) (p : Stored Payment) (s : State env) (j : ObjectId)
      → IsRefundable env s id dto p
      → PaymentStep env s
          (env.payments.find_by_id s.payments j)
          (env.payments.find_by_id (write_refund env id dto p s).1.payments j)
  write_refund-PaymentStep id dto p s j k =
      elim (Result-cases (env.payments.update_by_id s.payments p.id (add_refund dto s.now))) [
        | inr (e, h) ↦ rw (payments-write_refund env id dto p s, h) (PaymentStep.stay refl)
        | inl (c, h) ↦
            rw
              (
                payments-write_refund env id dto p s,
                h,
                update_all env.payments s.payments c p.id (add_refund dto s.now) p.doc h k.found j,
              )
              (PaymentStep-at env s p.id j (env.payments.find_by_id s.payments j)
                (some (add_refund dto s.now p.doc)) (some p.doc) (λ same. rw (← same) k.found)
                (PaymentStep.refund p.doc dto s.now k.success k.enough refl refl))
      ]

  pub initiate_refund-PaymentStep :
      (id : String) (dto : RefundDto) (s : State env) (j : ObjectId)
      → PaymentStep env s
          (env.payments.find_by_id s.payments j)
          (env.payments.find_by_id (initiate_refund env id dto s).1.payments j)
  unfolding initiate_refund
  initiate_refund-PaymentStep id dto s j =
      >>=_preserves
        (λ t.
          PaymentStep env s (env.payments.find_by_id s.payments j)
            (env.payments.find_by_id t.payments j))
        (check_refund env id dto) (write_refund env id dto) s
        (rw (check_refund_unchanged env id dto s) (PaymentStep.stay refl))
        (λ p t e.
          let (k, same) = check_refund-IsRefundable env id dto s t p e in
          rw same (write_refund-PaymentStep id dto p s j k))

  bookings-write_refund :
      (id : String) (dto : RefundDto) (p : Stored Payment) (s : State env)
      → (write_refund env id dto p s).1.bookings ≡ s.bookings
  unfolding write_refund
  bookings-write_refund id dto p s = ground arith

  pub bookings-initiate_refund :
      (id : String) (dto : RefundDto) (s : State env)
      → (initiate_refund env id dto s).1.bookings ≡ s.bookings
  unfolding initiate_refund
  bookings-initiate_refund id dto s =
      >>=_keeps (λ t. t.bookings) (check_refund env id dto) (write_refund env id dto)
        (λ t. ap (λ v. v.bookings) (check_refund_unchanged env id dto t))
        (bookings-write_refund id dto) s
