-- ===== src/Payment/Initiated.antt =====
-- What `initiatePayment` has done when it returns, and that a booking is paid for once
-- (src/modules/payment/payment.service.ts).
use bus_booking_backend.Prelude.{
  String, str_eq, if◌then◌else◌, ◌≡◌, true, Option, none, some, arith, some_eq, sym, ap, ◌∙◌,
  eq_iff, [], ◌∷◌, ◌++◌, Option-cases, inl, inr,
}
use bus_booking_backend.Errors.{conflict}
use bus_booking_backend.Store.{ObjectId, Stored, ok, err}
use bus_booking_backend.Documents.{Booking, BookingStatus, Payment, PaymentStatus}
use bus_booking_backend.Events.{DomainEvent}
use bus_booking_backend.Action.{>>=-eq-ok}
use bus_booking_backend.World.{Env, State}
use bus_booking_backend.Payment.{
  InitiatePaymentDto, check_initiate, write_initiate, initiate_payment, is_live_for,
}

module _ (env : Env) where
  check_initiate_unchanged :
      (dto : InitiatePaymentDto) (u : String) (s : State env) → (check_initiate env dto u s).1 ≡ s
  unfolding check_initiate
  check_initiate_unchanged dto u s = ground arith

  record IsPayable (s : State env) (dto : InitiatePaymentDto) (u : String) (b : Stored Booking)
      : Type 0 where
    pub cast_booking : env.cast_id dto.booking_id ≡ some b.id
    pub found : env.bookings.find_by_id s.bookings b.id ≡ some b.doc
    pub own : b.doc.user_id ≡ u
    pub pending : b.doc.status ≡ BookingStatus.pending
    pub no_payment : env.payments.find_one s.payments (is_live_for b.id) ≡ none

  check_initiate-IsPayable :
      (dto : InitiatePaymentDto) (u : String) (s : State env) (b : Stored Booking)
      → (check_initiate env dto u s).0 ≡ ok b
      → IsPayable s dto u b
  unfolding check_initiate
  check_initiate-IsPayable dto u s b h = ground (arith, eq_iff b.doc.user_id u)

  record IsWritten (s : State env) (dto : InitiatePaymentDto) (u : String) (b : Stored Booking)
      (p : Stored Payment) (s' : State env) : Type 0 where
    pub user : env.cast_id u ≡ some p.doc.user_id
    pub booking : env.cast_id dto.booking_id ≡ some p.doc.booking_id
    pub amount : p.doc.amount ≡ b.doc.total_fare
    pub initiated : p.doc.status ≡ PaymentStatus.initiated
    pub no_refunds : (p.doc.refunds ≡ []) × (p.doc.total_refunded ≡ 0)
    pub payment_write : env.payments.create s.payments p.doc ≡ ok (p.id, s'.payments)
    pub bookings : s'.bookings ≡ s.bookings
    pub buses : s'.buses ≡ s.buses
    pub events :
        s'.events
        ≡ s.events ++ DomainEvent.payment_initiated p.id dto.booking_id b.doc.total_fare ∷ []

  write_initiate-IsWritten :
      (dto : InitiatePaymentDto) (u : String) (ten : Option String) (b : Stored Booking)
      (s s' : State env) (p : Stored Payment)
      → write_initiate env dto u ten b s ≡ (ok p, s')
      → IsWritten s dto u b p s'
  unfolding write_initiate
  write_initiate-IsWritten dto u ten b s s' p h = ground arith

  -- A payment was initiated.
  pub record IsInitiated (s : State env) (dto : InitiatePaymentDto) (u : String)
      (p : Stored Payment) (s' : State env) (b : Stored Booking) : Type 0 where
    pub cast_booking : env.cast_id dto.booking_id ≡ some b.id
    pub found : env.bookings.find_by_id s.bookings b.id ≡ some b.doc
    pub own : b.doc.user_id ≡ u
    pub pending : b.doc.status ≡ BookingStatus.pending
    pub no_payment : env.payments.find_one s.payments (is_live_for b.id) ≡ none
    pub user : env.cast_id u ≡ some p.doc.user_id
    pub booking : p.doc.booking_id ≡ b.id
    pub amount : p.doc.amount ≡ b.doc.total_fare
    pub initiated : p.doc.status ≡ PaymentStatus.initiated
    pub no_refunds : (p.doc.refunds ≡ []) × (p.doc.total_refunded ≡ 0)
    pub fresh : env.payments.find_by_id s.payments p.id ≡ none
    pub payments :
        (j : ObjectId)
        → env.payments.find_by_id s'.payments j
          ≡ (if str_eq p.id j then some p.doc else env.payments.find_by_id s.payments j)
    pub bookings : s'.bookings ≡ s.bookings
    pub buses : s'.buses ≡ s.buses
    pub events :
        s'.events
        ≡ s.events ++ DomainEvent.payment_initiated p.id dto.booking_id b.doc.total_fare ∷ []

  initiated :
      (dto : InitiatePaymentDto) (u : String) (b : Stored Booking) (s s' : State env)
      (p : Stored Payment)
      → IsPayable s dto u b
      → IsWritten s dto u b p s'
      → IsInitiated s dto u p s' b
  initiated dto u b s s' p k w = record {
    cast_booking = k.cast_booking;
    found = k.found;
    own = k.own;
    pending = k.pending;
    no_payment = k.no_payment;
    user = w.user;
    booking = some_eq (sym w.booking ∙ k.cast_booking);
    amount = w.amount;
    initiated = w.initiated;
    no_refunds = w.no_refunds;
    fresh = env.payments.create_fresh s.payments s'.payments p.doc p.id w.payment_write;
    payments =
        λ j. env.payments.find_by_id-create s.payments s'.payments p.doc p.id j w.payment_write;
    bookings = w.bookings;
    buses = w.buses;
    events = w.events;
  }

  -- A payment that `initiatePayment` returns is for the caller's own pending booking, which had no
  -- live payment, and of its whole fare. It is stored as initiated under a new identifier beside
  -- the other payments and announced; bookings and buses stay as they are.
  pub initiate_payment-IsInitiated :
      (dto : InitiatePaymentDto) (u : String) (ten : Option String) (s s' : State env)
      (p : Stored Payment)
      → initiate_payment env dto u ten s ≡ (ok p, s')
      → (b : Stored Booking) × IsInitiated s dto u p s' b
  unfolding initiate_payment
  initiate_payment-IsInitiated dto u ten s s' p h =
      let (b, t, e, h') =
        >>=-eq-ok (check_initiate env dto u) (write_initiate env dto u ten) s s' p h in
      let same : t ≡ s = sym (ap (λ r. r.1) e) ∙ check_initiate_unchanged dto u s in
      let k = check_initiate-IsPayable dto u s b (ap (λ r. r.0) e) in
      (b, initiated dto u b s s' p k (write_initiate-IsWritten dto u ten b s s' p (rw same at h')))

  -- While a live payment of a pending booking is stored, no second one is made: the call of the
  -- booking's owner throws a conflict and changes nothing.
  pub initiate_payment_once :
      (dto : InitiatePaymentDto) (u : String) (ten : Option String) (s : State env)
      (b : Stored Booking) (i : ObjectId) (p : Payment)
      → env.cast_id dto.booking_id ≡ some b.id
      → env.bookings.find_by_id s.bookings b.id ≡ some b.doc
      → b.doc.user_id ≡ u
      → b.doc.status ≡ BookingStatus.pending
      → env.payments.find_by_id s.payments i ≡ some p
      → is_live_for b.id (record { id = i; doc = p }) ≡ true
      → initiate_payment env dto u ten s
        ≡ (err (conflict "Payment already initiated for this booking"), s)
  unfolding initiate_payment check_initiate
  initiate_payment_once dto u ten s b i p k f own pending at live =
      elim (Option-cases (env.payments.find_one s.payments (is_live_for b.id))) [
        | inl none_live ↦
            cc (env.payments.find_one_complete s.payments (is_live_for b.id) i p none_live at)
        | inr (q, one) ↦ ground (arith, eq_iff b.doc.user_id u)
      ]
