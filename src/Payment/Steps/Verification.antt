-- ===== src/Payment/Steps/Verification.antt =====
-- `verifyPayment` takes at most one step of a payment, and at most the confirmation of its booking,
-- however it ends (src/modules/payment/payment.service.ts).
use bus_booking_backend.Prelude.{
  String, ◌≡◌, refl, ap, sym, ◌∙◌, subst, ◌⊎◌, inl, inr, some, arith, some_eq, str_eq,
  if◌then◌else◌,
}
use bus_booking_backend.Store.{ObjectId, Stored, Result-cases}
use bus_booking_backend.Store.Laws.{update_all}
use bus_booking_backend.Documents.{Payment}
use bus_booking_backend.Action.{◌>>=◌, ◌>>◌, >>=_preserves, >>=_keeps_first}
use bus_booking_backend.World.{Env, State}
use bus_booking_backend.Booking.Confirm.{confirm_booking}
use bus_booking_backend.Booking.Confirm.Frame.{payments-confirm_booking}
use bus_booking_backend.Booking.Steps.Confirmation.{
  MayConfirm, confirm_booking-MayConfirm, MayConfirm-Step, same_bookings,
}
use bus_booking_backend.Booking.Steps.{Step}
use bus_booking_backend.Payment.{verify_payment, check_verify, save_paid, announce_paid, set_paid}
use bus_booking_backend.Payment.Balance.{
  IsUnpaid, check_verify-IsUnpaid, check_verify_unchanged, payments-save_paid,
}
use bus_booking_backend.Payment.Verified.{IsSaved, save_paid-IsSaved}
use bus_booking_backend.Payment.Steps.{PaymentStep, PaymentStep-at}

module _ (env : Env) where
  -- The payment is saved; its booking may be confirmed.
  pub record IsPaid (s : State env) (id reference u : String) (s' : State env) (p : Stored Payment)
      : Type 0 where
    pub unpaid : IsUnpaid env s id u p
    pub payments :
        (j : ObjectId)
        → env.payments.find_by_id s'.payments j ≡ (
            if str_eq p.id j
            then some (set_paid reference s.now p.doc)
            else env.payments.find_by_id s.payments j)
    pub confirmed : MayConfirm env s p.doc.booking_id p.id s'

  -- What a verification leaves: payments and bookings as they were, or the payment saved.
  abbrev pub MayPay : State env → String → String → String → State env → Type 0
  MayPay s id reference u s' =
      ((s'.payments ≡ s.payments) × (s'.bookings ≡ s.bookings))
      ⊎ ((p : Stored Payment) × IsPaid s id reference u s' p)

  payments-announce_paid :
      (u : String) (q : Stored Payment) (s : State env)
      → (announce_paid env u q s).1.payments ≡ s.payments
  unfolding announce_paid
  payments-announce_paid u q s = refl

  bookings-announce_paid :
      (u : String) (q : Stored Payment) (s : State env)
      → (announce_paid env u q s).1.bookings ≡ s.bookings
  unfolding announce_paid
  bookings-announce_paid u q s = refl

  bookings-save_paid :
      (reference : String) (p : Stored Payment) (s : State env)
      → (save_paid env reference p s).1.bookings ≡ s.bookings
  unfolding save_paid
  bookings-save_paid reference p s = ground arith

  -- The save alone, whether it is accepted or not.
  save_paid-MayPay :
      (id reference u : String) (p : Stored Payment) (s : State env)
      → IsUnpaid env s id u p
      → MayPay s id reference u (save_paid env reference p s).1
  unfolding save_paid
  save_paid-MayPay id reference u p s k =
      elim (Result-cases (env.payments.update_by_id s.payments p.id (set_paid reference s.now))) [
        | inr (e, h) ↦ inl (ground arith, ground arith)
        | inl (c, h) ↦ inr (
          p,
          record {
            unpaid = k;
            payments = λ j.
                rw (payments-save_paid env reference p s, h)
                  (update_all env.payments s.payments c p.id (set_paid reference s.now) p.doc h
                    k.found j);
            confirmed = inl (bookings-save_paid reference p s);
          },
        )
      ]

  -- The confirmation and the announcement, after a save.
  confirmed-MayPay :
      (id reference u : String) (p q : Stored Payment) (s v : State env)
      → IsUnpaid env s id u p
      → IsSaved env s reference p q v
      → MayPay s id reference u
          ((confirm_booking env q.doc.booking_id q.id >> announce_paid env u q) v).1
  confirmed-MayPay id reference u p q s v k w =
      let end = ((confirm_booking env q.doc.booking_id q.id >> announce_paid env u q) v).1 in
      let x = (confirm_booking env q.doc.booking_id q.id v).1 in
      let same_payments : end.payments ≡ v.payments =
        >>=_keeps_first (λ t. t.payments) (confirm_booking env q.doc.booking_id q.id)
          (λ _. announce_paid env u q) (λ _. payments-announce_paid u q) v
        ∙ payments-confirm_booking env q.doc.booking_id q.id v in
      let same : end.bookings ≡ x.bookings =
        >>=_keeps_first (λ t. t.bookings) (confirm_booking env q.doc.booking_id q.id)
          (λ _. announce_paid env u q) (λ _. bookings-announce_paid u q) v in
      let made : MayConfirm env v p.doc.booking_id p.id x =
        subst (λ d. MayConfirm env v d.doc.booking_id d.id x) w.payment
          (confirm_booking-MayConfirm env q.doc.booking_id q.id v) in
      inr (
        p,
        record {
          unpaid = k;
          payments = λ j. rw same_payments (
              update_all env.payments s.payments v.payments p.id (set_paid reference s.now) p.doc
                w.payment_write k.found j);
          confirmed = same_bookings env v s p.doc.booking_id p.id x end (sym w.bookings) same made;
        },
      )

  pub verify_payment-MayPay :
      (id reference u : String) (s : State env)
      → MayPay s id reference u (verify_payment env id reference u s).1
  unfolding verify_payment
  verify_payment-MayPay id reference u s =
      >>=_preserves (MayPay s id reference u) (check_verify env id u)
        (λ p. save_paid env reference p >>= λ q.
          confirm_booking env q.doc.booking_id q.id >> announce_paid env u q)
        s
        (let same = check_verify_unchanged env id u s in
          inl (ap (λ t. t.payments) same, ap (λ t. t.bookings) same))
        (λ p t e.
          let (k, same) = check_verify-IsUnpaid env id u s t p e in
          rw same (
            >>=_preserves (MayPay s id reference u) (save_paid env reference p)
              (λ q. confirm_booking env q.doc.booking_id q.id >> announce_paid env u q) s
              (save_paid-MayPay id reference u p s k)
              (λ q v e'.
                confirmed-MayPay id reference u p q s v k
                  (save_paid-IsSaved env reference p q s v e'))))

  pub MayPay-PaymentStep :
      (s : State env) (id reference u : String) (s' : State env) (j : ObjectId)
      → MayPay s id reference u s'
      → PaymentStep env s
          (env.payments.find_by_id s.payments j)
          (env.payments.find_by_id s'.payments j)
  MayPay-PaymentStep s id reference u s' j (inl (kept, _)) =
      PaymentStep.stay (ap (λ c. env.payments.find_by_id c j) kept)
  MayPay-PaymentStep s id reference u s' j (inr (p, k)) = rw (k.payments j) (
      PaymentStep-at env s p.id j (env.payments.find_by_id s.payments j)
        (some (set_paid reference s.now p.doc)) (some p.doc) (λ same. rw (← same) k.unpaid.found)
        (PaymentStep.pay p.doc reference s.now k.unpaid.unpaid refl refl))

  -- A booking that a verification confirms is the one of the payment that it has saved.
  pub MayPay-Step :
      (Fits : ObjectId → Type 0) (s : State env) (id reference u : String) (s' : State env)
      (j : ObjectId)
      → ((p : Stored Payment)
          → IsPaid s id reference u s' p
          → env.cast_id p.doc.booking_id ≡ some j
          → Fits p.id)
      → MayPay s id reference u s'
      → Step Fits (env.bookings.find_by_id s.bookings j) (env.bookings.find_by_id s'.bookings j)
  MayPay-Step Fits s id reference u s' j fits (inl (_, kept)) =
      Step.stay (ap (λ c. env.bookings.find_by_id c j) kept)
  MayPay-Step Fits s id reference u s' j fits (inr (p, k)) =
      MayConfirm-Step env Fits s p.doc.booking_id p.id s' j
        (λ payment cast cast_payment.
          let same : p.id ≡ payment =
            some_eq (sym (env.cast_id_idem id p.id k.unpaid.cast) ∙ cast_payment) in
          subst Fits same (fits p k cast))
        k.confirmed
