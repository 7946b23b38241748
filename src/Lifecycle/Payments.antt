-- ===== src/Lifecycle/Payments.antt =====
-- What a sequence of calls can do to a payment (src/modules/payment/payment.service.ts).
use bus_booking_backend.Prelude.{
  ℕ, String, true, not, ◌||◌, ◌≡◌, refl, ap, sym, ◌∙◌, Option, some, arith, some_eq, subst,
}
use bus_booking_backend.Store.{ObjectId}
use bus_booking_backend.Documents.{Payment}
use bus_booking_backend.World.{Env, State}
use bus_booking_backend.Payment.{RefundDto, set_paid, add_refund, verify_payment, initiate_payment}
use bus_booking_backend.Payment.Balance.{
  IsBalanced, AllBalanced, OnSome, add_refund-IsBalanced, new_IsBalanced,
}
use bus_booking_backend.Payment.Steps.{PaymentStep}
use bus_booking_backend.Payment.Steps.Writes.{
  initiate_payment-MayInitiate, MayInitiate-PaymentStep, initiate_refund-PaymentStep,
}
use bus_booking_backend.Payment.Steps.Verification.{verify_payment-MayPay, MayPay-PaymentStep}
use bus_booking_backend.Lifecycle.{Call, Reach}
use bus_booking_backend.Lifecycle.Frames.{payments-create_booking, payments-cancel_booking}
use bus_booking_backend.Lifecycle.Bookings.{is_paid}

-- The parties and the amount of a payment stay, and what was paid stays paid.
pub record IsLaterPayment (p p' : Payment) : Type 0 where
  pub user : p'.user_id ≡ p.user_id
  pub booking : p'.booking_id ≡ p.booking_id
  pub amount : p'.amount ≡ p.amount
  pub paid : (not (is_paid p.status) || is_paid p'.status) ≡ true

IsLaterPayment-refl : (p : Payment) → IsLaterPayment p p
IsLaterPayment-refl p = record { user = refl; booking = refl; amount = refl; paid = ground arith }

IsLaterPayment-trans :
    (p q r : Payment) → IsLaterPayment p q → IsLaterPayment q r → IsLaterPayment p r
IsLaterPayment-trans p q r h k = record {
  user = k.user ∙ h.user;
  booking = k.booking ∙ h.booking;
  amount = k.amount ∙ h.amount;
  paid = let a = h.paid in let b = k.paid in ground arith;
}

paid-IsLaterPayment :
    (p : Payment) (reference : String) (now : ℕ) → IsLaterPayment p (set_paid reference now p)
paid-IsLaterPayment p reference now = record {
  user = refl;
  booking = refl;
  amount = refl;
  paid = ground arith;
}

refunded-IsLaterPayment :
    (p : Payment) (dto : RefundDto) (now : ℕ) → IsLaterPayment p (add_refund dto now p)
refunded-IsLaterPayment p dto now = record {
  user = refl;
  booking = refl;
  amount = refl;
  paid = ground arith;
}

-- A step keeps a payment, and makes it later.
pub PaymentStep-IsLaterPayment :
    (env : Env) (s : State env) (o o' : Option Payment) (p : Payment)
    → PaymentStep env s o o'
    → o ≡ some p
    → (p' : Payment) × (o' ≡ some p') × IsLaterPayment p p'
PaymentStep-IsLaterPayment env s o o' p (PaymentStep.stay same) h =
    (p, same ∙ h, IsLaterPayment-refl p)
PaymentStep-IsLaterPayment env s o o' p (PaymentStep.initiate q b _ _ _ _ e _) h = cc
PaymentStep-IsLaterPayment env s o o' p (PaymentStep.pay q reference now _ e e') h =
    let same : q ≡ p = some_eq (sym e ∙ h) in
    (set_paid reference now p, rw same at e', paid-IsLaterPayment p reference now)
PaymentStep-IsLaterPayment env s o o' p (PaymentStep.refund q dto now _ _ e e') h =
    let same : q ≡ p = some_eq (sym e ∙ h) in
    (add_refund dto now p, rw same at e', refunded-IsLaterPayment p dto now)

-- A step keeps a payment balanced.
PaymentStep-IsBalanced :
    (env : Env) (s : State env) (o o' : Option Payment)
    → PaymentStep env s o o'
    → OnSome IsBalanced o
    → OnSome IsBalanced o'
PaymentStep-IsBalanced env s o o' (PaymentStep.stay same) h = rw same h
PaymentStep-IsBalanced env s o o' (PaymentStep.initiate q b _ _ no_refunds zero_total _ e) h =
    rw e (new_IsBalanced q no_refunds zero_total)
PaymentStep-IsBalanced env s o o' (PaymentStep.pay q reference now _ e e') h =
    rw e' (subst (OnSome IsBalanced) e h)
PaymentStep-IsBalanced env s o o' (PaymentStep.refund q dto now _ enough e e') h =
    rw e' (add_refund-IsBalanced dto now q (subst (OnSome IsBalanced) e h) enough)

module _ (env : Env) where
  -- Each call of the two services, with any arguments and however it ends, takes at most one step
  -- of the life of each stored payment: an initiation for the whole fare of a pending booking, a
  -- success of one that is none yet, or a refund of a success that leaves the total of its refunds
  -- within its amount.
  pub Call-PaymentStep :
      (s s' : State env) (j : ObjectId)
      → Call env s s'
      → PaymentStep env s
          (env.payments.find_by_id s.payments j)
          (env.payments.find_by_id s'.payments j)
  Call-PaymentStep s s' j (Call.create dto u ten e) = PaymentStep.stay (
      ap (λ t. env.payments.find_by_id t.payments j) e
      ∙ ap (λ c. env.payments.find_by_id c j) (payments-create_booking env dto u ten s))
  Call-PaymentStep s s' j (Call.cancel id u reason admin e) = PaymentStep.stay (
      ap (λ t. env.payments.find_by_id t.payments j) e
      ∙ ap (λ c. env.payments.find_by_id c j) (payments-cancel_booking env id u reason admin s))
  Call-PaymentStep s s' j (Call.initiate dto u ten e) = rw e (
      MayInitiate-PaymentStep env s dto u (initiate_payment env dto u ten s).1 j
        (initiate_payment-MayInitiate env dto u ten s))
  Call-PaymentStep s s' j (Call.verify id reference u e) = rw e (
      MayPay-PaymentStep env s id reference u (verify_payment env id reference u s).1 j
        (verify_payment-MayPay env id reference u s))
  Call-PaymentStep s s' j (Call.refund id dto e) = rw e (initiate_refund-PaymentStep env id dto s j)
  Call-PaymentStep s s' j (Call.wait time _ e) =
      PaymentStep.stay (ap (λ t. env.payments.find_by_id t.payments j) e)

  -- After any sequence of calls the refunds of each stored payment add up to its total and do not
  -- exceed its amount, if they did so for each payment before.
  pub Reach-AllBalanced :
      (s s' : State env) → Reach env s s' → AllBalanced env s → AllBalanced env s'
  Reach-AllBalanced s s' Reach.start sound = sound
  Reach-AllBalanced s s' (Reach.call {t} before c) sound = λ j.
      PaymentStep-IsBalanced env t (env.payments.find_by_id t.payments j)
        (env.payments.find_by_id s'.payments j) (Call-PaymentStep t s' j c)
        (Reach-AllBalanced s t before sound j)

  -- After any sequence of calls a stored payment is still there, with the same user, booking and
  -- amount, and if it was made it is a success or refunded.
  pub Reach-IsLaterPayment :
      (s s' : State env) (j : ObjectId) (p : Payment)
      → Reach env s s'
      → env.payments.find_by_id s.payments j ≡ some p
      → (p' : Payment) × (env.payments.find_by_id s'.payments j ≡ some p') × IsLaterPayment p p'
  Reach-IsLaterPayment s s' j p Reach.start h = (p, h, IsLaterPayment-refl p)
  Reach-IsLaterPayment s s' j p (Reach.call {t} before c) h =
      let (q, k, earlier) = Reach-IsLaterPayment s t j p before h in
      let (r, l, later) =
        PaymentStep-IsLaterPayment env t (env.payments.find_by_id t.payments j)
          (env.payments.find_by_id s'.payments j) q (Call-PaymentStep t s' j c) k in
      (r, l, IsLaterPayment-trans p q r earlier later)
