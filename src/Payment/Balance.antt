-- ===== src/Payment/Balance.antt =====
-- The refunds of a payment never exceed it (src/modules/payment/payment.service.ts).
use bus_booking_backend.Prelude.{
  ℕ, ◌+◌, ◌≤◌, String, str_eq, ◌≡◌, ◌≢◌, refl, Option, none, some, List, arith, sym, ap, ◌∙◌,
  eq_iff, [], ◌∷◌, ◌++◌, subst, decimal, ◌<>◌, inl, inr, Bool-cases,
}
use bus_booking_backend.Errors.{Error}
use bus_booking_backend.Store.{ObjectId, Stored, Result, ok, err}
use bus_booking_backend.Store.Laws.{update_all}
use bus_booking_backend.Documents.{Payment, PaymentStatus, RefundEntry}
use bus_booking_backend.Action.{◌>>=◌, ◌>>◌, >>=_keeps, >>=_preserves}
use bus_booking_backend.World.{Env, State}
use bus_booking_backend.Booking.Confirm.{confirm_booking}
use bus_booking_backend.Booking.Confirm.Frame.{payments-confirm_booking}
use bus_booking_backend.Payment.Initiated.{initiate_payment-IsInitiated}
use bus_booking_backend.Payment.{
  InitiatePaymentDto, RefundDto, check_initiate, write_initiate, initiate_payment, check_verify,
  save_paid, announce_paid, verify_payment, check_refund, write_refund, initiate_refund, set_paid,
  add_refund,
}

unfoldable pub total_amount : List RefundEntry → ℕ
total_amount [] = 0
total_amount (r ∷ rs) = r.amount + total_amount rs

total_amount-++ :
    (rs qs : List RefundEntry) → total_amount (rs ++ qs) ≡ total_amount rs + total_amount qs
unfolding total_amount
total_amount-++ [] qs = omega arith
total_amount-++ (r ∷ rs) qs = omega (arith, total_amount-++ rs qs)

-- The total of a payment is that of its refunds, and is at most its amount.
abbrev pub IsBalanced : Payment → Type 0
IsBalanced p = (p.total_refunded ≡ total_amount p.refunds) × (p.total_refunded ≤ p.amount)

pub add_refund-IsBalanced :
    (dto : RefundDto) (now : ℕ) (p : Payment)
    → IsBalanced p
    → p.total_refunded + dto.amount ≤ p.amount
    → IsBalanced (add_refund dto now p)
unfolding total_amount
add_refund-IsBalanced dto now p (same, bound) h =
    let entry : RefundEntry = record {
      amount = dto.amount;
      reason = dto.reason;
      refunded_at = now;
      refund_ref = some ("REF-" <> decimal now);
    } in
    (omega (arith, total_amount-++ p.refunds (entry ∷ [])), omega arith)

pub new_IsBalanced : (p : Payment) → p.refunds ≡ [] → p.total_refunded ≡ 0 → IsBalanced p
unfolding total_amount
new_IsBalanced p none_made zero_total = (rw none_made zero_total, omega arith)

-- A predicate on what is there, if something is.
abbrev pub OnSome : {A : Type 0} → (A → Type 0) → Option A → Type 0
OnSome P none = Unit {0}
OnSome P (some p) = P p

pub on_some :
    {A : Type 0} (P : A → Type 0) (o : Option A) → ((a : A) → o ≡ some a → P a) → OnSome P o
on_some P none h = tt
on_some P (some a) h = h a refl

module _ (env : Env) where
  -- Every stored payment is balanced.
  abbrev pub AllBalanced : State env → Type 0
  AllBalanced s = (i : ObjectId) → OnSome IsBalanced (env.payments.find_by_id s.payments i)

  -- The collection after a write, which may have been rejected.
  abbrev pub after : env.payments.Coll → Result env.payments.Coll → env.payments.Coll
  after c (ok c') = c'
  after c (err e) = c

  after-IsBalanced :
      (c : env.payments.Coll) (i : ObjectId) (f : Payment → Payment) (p : Payment)
      (r : Result env.payments.Coll)
      → env.payments.update_by_id c i f ≡ r
      → env.payments.find_by_id c i ≡ some p
      → IsBalanced (f p)
      → ((j : ObjectId) → OnSome IsBalanced (env.payments.find_by_id c j))
      → (j : ObjectId) → OnSome IsBalanced (env.payments.find_by_id (after c r) j)
  after-IsBalanced c i f p (err e) w found good sound j = sound j
  after-IsBalanced c i f p (ok c') w found good sound j =
      rw (update_all env.payments c c' i f p w found j) (elim (Bool-cases (str_eq i j)) [
        | inl same ↦ rw same good
        | inr other ↦ rw other (sound j)
      ])

  pub check_refund_unchanged :
      (id : String) (dto : RefundDto) (s : State env) → (check_refund env id dto s).1 ≡ s
  unfolding check_refund
  check_refund_unchanged id dto s = ground arith

  pub record IsRefundable (s : State env) (id : String) (dto : RefundDto) (p : Stored Payment)
      : Type 0 where
    pub cast : env.cast_id id ≡ some p.id
    pub found : env.payments.find_by_id s.payments p.id ≡ some p.doc
    pub success : p.doc.status ≡ PaymentStatus.success
    pub enough : p.doc.total_refunded + dto.amount ≤ p.doc.amount

  pub check_refund-IsRefundable :
      (id : String) (dto : RefundDto) (s t : State env) (p : Stored Payment)
      → check_refund env id dto s ≡ (ok p, t)
      → IsRefundable s id dto p × (t ≡ s)
  unfolding check_refund
  check_refund-IsRefundable id dto s t p h = ground arith

  pub payments-write_refund :
      (id : String) (dto : RefundDto) (p : Stored Payment) (s : State env)
      → (write_refund env id dto p s).1.payments
        ≡ after s.payments (env.payments.update_by_id s.payments p.id (add_refund dto s.now))
  unfolding write_refund
  payments-write_refund id dto p s = ground arith

  -- A refund, whether it is made or refused, leaves every stored payment with refunds that add up
  -- to its total and do not exceed its amount, if every one was like that before.
  pub initiate_refund-AllBalanced :
      (id : String) (dto : RefundDto) (s : State env)
      → AllBalanced s
      → AllBalanced (initiate_refund env id dto s).1
  unfolding initiate_refund
  initiate_refund-AllBalanced id dto s sound =
      >>=_preserves AllBalanced (check_refund env id dto) (write_refund env id dto) s
        (rw (check_refund_unchanged id dto s) sound)
        (λ p t e.
          let (k, same) = check_refund-IsRefundable id dto s t p e in
          rw (payments-write_refund id dto p t, same)
            (after-IsBalanced s.payments p.id (add_refund dto s.now) p.doc
              (env.payments.update_by_id s.payments p.id (add_refund dto s.now)) refl k.found
              (add_refund-IsBalanced dto s.now p.doc
                (subst (OnSome IsBalanced) k.found (sound p.id)) k.enough)
              sound))

  pub check_verify_unchanged : (id u : String) (s : State env) → (check_verify env id u s).1 ≡ s
  unfolding check_verify
  check_verify_unchanged id u s = ground arith

  pub record IsUnpaid (s : State env) (id u : String) (p : Stored Payment) : Type 0 where
    pub cast : env.cast_id id ≡ some p.id
    pub found : env.payments.find_by_id s.payments p.id ≡ some p.doc
    pub own : p.doc.user_id ≡ u
    pub unpaid : p.doc.status ≢ PaymentStatus.success

  pub check_verify-IsUnpaid :
      (id u : String) (s t : State env) (p : Stored Payment)
      → check_verify env id u s ≡ (ok p, t)
      → IsUnpaid s id u p × (t ≡ s)
  unfolding check_verify
  check_verify-IsUnpaid id u s t p h = ground (arith, eq_iff p.doc.user_id u)

  pub payments-save_paid :
      (reference : String) (p : Stored Payment) (s : State env)
      → (save_paid env reference p s).1.payments
        ≡ after s.payments (env.payments.update_by_id s.payments p.id (set_paid reference s.now))
  unfolding save_paid
  payments-save_paid reference p s = ground arith

  payments-announce_paid :
      (u : String) (p : Stored Payment) (s : State env)
      → (announce_paid env u p s).1.payments ≡ s.payments
  unfolding announce_paid
  payments-announce_paid u p s = ground arith

  payments-after_saving :
      (u : String) (p : Stored Payment) (s : State env)
      → ((confirm_booking env p.doc.booking_id p.id >> announce_paid env u p) s).1.payments
        ≡ s.payments
  payments-after_saving u p s =
      >>=_keeps (λ t. t.payments) (confirm_booking env p.doc.booking_id p.id)
        (λ _. announce_paid env u p) (payments-confirm_booking env p.doc.booking_id p.id)
        (λ _. payments-announce_paid u p) s

  save_paid-AllBalanced :
      (id u reference : String) (p : Stored Payment) (s : State env)
      → IsUnpaid s id u p
      → AllBalanced s
      → AllBalanced (save_paid env reference p s).1
  save_paid-AllBalanced id u reference p s k sound = rw (payments-save_paid reference p s) (
      after-IsBalanced s.payments p.id (set_paid reference s.now) p.doc
        (env.payments.update_by_id s.payments p.id (set_paid reference s.now)) refl k.found
        (subst (OnSome IsBalanced) k.found (sound p.id)) sound)

  -- A verification, whether it returns or throws, leaves every stored payment with refunds that
  -- add up to its total and do not exceed its amount, if every one was like that before.
  pub verify_payment-AllBalanced :
      (id reference u : String) (s : State env)
      → AllBalanced s
      → AllBalanced (verify_payment env id reference u s).1
  unfolding verify_payment
  verify_payment-AllBalanced id reference u s sound =
      >>=_preserves AllBalanced (check_verify env id u)
        (λ p. save_paid env reference p >>= λ q.
          confirm_booking env q.doc.booking_id q.id >> announce_paid env u q)
        s (rw (check_verify_unchanged id u s) sound)
        (λ p t e.
          let (k, same) = check_verify-IsUnpaid id u s t p e in
          let saved = save_paid-AllBalanced id u reference p s k sound in
          >>=_preserves AllBalanced (save_paid env reference p)
            (λ q. confirm_booking env q.doc.booking_id q.id >> announce_paid env u q) t
            (rw same saved)
            (λ q v e'.
              rw (payments-after_saving u q v)
                (subst AllBalanced (ap (λ r. r.1) (rw same at e')) saved)))

  pub payments-initiate_payment :
      (dto : InitiatePaymentDto) (u : String) (ten : Option String) (s : State env) (e : Error)
      → (initiate_payment env dto u ten s).0 ≡ err e
      → (initiate_payment env dto u ten s).1.payments ≡ s.payments
  unfolding initiate_payment check_initiate write_initiate
  payments-initiate_payment dto u ten s e h = ground arith

  ended :
      (dto : InitiatePaymentDto) (u : String) (ten : Option String) (s : State env)
      (r : Result (Stored Payment) × State env)
      → initiate_payment env dto u ten s ≡ r
      → AllBalanced s
      → (j : ObjectId) → OnSome IsBalanced (env.payments.find_by_id r.1.payments j)
  ended dto u ten s (err e, t) h sound j =
      rw
        (sym (ap (λ q. q.1.payments) h) ∙ payments-initiate_payment dto u ten s e (ap (λ q. q.0) h))
        (sound j)
  ended dto u ten s (ok p, t) h sound j =
      let (b, k) = initiate_payment-IsInitiated env dto u ten s t p h in
      let (no_refunds, zero_total) = k.no_refunds in
      rw (k.payments j) (elim (Bool-cases (str_eq p.id j)) [
        | inl same ↦ rw same (new_IsBalanced p.doc no_refunds zero_total)
        | inr other ↦ rw other (sound j)
      ])

  -- An initiation, whether it returns or throws, leaves every stored payment with refunds that add
  -- up to its total and do not exceed its amount, if every one was like that before.
  pub initiate_payment-AllBalanced :
      (dto : InitiatePaymentDto) (u : String) (ten : Option String) (s : State env)
      → AllBalanced s
      → AllBalanced (initiate_payment env dto u ten s).1
  initiate_payment-AllBalanced dto u ten s sound =
      ended dto u ten s (initiate_payment env dto u ten s) refl sound
