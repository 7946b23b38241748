-- ===== src/Payment/Refunded.antt =====
-- What `initiateRefund` has done when it returns, and what it refuses
-- (src/modules/payment/payment.service.ts).
use bus_booking_backend.Prelude.{
  ◌+◌, ◌≤◌, String, str_eq, leb, if◌then◌else◌, ◌≡◌, arith, none, some, ap, Bool, true, false,
  str_eq_refl,
}
use bus_booking_backend.Errors.{bad_request}
use bus_booking_backend.Store.{ObjectId, Stored, ok, err}
use bus_booking_backend.Store.Laws.{update_all}
use bus_booking_backend.Action.{>>=-eq-ok}
use bus_booking_backend.Documents.{Payment, PaymentStatus}
use bus_booking_backend.World.{Env, State}
use bus_booking_backend.Payment.{RefundDto, initiate_refund, check_refund, write_refund, add_refund}
use bus_booking_backend.Payment.Balance.{check_refund-IsRefundable}

module _ (env : Env) where
  -- A refund was made.
  pub record IsRefunded (s : State env) (id : String) (dto : RefundDto) (p : Stored Payment)
      (s' : State env) (old : Payment) : Type 0 where
    pub cast : env.cast_id id ≡ some p.id
    pub found : env.payments.find_by_id s.payments p.id ≡ some old
    pub success : old.status ≡ PaymentStatus.success
    pub enough : old.total_refunded + dto.amount ≤ old.amount
    pub doc : p.doc ≡ add_refund dto s.now old
    pub status : p.doc.status ≡ (
        if leb old.amount (old.total_refunded + dto.amount)
        then PaymentStatus.refunded
        else PaymentStatus.partially_refunded)
    pub payments :
        (j : ObjectId)
        → env.payments.find_by_id s'.payments j
          ≡ (if str_eq p.id j then some p.doc else env.payments.find_by_id s.payments j)

  record IsWritten (s : State env) (dto : RefundDto) (old p : Stored Payment) (s' : State env)
      : Type 0 where
    pub same_id : p.id ≡ old.id
    pub doc : p.doc ≡ add_refund dto s.now old.doc
    pub payment_write :
        env.payments.update_by_id s.payments old.id (add_refund dto s.now) ≡ ok s'.payments

  write_refund-IsWritten :
      (id : String) (dto : RefundDto) (old p : Stored Payment) (s s' : State env)
      → write_refund env id dto old s ≡ (ok p, s')
      → IsWritten s dto old p s'
  unfolding write_refund
  write_refund-IsWritten id dto old p s s' h = ground arith

  -- A payment that `initiateRefund` returns was a success with enough left; it has the refund
  -- added, is refunded if nothing is left of it and partially refunded otherwise, and is stored
  -- like that, beside the other payments.
  pub initiate_refund-IsRefunded :
      (id : String) (dto : RefundDto) (s s' : State env) (p : Stored Payment)
      → initiate_refund env id dto s ≡ (ok p, s')
      → (old : Payment) × IsRefunded s id dto p s' old
  unfolding initiate_refund
  initiate_refund-IsRefunded id dto s s' p h =
      let (old, t, e, h') =
        >>=-eq-ok (check_refund env id dto) (write_refund env id dto) s s' p h in
      let (k, same) = check_refund-IsRefundable env id dto s t old e in
      let w = write_refund-IsWritten id dto old p s s' (rw same at h') in
      (
        old.doc,
        record {
          cast = rw w.same_id k.cast;
          found = rw w.same_id k.found;
          success = k.success;
          enough = k.enough;
          doc = w.doc;
          status = ap (λ d. d.status) w.doc;
          payments = λ j.
              rw (w.same_id, w.doc)
                (update_all env.payments s.payments s'.payments old.id (add_refund dto s.now)
                  old.doc w.payment_write k.found j);
        },
      )

  refund_closed :
      (id : String) (again : RefundDto) (t : State env) (p : Stored Payment) (all : Bool)
      → p.doc.status ≡ (if all then PaymentStatus.refunded else PaymentStatus.partially_refunded)
      → env.cast_id id ≡ some p.id
      → env.payments.find_by_id t.payments p.id ≡ some p.doc
      → initiate_refund env id again t
        ≡ (err (bad_request "Can only refund successful payments" none), t)
  unfolding initiate_refund check_refund
  refund_closed id again t p true status cast found = ground arith
  refund_closed id again t p false status cast found = ground arith

  -- After a refund that was made, of whatever part of the payment, a further refund of any amount
  -- is refused and changes nothing, at once and in every later state that still stores the payment
  -- as the refund left it.
  pub initiate_refund_again :
      (id : String) (dto again : RefundDto) (s s' t : State env) (p : Stored Payment)
      → initiate_refund env id dto s ≡ (ok p, s')
      → env.payments.find_by_id t.payments p.id ≡ env.payments.find_by_id s'.payments p.id
      → (initiate_refund env id again s'
          ≡ (err (bad_request "Can only refund successful payments" none), s'))
        × (initiate_refund env id again t
            ≡ (err (bad_request "Can only refund successful payments" none), t))
  unfolding initiate_refund check_refund
  initiate_refund_again id dto again s s' t p h kept =
      let (old, r) = initiate_refund-IsRefunded id dto s s' p h in
      (
        refund_closed id again s' p (leb old.amount (old.total_refunded + dto.amount)) r.status
            r.cast (rw (r.payments p.id, str_eq_refl p.id)),
        refund_closed id again t p (leb old.amount (old.total_refunded + dto.amount)) r.status
            r.cast (rw (kept, r.payments p.id, str_eq_refl p.id)),
      )
