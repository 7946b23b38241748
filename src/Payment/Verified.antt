-- ===== src/Payment/Verified.antt =====
-- What `verifyPayment` has done when it returns, and what it leaves behind when it throws
-- (src/modules/payment/payment.service.ts).
use bus_booking_backend.Prelude.{
  String, str_eq, if◌then◌else◌, ◌≡◌, ◌≢◌, sym, ◌∙◌, arith, none, some, ◌<>◌, eq_iff, ap,
  str_eq_refl,
}
use bus_booking_backend.Errors.{bad_request}
use bus_booking_backend.Store.{ObjectId, Stored, ok, err}
use bus_booking_backend.Store.Laws.{update_all}
use bus_booking_backend.Action.{>>=-eq-ok, ◌>>=◌, ◌>>◌}
use bus_booking_backend.Documents.{Payment, PaymentStatus, Booking, BookingStatus, status_text}
use bus_booking_backend.World.{Env, State}
use bus_booking_backend.Booking.Confirm.{confirm_booking, set_confirmed}
use bus_booking_backend.Booking.Confirm.Outcome.{
  IsConfirmed, confirm_booking-IsConfirmed, confirm_booking_refused,
}
use bus_booking_backend.Booking.Confirm.Frame.{payments-confirm_booking}
use bus_booking_backend.Payment.{verify_payment, check_verify, save_paid, announce_paid, set_paid}
use bus_booking_backend.Payment.Balance.{IsUnpaid, check_verify-IsUnpaid}

module _ (env : Env) where
  -- A payment was verified, and its booking confirmed.
  pub record IsVerified (s : State env) (id reference u : String) (p : Stored Payment)
      (s' : State env) (old : Payment) (booking : Booking) (i payment : ObjectId) : Type 0 where
    pub found : env.payments.find_by_id s.payments p.id ≡ some old
    pub own : old.user_id ≡ u
    pub unpaid : old.status ≢ PaymentStatus.success
    pub doc : p.doc ≡ set_paid reference s.now old
    pub payments :
        (j : ObjectId)
        → env.payments.find_by_id s'.payments j
          ≡ (if str_eq p.id j then some p.doc else env.payments.find_by_id s.payments j)
    pub cast_booking : env.cast_id old.booking_id ≡ some i
    pub cast_payment : env.cast_id p.id ≡ some payment
    pub pending :
        (env.bookings.find_by_id s.bookings i ≡ some booking)
        × (booking.status ≡ BookingStatus.pending)
    pub bookings :
        (j : ObjectId)
        → env.bookings.find_by_id s'.bookings j ≡ (
            if str_eq i j
            then some (set_confirmed payment booking)
            else env.bookings.find_by_id s.bookings j)

  pub record IsSaved (s : State env) (reference : String) (old p : Stored Payment) (t : State env)
      : Type 0 where
    pub payment : p ≡ record old { doc = set_paid reference s.now old.doc }
    pub payment_write :
        env.payments.update_by_id s.payments old.id (set_paid reference s.now) ≡ ok t.payments
    pub bookings : t.bookings ≡ s.bookings

  pub save_paid-IsSaved :
      (reference : String) (old p : Stored Payment) (s t : State env)
      → save_paid env reference old s ≡ (ok p, t)
      → IsSaved s reference old p t
  unfolding save_paid
  save_paid-IsSaved reference old p s t h = ground arith

  announce_paid_same :
      (u : String) (q p : Stored Payment) (s s' : State env)
      → announce_paid env u q s ≡ (ok p, s')
      → (p ≡ q) × (s'.payments ≡ s.payments) × (s'.bookings ≡ s.bookings)
  unfolding announce_paid
  announce_paid_same u q p s s' h = ground arith

  verified :
      (id reference u : String) (s v x s' : State env) (old q p : Stored Payment)
      (b : Stored Booking) (before : Booking) (payment : ObjectId)
      → IsUnpaid env s id u old
      → IsSaved s reference old q v
      → IsConfirmed env v q.doc.booking_id q.id b x before payment
      → x.payments ≡ v.payments
      → announce_paid env u q x ≡ (ok p, s')
      → IsVerified s id reference u p s' old.doc before b.id payment
  verified id reference u s v x s' old q p b before payment k w c kept h =
      let (last, payments, bookings) = announce_paid_same u q p x s' h in
      let whole : p ≡ record old { doc = set_paid reference s.now old.doc } = last ∙ w.payment in
      let from_cast : env.cast_id old.doc.booking_id ≡ some b.id =
        ap (λ r. env.cast_id r.doc.booking_id) (sym w.payment) ∙ c.cast_booking in
      record {
        found = rw whole k.found;
        own = k.own;
        unpaid = k.unpaid;
        doc = ap (λ r. r.doc) whole;
        payments = λ j.
            rw (whole, payments, kept)
              (update_all env.payments s.payments v.payments old.id (set_paid reference s.now)
                old.doc w.payment_write k.found j);
        cast_booking = from_cast;
        cast_payment = rw last c.cast_payment;
        pending = (rw w.bookings at c.found, c.pending);
        bookings = λ j. rw (bookings, ← w.bookings, ← c.doc) (c.bookings j);
      }

  -- A payment that `verifyPayment` returns is the caller's own, was not yet a success and is now,
  -- with the reference and the time; its booking was pending and is now confirmed with this
  -- payment; no other payment and no other booking has changed.
  pub verify_payment-IsVerified :
      (id reference u : String) (s s' : State env) (p : Stored Payment)
      → verify_payment env id reference u s ≡ (ok p, s')
      → (old : Payment) × (booking : Booking) × (i payment : ObjectId) × IsVerified s id reference u
          p s' old booking i payment
  unfolding verify_payment
  verify_payment-IsVerified id reference u s s' p h =
      let (old, t, e, h') =
        >>=-eq-ok (check_verify env id u)
          (λ p. save_paid env reference p >>= λ q.
            confirm_booking env q.doc.booking_id q.id >> announce_paid env u q)
          s s' p h in
      let (k, same) = check_verify-IsUnpaid env id u s t old e in
      let (q, v, e', h'') =
        >>=-eq-ok (save_paid env reference old)
          (λ q. confirm_booking env q.doc.booking_id q.id >> announce_paid env u q) t s' p h' in
      let w = save_paid-IsSaved reference old q s v (rw same at e') in
      let (b, x, e'', h''') =
        >>=-eq-ok (confirm_booking env q.doc.booking_id q.id) (λ _. announce_paid env u q) v s' p
          h'' in
      let (before, payment, c) = confirm_booking-IsConfirmed env q.doc.booking_id q.id v x b e'' in
      let kept : x.payments ≡ v.payments =
        sym (ap (λ r. r.1.payments) e'') ∙ payments-confirm_booking env q.doc.booking_id q.id v in
      (
        old.doc,
        before,
        b.id,
        payment,
        verified id reference u s v x s' old q p b before payment k w c kept h''',
      )

  -- A payment is saved as a success before its booking is confirmed: for the caller's own payment
  -- that is no success yet, and whose update is accepted, the call throws where the booking is not
  -- pending, and the payment stays a success.
  pub verify_payment_strands :
      (id reference u : String) (s : State env) (p : Stored Payment) (b : Booking) (i : ObjectId)
      (c : env.payments.Coll)
      → env.cast_id id ≡ some p.id
      → env.payments.find_by_id s.payments p.id ≡ some p.doc
      → p.doc.user_id ≡ u
      → p.doc.status ≢ PaymentStatus.success
      → env.payments.update_by_id s.payments p.id (set_paid reference s.now) ≡ ok c
      → env.cast_id p.doc.booking_id ≡ some i
      → env.bookings.find_by_id s.bookings i ≡ some b
      → b.status ≢ BookingStatus.pending
      → (verify_payment env id reference u s ≡ (
        err (bad_request ("Cannot confirm booking with status: " <> status_text b.status) none),
        record s { payments = c },
      ))
        × (env.payments.find_by_id c p.id ≡ some (set_paid reference s.now p.doc))
  unfolding verify_payment check_verify save_paid
  verify_payment_strands id reference u s p b i c k f own unpaid w at found closed =
      let refused =
        confirm_booking_refused env p.doc.booking_id p.id i (record s { payments = c }) b at found
          closed in
      (
        ground (arith, refused, eq_iff p.doc.user_id u),
        rw (
          update_all env.payments s.payments c p.id (set_paid reference s.now) p.doc w f p.id,
          str_eq_refl p.id,
        ),
      )
