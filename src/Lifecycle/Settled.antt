-- ===== src/Lifecycle/Settled.antt =====
-- Bookings and payments agree, whatever is called (src/modules/booking/booking.service.ts,
-- src/modules/payment/payment.service.ts).
use bus_booking_backend.Prelude.{
  Bool, true, false, not, ◌||◌, ◌≡◌, refl, ap, sym, ◌∙◌, Option, none, some, arith, some_eq, subst,
  is_some,
}
use bus_booking_backend.Store.{ObjectId}
use bus_booking_backend.Documents.{Booking, BookingStatus, Payment}
use bus_booking_backend.World.{Env, State}
use bus_booking_backend.Booking.Confirm.{set_confirmed}
use bus_booking_backend.Booking.Steps.{Step}
use bus_booking_backend.Payment.Balance.{OnSome, on_some}
use bus_booking_backend.Payment.Steps.{PaymentStep}
use bus_booking_backend.Lifecycle.{Call, Reach}
use bus_booking_backend.Lifecycle.Bookings.{is_paid, cancelled, IsPaidFor, Step-IsLater, Call-Step}
use bus_booking_backend.Lifecycle.Payments.{
  IsLaterPayment, PaymentStep-IsLaterPayment, Call-PaymentStep,
}

-- `=== 'confirmed'`
abbrev is_confirmed : BookingStatus → Bool
is_confirmed BookingStatus.confirmed = true
is_confirmed _ = false

-- A confirmed booking has a payment.
abbrev pub has_payment : Booking → Bool
has_payment b = not (is_confirmed b.status) || is_some b.payment_id

module _ (env : Env) where
  -- A payment is for the whole fare of a stored booking.
  abbrev pub IsMatched : State env → Payment → Type 0
  IsMatched s q =
      (b : Booking) × (env.cast_id q.booking_id ≡ some q.booking_id)
      × (env.bookings.find_by_id s.bookings q.booking_id ≡ some b)
      × (q.amount ≡ b.total_fare)

  -- The payment that a booking notes was made, for this booking and for its whole fare.
  abbrev pub IsCovered : State env → ObjectId → Booking → ObjectId → Type 0
  IsCovered s j b p =
      (q : Payment) × (env.payments.find_by_id s.payments p ≡ some q)
      × (q.booking_id ≡ j)
      × (q.amount ≡ b.total_fare)
      × (is_paid q.status ≡ true)

  abbrev pub IsSettled : State env → ObjectId → Booking → Type 0
  IsSettled s j b = (has_payment b ≡ true) × OnSome (IsCovered s j b) b.payment_id

  -- Each stored payment is for the whole fare of a stored booking, each confirmed booking has a
  -- payment, and each payment that a booking notes was made for it.
  pub record AllSettled (s : State env) : Type 0 where
    pub matched : (i : ObjectId) → OnSome (IsMatched s) (env.payments.find_by_id s.payments i)
    pub settled : (j : ObjectId) → OnSome (IsSettled s j) (env.bookings.find_by_id s.bookings j)

  -- A later state of the bookings keeps a match.
  IsMatched-later :
      (s s' : State env) (q q' : Payment)
      → Call env s s'
      → IsLaterPayment q q'
      → IsMatched s q
      → IsMatched s' q'
  IsMatched-later s s' q q' c later (b, canonical, found, amount) =
      let (b', found', k) =
        Step-IsLater (IsPaidFor env s' q.booking_id)
          (env.bookings.find_by_id s.bookings q.booking_id)
          (env.bookings.find_by_id s'.bookings q.booking_id) b (Call-Step env s s' q.booking_id c)
          found in
      (
        b',
        rw later.booking canonical,
        rw later.booking found',
        later.amount ∙ amount ∙ sym k.total_fare,
      )

  later_refl : (q : Payment) → IsLaterPayment q q
  later_refl q = record { user = refl; booking = refl; amount = refl; paid = ground arith }

  PaymentStep-IsMatched :
      (s s' : State env) (o o' : Option Payment)
      → Call env s s'
      → PaymentStep env s o o'
      → OnSome (IsMatched s) o
      → (q' : Payment) → o' ≡ some q'
      → IsMatched s' q'
  PaymentStep-IsMatched s s' o o' c (PaymentStep.stay same) h q' e =
      IsMatched-later s s' q' q' c (later_refl q') (subst (OnSome (IsMatched s)) (sym same ∙ e) h)
  PaymentStep-IsMatched s s' o o' c (PaymentStep.initiate q b k _ _ _ _ e') h q' e =
      let same : q ≡ q' = some_eq (sym e' ∙ e) in
      IsMatched-later s s' q' q' c (later_refl q')
        (subst (IsMatched s) same (b, k.canonical, k.found, k.amount))
  PaymentStep-IsMatched s s' o o' c (PaymentStep.pay q reference now unpaid e e') h q' e'' =
      let (r, f, later) =
        PaymentStep-IsLaterPayment env s o o' q (PaymentStep.pay q reference now unpaid e e') e in
      IsMatched-later s s' q q' c (rw (some_eq (sym f ∙ e'')) at later)
        (subst (OnSome (IsMatched s)) e h)
  PaymentStep-IsMatched s s' o o' c (PaymentStep.refund q dto now success enough e e') h q' e'' =
      let (r, f, later) =
        PaymentStep-IsLaterPayment env s o o' q (PaymentStep.refund q dto now success enough e e')
          e in
      IsMatched-later s s' q q' c (rw (some_eq (sym f ∙ e'')) at later)
        (subst (OnSome (IsMatched s)) e h)

  -- A call keeps the payment that a booking notes.
  IsCovered-later :
      (s s' : State env) (j : ObjectId) (b b' : Booking) (p : ObjectId)
      → Call env s s'
      → b'.total_fare ≡ b.total_fare
      → IsCovered s j b p
      → IsCovered s' j b' p
  IsCovered-later s s' j b b' p c fare (q, found, booking, amount, paid) =
      let (q', found', later) =
        PaymentStep-IsLaterPayment env s (env.payments.find_by_id s.payments p)
          (env.payments.find_by_id s'.payments p) q (Call-PaymentStep env s s' p c) found in
      let still = later.paid in
      (q', found', later.booking ∙ booking, later.amount ∙ amount ∙ sym fare, ground arith)

  IsCovered-map :
      (s s' : State env) (j : ObjectId) (b b' : Booking) (o : Option ObjectId)
      → Call env s s'
      → b'.total_fare ≡ b.total_fare
      → OnSome (IsCovered s j b) o
      → OnSome (IsCovered s' j b') o
  IsCovered-map s s' j b b' none c fare h = tt
  IsCovered-map s s' j b b' (some p) c fare h = IsCovered-later s s' j b b' p c fare h

  -- What is now paid for a booking that is stored covers it.
  IsPaidFor-IsCovered :
      (s : State env) (j p : ObjectId) (b : Booking)
      → ((i : ObjectId) → OnSome (IsMatched s) (env.payments.find_by_id s.payments i))
      → env.bookings.find_by_id s.bookings j ≡ some b
      → IsPaidFor env s j p
      → IsCovered s j b p
  IsPaidFor-IsCovered s j p b matched at_j (q, found, paid, cast) =
      let (b', canonical, at_booking, amount) = subst (OnSome (IsMatched s)) found (matched p) in
      let same : q.booking_id ≡ j = some_eq (sym canonical ∙ cast) in
      let same_booking : b' ≡ b =
        some_eq (sym at_booking ∙ ap (env.bookings.find_by_id s.bookings) same ∙ at_j) in
      (q, found, same, amount ∙ ap (λ d. d.total_fare) same_booking, ap is_paid paid)

  Step-IsSettled :
      (s s' : State env) (j : ObjectId) (o o' : Option Booking)
      → Call env s s'
      → ((i : ObjectId) → OnSome (IsMatched s') (env.payments.find_by_id s'.payments i))
      → Step (IsPaidFor env s' j) o o'
      → env.bookings.find_by_id s'.bookings j ≡ o'
      → OnSome (IsSettled s j) o
      → (b' : Booking) → o' ≡ some b'
      → IsSettled s' j b'
  Step-IsSettled s s' j o o' c matched (Step.stay same) at h b' e =
      let (has, covered) = subst (OnSome (IsSettled s j)) (sym same ∙ e) h in
      (has, IsCovered-map s s' j b' b' b'.payment_id c refl covered)
  Step-IsSettled s s' j o o' c matched (Step.begin b pending unpaid _ _ e') at h b' e =
      let same : b ≡ b' = some_eq (sym e' ∙ e) in
      subst (IsSettled s' j) same (rw pending refl, rw unpaid tt)
  Step-IsSettled s s' j o o' c matched (Step.confirm b p fits _ e e') at h b' e'' =
      let same : set_confirmed p b ≡ b' = some_eq (sym e' ∙ e'') in
      subst (IsSettled s' j) same
        (refl, IsPaidFor-IsCovered s' j p (set_confirmed p b) matched (at ∙ e') fits)
  Step-IsSettled s s' j o o' c matched (Step.cancel b by reason now _ e e') at h b' e'' =
      let (_, covered) = subst (OnSome (IsSettled s j)) e h in
      let same : cancelled by reason now b ≡ b' = some_eq (sym e' ∙ e'') in
      subst (IsSettled s' j) same
        (refl, IsCovered-map s s' j b (cancelled by reason now b) b.payment_id c refl covered)

  Call-AllSettled : (s s' : State env) → Call env s s' → AllSettled s → AllSettled s'
  Call-AllSettled s s' c k =
      let matched : (i : ObjectId) → OnSome (IsMatched s') (env.payments.find_by_id s'.payments i) =
        λ i. on_some (IsMatched s') (env.payments.find_by_id s'.payments i) (
          PaymentStep-IsMatched s s' (env.payments.find_by_id s.payments i)
            (env.payments.find_by_id s'.payments i) c (Call-PaymentStep env s s' i c)
            (k.matched i)) in
      record {
        matched = matched;
        settled = λ j. on_some (IsSettled s' j) (env.bookings.find_by_id s'.bookings j) (
            Step-IsSettled s s' j (env.bookings.find_by_id s.bookings j)
              (env.bookings.find_by_id s'.bookings j) c matched (Call-Step env s s' j c) refl
              (k.settled j));
      }

  -- After any sequence of calls, if it was so before: each stored payment is for the whole fare of
  -- a stored booking; each confirmed booking has a payment; and the payment that a booking notes
  -- is stored, was made, and is for this booking and its whole fare.
  pub Reach-AllSettled : (s s' : State env) → Reach env s s' → AllSettled s → AllSettled s'
  Reach-AllSettled s s' Reach.start k = k
  Reach-AllSettled s s' (Reach.call {t} before c) k =
      Call-AllSettled t s' c (Reach-AllSettled s t before k)
