-- ===== src/Lifecycle/Bookings.antt =====
-- What a sequence of calls can do to a booking (src/modules/booking/booking.service.ts,
-- src/modules/payment/payment.service.ts).
use bus_booking_backend.Prelude.{
  ℕ, String, Bool, true, false, ◌≡◌, refl, ap, sym, ◌∙◌, Option, some, arith, some_eq, str_eq_refl,
}
use bus_booking_backend.Store.{ObjectId, Stored}
use bus_booking_backend.Documents.{Booking, BookingStatus, Payment, PaymentStatus}
use bus_booking_backend.World.{Env, State}
use bus_booking_backend.Booking.Confirm.{set_confirmed}
use bus_booking_backend.Booking.Cancel.Outcome.{IsOpen}
use bus_booking_backend.Booking.Steps.{Step}
use bus_booking_backend.Booking.Steps.Creation.{create_booking-Step}
use bus_booking_backend.Booking.Steps.Cancellation.{cancel_booking-Step}
use bus_booking_backend.Payment.Steps.Writes.{bookings-initiate_payment, bookings-initiate_refund}
use bus_booking_backend.Payment.Steps.Verification.{IsPaid, verify_payment-MayPay, MayPay-Step}
use bus_booking_backend.Payment.{verify_payment, set_paid}
use bus_booking_backend.Lifecycle.{Call, Reach}

-- What a booking can become.
abbrev pub may_become : BookingStatus → BookingStatus → Bool
may_become BookingStatus.pending BookingStatus.pending = true
may_become BookingStatus.pending BookingStatus.confirmed = true
may_become BookingStatus.pending BookingStatus.cancelled = true
may_become BookingStatus.confirmed BookingStatus.confirmed = true
may_become BookingStatus.confirmed BookingStatus.cancelled = true
may_become BookingStatus.cancelled BookingStatus.cancelled = true
may_become BookingStatus.refunded BookingStatus.refunded = true
may_become BookingStatus.expired BookingStatus.expired = true
may_become _ _ = false

-- What a payment is once it was made.
abbrev pub is_paid : PaymentStatus → Bool
is_paid PaymentStatus.success = true
is_paid PaymentStatus.refunded = true
is_paid PaymentStatus.partially_refunded = true
is_paid _ = false

-- The terms of a booking stay, its status goes forward, and a payment that is noted stays.
pub record IsLater (b b' : Booking) : Type 0 where
  pub booking_ref : b'.booking_ref ≡ b.booking_ref
  pub user : b'.user_id ≡ b.user_id
  pub bus : b'.bus_id ≡ b.bus_id
  pub passengers : b'.passengers ≡ b.passengers
  pub total_fare : b'.total_fare ≡ b.total_fare
  pub status : may_become b.status b'.status ≡ true

may_become_refl : (x : BookingStatus) → may_become x x ≡ true
may_become_refl x = ground arith

may_become_trans :
    (x y z : BookingStatus) → may_become x y ≡ true → may_become y z ≡ true → may_become x z ≡ true
may_become_trans x y z h k = ground arith

IsLater-refl : (b : Booking) → IsLater b b
IsLater-refl b = record {
  booking_ref = refl;
  user = refl;
  bus = refl;
  passengers = refl;
  total_fare = refl;
  status = may_become_refl b.status;
}

IsLater-trans : (a b c : Booking) → IsLater a b → IsLater b c → IsLater a c
IsLater-trans a b c h k = record {
  booking_ref = k.booking_ref ∙ h.booking_ref;
  user = k.user ∙ h.user;
  bus = k.bus ∙ h.bus;
  passengers = k.passengers ∙ h.passengers;
  total_fare = k.total_fare ∙ h.total_fare;
  status = may_become_trans a.status b.status c.status h.status k.status;
}

confirmed-IsLater :
    (b : Booking) (payment : ObjectId)
    → b.status ≡ BookingStatus.pending
    → IsLater b (set_confirmed payment b)
confirmed-IsLater b payment h = record {
  booking_ref = refl;
  user = refl;
  bus = refl;
  passengers = refl;
  total_fare = refl;
  status = rw h refl;
}

open_may_be_cancelled : (x : BookingStatus) → IsOpen x → may_become x BookingStatus.cancelled ≡ true
open_may_be_cancelled x h = ground arith

-- A booking that was cancelled, with whatever reason is now stored.
abbrev pub cancelled : (by : ObjectId) → (reason : Option String) → (now : ℕ) → Booking → Booking
cancelled by reason now b = record b {
  status = BookingStatus.cancelled;
  cancellation_reason = reason;
  cancelled_at = some now;
  cancelled_by = some by;
}

cancelled-IsLater :
    (b : Booking) (by : ObjectId) (reason : Option String) (now : ℕ)
    → IsOpen b.status
    → IsLater b (cancelled by reason now b)
cancelled-IsLater b by reason now h = record {
  booking_ref = refl;
  user = refl;
  bus = refl;
  passengers = refl;
  total_fare = refl;
  status = open_may_be_cancelled b.status h;
}

-- A step keeps a booking, and makes it later.
pub Step-IsLater :
    (Fits : ObjectId → Type 0) (o o' : Option Booking) (b : Booking)
    → Step Fits o o'
    → o ≡ some b
    → (b' : Booking) × (o' ≡ some b') × IsLater b b'
Step-IsLater Fits o o' b (Step.stay same) h = (b, same ∙ h, IsLater-refl b)
Step-IsLater Fits o o' b (Step.begin c _ _ _ e _) h = cc
Step-IsLater Fits o o' b (Step.confirm c payment _ pending e e') h =
    let same : c ≡ b = some_eq (sym e ∙ h) in
    (set_confirmed payment b, rw same at e', confirmed-IsLater b payment (rw same at pending))
Step-IsLater Fits o o' b (Step.cancel c by reason now opened e e') h =
    let same : c ≡ b = some_eq (sym e ∙ h) in
    (
      cancelled by reason now b,
      rw same at e',
      cancelled-IsLater b by reason now (rw same at opened),
    )

module _ (env : Env) where
  -- A payment that is stored as a success for a booking.
  abbrev pub IsPaidFor : State env → ObjectId → ObjectId → Type 0
  IsPaidFor s j p =
      (q : Payment) × (env.payments.find_by_id s.payments p ≡ some q)
      × (q.status ≡ PaymentStatus.success)
      × (env.cast_id q.booking_id ≡ some j)

  verified-IsPaidFor :
      (s s' : State env) (id reference u : String) (j : ObjectId) (p : Stored Payment)
      → IsPaid env s id reference u s' p
      → env.cast_id p.doc.booking_id ≡ some j
      → IsPaidFor s' j p.id
  verified-IsPaidFor s s' id reference u j p k cast =
      (set_paid reference s.now p.doc, rw (k.payments p.id, str_eq_refl p.id) refl, refl, cast)

  -- Each call of the two services, with any arguments and however it ends, takes at most one step
  -- of the life of each stored booking: a creation where none was, a confirmation of a pending one
  -- with a payment for it that is now stored as a success, or a cancellation of one that was
  -- pending or confirmed.
  pub Call-Step :
      (s s' : State env) (j : ObjectId)
      → Call env s s'
      → Step
          (IsPaidFor s' j)
          (env.bookings.find_by_id s.bookings j)
          (env.bookings.find_by_id s'.bookings j)
  Call-Step s s' j (Call.create dto u ten e) = rw e (create_booking-Step env _ dto u ten s j)
  Call-Step s s' j (Call.cancel id u reason admin e) =
      rw e (cancel_booking-Step env _ id u reason admin s j)
  Call-Step s s' j (Call.initiate dto u ten e) = Step.stay (
      ap (λ t. env.bookings.find_by_id t.bookings j) e
      ∙ ap (λ c. env.bookings.find_by_id c j) (bookings-initiate_payment env dto u ten s))
  Call-Step s s' j (Call.verify id reference u e) = rw e (
      let t = (verify_payment env id reference u s).1 in
      MayPay-Step env (IsPaidFor t j) s id reference u t j
        (λ p k cast. verified-IsPaidFor s t id reference u j p k cast)
        (verify_payment-MayPay env id reference u s))
  Call-Step s s' j (Call.refund id dto e) = Step.stay (
      ap (λ t. env.bookings.find_by_id t.bookings j) e
      ∙ ap (λ c. env.bookings.find_by_id c j) (bookings-initiate_refund env id dto s))
  Call-Step s s' j (Call.wait time _ e) =
      Step.stay (ap (λ t. env.bookings.find_by_id t.bookings j) e)

  -- After any sequence of calls a stored booking is still there, with the same reference, user,
  -- bus, passengers and fare, and with a status that its old one may become: never pending again,
  -- and never anything but cancelled once it is cancelled.
  pub Reach-IsLater :
      (s s' : State env) (j : ObjectId) (b : Booking)
      → Reach env s s'
      → env.bookings.find_by_id s.bookings j ≡ some b
      → (b' : Booking) × (env.bookings.find_by_id s'.bookings j ≡ some b') × IsLater b b'
  Reach-IsLater s s' j b Reach.start h = (b, h, IsLater-refl b)
  Reach-IsLater s s' j b (Reach.call {t} before c) h =
      let (d, k, earlier) = Reach-IsLater s t j b before h in
      let (e, l, later) =
        Step-IsLater (IsPaidFor s' j) (env.bookings.find_by_id t.bookings j)
          (env.bookings.find_by_id s'.bookings j) d (Call-Step t s' j c) k in
      (e, l, IsLater-trans b d e earlier later)
