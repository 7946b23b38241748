-- ===== src/Booking/Steps/Confirmation.antt =====
-- `confirmBooking` takes at most the step of a confirmation, however it ends
-- (src/modules/booking/booking.service.ts).
use bus_booking_backend.Prelude.{
  String, ◌≡◌, refl, ap, sym, ◌∙◌, some, arith, str_eq, if◌then◌else◌, ◌⊎◌, inl, inr, Option-cases,
}
use bus_booking_backend.Store.{ObjectId, ok, Stored, Result-cases}
use bus_booking_backend.Store.Laws.{update_all}
use bus_booking_backend.Action.{◌>>=◌, >>=_preserves, >>=_keeps_first}
use bus_booking_backend.World.{Env, State}
use bus_booking_backend.Documents.{Booking, Bus, BookingStatus}
use bus_booking_backend.Locks.{unlock_seats}
use bus_booking_backend.Booking.Confirm.{
  set_confirmed, book_marks, confirm_booking, check_confirm, write_confirm, announce_confirm,
}
use bus_booking_backend.Booking.Confirm.Outcome.{
  check_confirm_unchanged, IsReadable, check_confirm-IsReadable,
}
use bus_booking_backend.Booking.Steps.{Step, Step-at}

module _ (env : Env) where
  bookings-announce_confirm :
      (id pay : String) (b : Stored Booking) (s : State env)
      → (announce_confirm env id pay b s).1.bookings ≡ s.bookings
  unfolding announce_confirm unlock_seats
  bookings-announce_confirm id pay b s = ground arith

  -- A booking was confirmed with a payment, and no other booking has changed.
  pub record IsMade (s : State env) (id pay : String) (s' : State env) (i payment : ObjectId)
      (b : Booking) : Type 0 where
    pub cast_booking : env.cast_id id ≡ some i
    pub cast_payment : env.cast_id pay ≡ some payment
    pub found : env.bookings.find_by_id s.bookings i ≡ some b
    pub pending : b.status ≡ BookingStatus.pending
    pub bookings :
        (j : ObjectId)
        → env.bookings.find_by_id s'.bookings j ≡ (
            if str_eq i j
            then some (set_confirmed payment b)
            else env.bookings.find_by_id s.bookings j)

  -- What a confirmation leaves: the bookings as they were, or one of them confirmed.
  abbrev pub MayConfirm : State env → String → String → State env → Type 0
  MayConfirm s id pay s' =
      (s'.bookings ≡ s.bookings)
      ⊎ ((i payment : ObjectId) × (b : Booking) × IsMade s id pay s' i payment b)

  write_confirm-cases :
      (pay : String) (b : Stored Booking) (bus : Bus) (s : State env)
      → ((write_confirm env pay (b, bus) s).1.bookings ≡ s.bookings)
        ⊎ ((payment : ObjectId) × (env.cast_id pay ≡ some payment)
            × (env.bookings.update_by_id s.bookings b.id (set_confirmed payment)
                ≡ ok (write_confirm env pay (b, bus) s).1.bookings))
  unfolding write_confirm
  write_confirm-cases pay b bus s =
      elim (Result-cases (env.buses.update_by_id s.buses b.doc.bus_id (book_marks env b.doc bus))) [
        | inr (e, h) ↦ inl (ground arith)
        | inl (c, h) ↦ elim (Option-cases (env.cast_id pay)) [
          | inl no_id ↦ inl (ground arith)
          | inr (payment, k) ↦
              elim (Result-cases
                (env.bookings.update_by_id s.bookings b.id (set_confirmed payment))) [
                  | inr (e, l) ↦ inl (ground arith)
                  | inl (c', l) ↦ inr (payment, k, ground arith)
                ]
        ]
      ]

  write_confirm-MayConfirm :
      (id pay : String) (c : Stored Booking × Bus) (s : State env)
      → IsReadable env s id c
      → MayConfirm s id pay (write_confirm env pay c s).1
  write_confirm-MayConfirm id pay (b, bus) s k = elim (write_confirm-cases pay b bus s) [
    | inl kept ↦ inl kept
    | inr (payment, cast, w) ↦ inr (
      b.id,
      payment,
      b.doc,
      record {
        cast_booking = k.cast_booking;
        cast_payment = cast;
        found = k.found;
        pending = k.pending;
        bookings =
            update_all env.bookings s.bookings (write_confirm env pay (b, bus) s).1.bookings b.id
              (set_confirmed payment) b.doc w k.found;
      },
    )
  ]

  -- What may happen to the bookings depends on nothing else of the states.
  pub same_bookings :
      (s s' : State env) (id pay : String) (t t' : State env)
      → s'.bookings ≡ s.bookings
      → t'.bookings ≡ t.bookings
      → MayConfirm s id pay t
      → MayConfirm s' id pay t'
  same_bookings s s' id pay t t' before after (inl kept) = inl (after ∙ kept ∙ sym before)
  same_bookings s s' id pay t t' before after (inr (i, payment, b, k)) = inr (
    i,
    payment,
    b,
    record {
      cast_booking = k.cast_booking;
      cast_payment = k.cast_payment;
      found = rw before k.found;
      pending = k.pending;
      bookings = λ j. rw (after, before) (k.bookings j);
    },
  )

  pub confirm_booking-MayConfirm :
      (id pay : String) (s : State env) → MayConfirm s id pay (confirm_booking env id pay s).1
  unfolding confirm_booking
  confirm_booking-MayConfirm id pay s =
      >>=_preserves (MayConfirm s id pay) (check_confirm env id)
        (λ c. write_confirm env pay c >>= announce_confirm env id pay) s
        (inl (ap (λ t. t.bookings) (check_confirm_unchanged env id s)))
        (λ c t e.
          let same : t ≡ s = sym (ap (λ r. r.1) e) ∙ check_confirm_unchanged env id s in
          let k = check_confirm-IsReadable env id s c (ap (λ r. r.0) e) in
          rw same (
            same_bookings s s id pay (write_confirm env pay c s).1
              ((write_confirm env pay c >>= announce_confirm env id pay) s).1 refl
              (>>=_keeps_first (λ v. v.bookings) (write_confirm env pay c)
                (announce_confirm env id pay) (bookings-announce_confirm id pay) s)
              (write_confirm-MayConfirm id pay c s k)))

  -- Whatever the call returns or throws, each booking is as it was, or was pending and is now
  -- confirmed.
  pub MayConfirm-Step :
      (Fits : ObjectId → Type 0) (s : State env) (id pay : String) (s' : State env) (j : ObjectId)
      → ((payment : ObjectId)
          → env.cast_id id ≡ some j
          → env.cast_id pay ≡ some payment
          → Fits payment)
      → MayConfirm s id pay s'
      → Step Fits (env.bookings.find_by_id s.bookings j) (env.bookings.find_by_id s'.bookings j)
  MayConfirm-Step Fits s id pay s' j fits (inl kept) =
      Step.stay (ap (λ c. env.bookings.find_by_id c j) kept)
  MayConfirm-Step Fits s id pay s' j fits (inr (i, payment, b, k)) = rw (k.bookings j) (
      Step-at Fits i j (env.bookings.find_by_id s.bookings j) (some (set_confirmed payment b))
        (some b) (λ same. rw (← same) k.found)
        (λ same.
          Step.confirm b payment (fits payment (rw (← same) k.cast_booking) k.cast_payment)
            k.pending refl refl))
