-- ===== src/Booking/Steps/Cancellation.antt =====
-- `cancelBooking` takes at most the step of a cancellation, however it ends
-- (src/modules/booking/booking.service.ts).
use bus_booking_backend.Prelude.{
  String, ◌≡◌, refl, ap, sym, ◌∙◌, Bool, Option, some, arith, ◌⊎◌, inl, inr, Option-cases,
}
use bus_booking_backend.Store.{ObjectId, ok, Stored, Result-cases}
use bus_booking_backend.Store.Laws.{update_all}
use bus_booking_backend.Action.{◌>>=◌, >>=_preserves, >>=_keeps_first}
use bus_booking_backend.World.{Env, State}
use bus_booking_backend.Documents.{Booking}
use bus_booking_backend.Locks.{unlock_seats}
use bus_booking_backend.Booking.Cancel.{
  reason_after, set_cancelled, free_marks, cancel_booking, check_cancel, write_cancel,
  announce_cancel,
}
use bus_booking_backend.Booking.Cancel.Outcome.{
  check_cancel_unchanged, check_cancel-IsReadable, IsOpen,
}
use bus_booking_backend.Booking.Steps.{Step, Step-at}

module _ (env : Env) where
  bookings-announce_cancel :
      (id u : String) (reason : Option String) (c b : Stored Booking) (s : State env)
      → (announce_cancel env id u reason c b s).1.bookings ≡ s.bookings
  unfolding announce_cancel unlock_seats
  bookings-announce_cancel id u reason c b s = ground arith

  -- What the writes leave: the bookings as they were, or one of them cancelled.
  write_cancel-cases :
      (u : String) (reason : Option String) (b : Stored Booking) (s : State env)
      → ((write_cancel env u reason b s).1.bookings ≡ s.bookings)
        ⊎ ((by : ObjectId) × (env.bookings.update_by_id s.bookings b.id
                (set_cancelled by reason s.now)
              ≡ ok (write_cancel env u reason b s).1.bookings))
  unfolding write_cancel
  write_cancel-cases u reason b s =
      elim (Result-cases (env.buses.update_by_id s.buses b.doc.bus_id (free_marks env b.doc))) [
        | inr (e, h) ↦ inl (ground arith)
        | inl (c, h) ↦ elim (Option-cases (env.cast_id u)) [
          | inl no_id ↦ inl (ground arith)
          | inr (by, k) ↦
              elim (Result-cases
                (env.bookings.update_by_id s.bookings b.id (set_cancelled by reason s.now))) [
                  | inr (e, l) ↦ inl (ground arith)
                  | inl (c', l) ↦ inr (by, ground arith)
                ]
        ]
      ]

  write_cancel-Step :
      (Fits : ObjectId → Type 0) (u : String) (reason : Option String) (b : Stored Booking)
      (s : State env) (j : ObjectId)
      → env.bookings.find_by_id s.bookings b.id ≡ some b.doc
      → IsOpen b.doc.status
      → Step Fits
          (env.bookings.find_by_id s.bookings j)
          (env.bookings.find_by_id (write_cancel env u reason b s).1.bookings j)
  write_cancel-Step Fits u reason b s j found opened = elim (write_cancel-cases u reason b s) [
    | inl kept ↦ Step.stay (ap (λ c. env.bookings.find_by_id c j) kept)
    | inr (by, w) ↦
        rw
          (update_all env.bookings s.bookings (write_cancel env u reason b s).1.bookings b.id
            (set_cancelled by reason s.now) b.doc w found j)
          (Step-at Fits b.id j (env.bookings.find_by_id s.bookings j)
            (some (set_cancelled by reason s.now b.doc)) (some b.doc) (λ same. rw (← same) found)
            (λ _.
              Step.cancel b.doc by (reason_after reason b.doc.cancellation_reason) s.now opened refl
                refl))
  ]

  -- Whatever the call returns or throws, each booking is as it was, or was pending or confirmed
  -- and is now cancelled.
  pub cancel_booking-Step :
      (Fits : ObjectId → Type 0) (id u : String) (reason : Option String) (admin : Bool)
      (s : State env) (j : ObjectId)
      → Step Fits
          (env.bookings.find_by_id s.bookings j)
          (env.bookings.find_by_id (cancel_booking env id u reason admin s).1.bookings j)
  unfolding cancel_booking
  cancel_booking-Step Fits id u reason admin s j =
      >>=_preserves
        (λ t.
          Step Fits (env.bookings.find_by_id s.bookings j) (env.bookings.find_by_id t.bookings j))
        (check_cancel env id u admin)
        (λ c. write_cancel env u reason c >>= announce_cancel env id u reason c) s
        (rw (check_cancel_unchanged env id u admin s) (Step.stay refl))
        (λ c t e.
          let same : t ≡ s = sym (ap (λ r. r.1) e) ∙ check_cancel_unchanged env id u admin s in
          let k = check_cancel-IsReadable env id u admin s c (ap (λ r. r.0) e) in
          rw
            (
              >>=_keeps_first (λ v. v.bookings) (write_cancel env u reason c)
                  (announce_cancel env id u reason c) (bookings-announce_cancel id u reason c) t,
              same,
            )
            (write_cancel-Step Fits u reason c s j k.found k.cancellable))
