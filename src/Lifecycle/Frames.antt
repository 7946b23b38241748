-- ===== src/Lifecycle/Frames.antt =====
-- Creating and cancelling a booking leaves the payments alone
-- (src/modules/booking/booking.service.ts).
use bus_booking_backend.Prelude.{String, inl, inr, Bool, Option, ◌≡◌, arith, ap}
use bus_booking_backend.Store.{Stored}
use bus_booking_backend.Action.{◌>>=◌, >>=_keeps}
use bus_booking_backend.World.{Env, State}
use bus_booking_backend.Documents.{Booking}
use bus_booking_backend.Locks.{unlock_seats}
use bus_booking_backend.Booking.Create.{
  CreateBookingDto, Checked, check_request, reserve, save_booking, create_booking,
}
use bus_booking_backend.Booking.Steps.Creation.{lock_seats-cases}
use bus_booking_backend.Booking.Create.Outcome.{check_request_unchanged}
use bus_booking_backend.Booking.Cancel.{cancel_booking, check_cancel, write_cancel, announce_cancel}
use bus_booking_backend.Booking.Cancel.Outcome.{check_cancel_unchanged}

module _ (env : Env) where
  payments-save_booking :
      (dto : CreateBookingDto) (ten : Option String) (c : Checked) (s : State env)
      → (save_booking env dto c ten s).1.payments ≡ s.payments
  unfolding save_booking
  payments-save_booking dto ten c s = ground arith

  payments-reserve :
      (dto : CreateBookingDto) (u : String) (ten : Option String) (c : Checked) (s : State env)
      → (reserve env dto u ten c s).1.payments ≡ s.payments
  unfolding reserve unlock_seats
  payments-reserve dto u ten c s = elim (lock_seats-cases env dto.bus_id c.seats u s) [
    | inl held ↦ ground arith
    | inr (r, free) ↦
        let kept = payments-save_booking dto ten c (record s { redis = r }) in ground arith
  ]

  pub payments-create_booking :
      (dto : CreateBookingDto) (u : String) (ten : Option String) (s : State env)
      → (create_booking env dto u ten s).1.payments ≡ s.payments
  unfolding create_booking
  payments-create_booking dto u ten s =
      >>=_keeps (λ t. t.payments) (check_request env dto u) (reserve env dto u ten)
        (λ t. ap (λ v. v.payments) (check_request_unchanged env dto u t))
        (payments-reserve dto u ten) s

  payments-write_cancel :
      (u : String) (reason : Option String) (b : Stored Booking) (s : State env)
      → (write_cancel env u reason b s).1.payments ≡ s.payments
  unfolding write_cancel
  payments-write_cancel u reason b s = ground arith

  payments-announce_cancel :
      (id u : String) (reason : Option String) (c b : Stored Booking) (s : State env)
      → (announce_cancel env id u reason c b s).1.payments ≡ s.payments
  unfolding announce_cancel unlock_seats
  payments-announce_cancel id u reason c b s = ground arith

  pub payments-cancel_booking :
      (id u : String) (reason : Option String) (admin : Bool) (s : State env)
      → (cancel_booking env id u reason admin s).1.payments ≡ s.payments
  unfolding cancel_booking
  payments-cancel_booking id u reason admin s =
      >>=_keeps (λ t. t.payments) (check_cancel env id u admin)
        (λ c. write_cancel env u reason c >>= announce_cancel env id u reason c)
        (λ t. ap (λ v. v.payments) (check_cancel_unchanged env id u admin t))
        (λ c.
          >>=_keeps (λ t. t.payments) (write_cancel env u reason c)
            (announce_cancel env id u reason c) (payments-write_cancel u reason c)
            (payments-announce_cancel id u reason c))
        s
