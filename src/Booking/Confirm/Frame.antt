-- ===== src/Booking/Confirm/Frame.antt =====
-- What `confirmBooking` leaves alone, however it ends (src/modules/booking/booking.service.ts).
use bus_booking_backend.Prelude.{String, ◌≡◌, ap, arith}
use bus_booking_backend.Store.{Stored}
use bus_booking_backend.Documents.{Booking, Bus}
use bus_booking_backend.Action.{>>=_keeps, ◌>>=◌}
use bus_booking_backend.World.{Env, State}
use bus_booking_backend.Locks.{unlock_seats}
use bus_booking_backend.Booking.Confirm.{
  confirm_booking, check_confirm, write_confirm, announce_confirm,
}
use bus_booking_backend.Booking.Confirm.Outcome.{check_confirm_unchanged}

module _ (env : Env) where
  payments-write_confirm :
      (pay : String) (c : Stored Booking × Bus) (s : State env)
      → (write_confirm env pay c s).1.payments ≡ s.payments
  unfolding write_confirm
  payments-write_confirm pay (b, bus) s = ground arith

  payments-announce_confirm :
      (id pay : String) (b : Stored Booking) (s : State env)
      → (announce_confirm env id pay b s).1.payments ≡ s.payments
  unfolding announce_confirm unlock_seats
  payments-announce_confirm id pay b s = ground arith

  -- No payment changes.
  pub payments-confirm_booking :
      (id pay : String) (s : State env) → (confirm_booking env id pay s).1.payments ≡ s.payments
  unfolding confirm_booking
  payments-confirm_booking id pay s =
      >>=_keeps (λ t. t.payments) (check_confirm env id)
        (λ c. write_confirm env pay c >>= announce_confirm env id pay)
        (λ t. ap (λ r. r.payments) (check_confirm_unchanged env id t))
        (λ c.
          >>=_keeps (λ t. t.payments) (write_confirm env pay c) (announce_confirm env id pay)
            (payments-write_confirm pay c) (payments-announce_confirm id pay))
        s
