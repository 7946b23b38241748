-- ===== src/Tests/Payments.antt =====
-- The payment service at concrete inputs.
use bus_booking_backend.Prelude.{◌≡◌, refl, none, some, [], ◌∷◌}
use bus_booking_backend.Errors.{bad_request, conflict}
use bus_booking_backend.Store.{ObjectId, Stored, ok, err}
use bus_booking_backend.Documents.{Booking, BookingStatus, Payment, PaymentMethod}
use bus_booking_backend.World.{State}
use bus_booking_backend.Locks.{unlock_seats}
use bus_booking_backend.Booking.Seats.{find_index, modify_at, set_at, set_all, indices_of}
use bus_booking_backend.Booking.Confirm.{
  confirm_booking, check_confirm, write_confirm, announce_confirm,
}
use bus_booking_backend.Payment.{
  InitiatePaymentDto, RefundDto, new_payment, set_paid, add_refund, initiate_payment,
  check_initiate, write_initiate, verify_payment, check_verify, save_paid, announce_paid,
  initiate_refund, check_refund, write_refund,
}
use bus_booking_backend.Payment.Initiated.{
  IsInitiated, initiate_payment-IsInitiated, initiate_payment_once,
}
use bus_booking_backend.Payment.Verified.{
  IsVerified, verify_payment-IsVerified, verify_payment_strands,
}
use bus_booking_backend.Payment.Refunded.{
  IsRefunded, initiate_refund-IsRefunded, initiate_refund_again,
}
use bus_booking_backend.Tests.Memory.{lookup, visible, change, create, add, new_id}
use bus_booking_backend.Tests.Sample.{env, passenger, alice, booking, with_booking}

abbrev pub dto : InitiatePaymentDto
dto = record { booking_id = "a"; method = PaymentMethod.upi; provider = none }

abbrev pub unpaid : Payment
unpaid = new_payment dto alice "a" none 200

abbrev initiated : Stored Payment
initiated = record { id = "a"; doc = unpaid }

-- The world with a booking and its payment.
abbrev with_payment : BookingStatus → Payment → State env
with_payment status p = record (with_booking status) {
  payments = record { id = "a"; doc = p } ∷ [];
}

abbrev after_initiate : State env
after_initiate = (initiate_payment env dto alice none (with_booking BookingStatus.pending)).1

initiate_payment_run :
    initiate_payment env dto alice none (with_booking BookingStatus.pending)
    ≡ (ok initiated, after_initiate)
unfolding initiate_payment check_initiate write_initiate lookup visible create add new_id
initiate_payment_run = refl

initiate_payment-IsInitiated_example :
    (b : Stored Booking) × IsInitiated env
      (with_booking BookingStatus.pending)
      dto
      alice
      initiated
      after_initiate
      b
initiate_payment-IsInitiated_example =
    initiate_payment-IsInitiated env dto alice none (with_booking BookingStatus.pending)
      after_initiate initiated initiate_payment_run

initiate_payment_once_example :
    initiate_payment env dto alice none (with_payment BookingStatus.pending unpaid) ≡ (
      err (conflict "Payment already initiated for this booking"),
      with_payment BookingStatus.pending unpaid,
    )
unfolding lookup
initiate_payment_once_example =
    initiate_payment_once env dto alice none (with_payment BookingStatus.pending unpaid)
      (record {
        id = "a";
        doc = booking BookingStatus.pending none (passenger "02" ∷ passenger "03" ∷ []);
      })
      "a" unpaid refl refl refl refl refl refl

abbrev pub before_verify : State env
before_verify = with_payment BookingStatus.pending unpaid

abbrev pub after_verify : State env
after_verify = (verify_payment env "a" "ref" alice before_verify).1

abbrev verified : Stored Payment
verified = record { id = "a"; doc = set_paid "ref" 0 unpaid }

verify_payment_run : verify_payment env "a" "ref" alice before_verify ≡ (ok verified, after_verify)
unfolding verify_payment check_verify save_paid announce_paid confirm_booking check_confirm
    write_confirm announce_confirm unlock_seats set_all indices_of find_index set_at modify_at
    lookup change
verify_payment_run = refl

verify_payment-IsVerified_example :
    (old : Payment) × (b : Booking) × (i payment : ObjectId) × IsVerified env before_verify "a"
      "ref" alice verified after_verify old b i payment
verify_payment-IsVerified_example =
    verify_payment-IsVerified env "a" "ref" alice before_verify after_verify verified
      verify_payment_run

-- The booking has expired, and the payment is stored as a success all the same.
verify_payment_strands_example :
    (verify_payment env "a" "ref" alice (with_payment BookingStatus.expired unpaid) ≡ (
      err (bad_request "Cannot confirm booking with status: expired" none),
      with_payment BookingStatus.expired (set_paid "ref" 0 unpaid),
    ))
    × (env.payments.find_by_id
          (with_payment BookingStatus.expired (set_paid "ref" 0 unpaid)).payments
          "a"
        ≡ some (set_paid "ref" 0 unpaid))
unfolding lookup change
verify_payment_strands_example =
    verify_payment_strands env "a" "ref" alice (with_payment BookingStatus.expired unpaid) initiated
      (booking BookingStatus.expired none (passenger "02" ∷ passenger "03" ∷ [])) "a"
      (with_payment BookingStatus.expired (set_paid "ref" 0 unpaid)).payments refl refl refl
      (λ e. cc) refl refl refl (λ e. cc)

abbrev half : RefundDto
half = record { amount = 80; reason = "late" }

abbrev paid_world : State env
paid_world = with_payment BookingStatus.confirmed (set_paid "ref" 0 unpaid)

abbrev refunded : Stored Payment
refunded = record { id = "a"; doc = add_refund half 0 (set_paid "ref" 0 unpaid) }

abbrev after_refund : State env
after_refund = (initiate_refund env "a" half paid_world).1

initiate_refund_run : initiate_refund env "a" half paid_world ≡ (ok refunded, after_refund)
unfolding initiate_refund check_refund write_refund lookup change
initiate_refund_run = refl

initiate_refund-IsRefunded_example :
    (old : Payment) × IsRefunded env paid_world "a" half refunded after_refund old
initiate_refund-IsRefunded_example =
    initiate_refund-IsRefunded env "a" half paid_world after_refund refunded initiate_refund_run

initiate_refund_again_example :
    (initiate_refund env "a" half after_refund
      ≡ (err (bad_request "Can only refund successful payments" none), after_refund))
    × (initiate_refund env "a" half (record after_refund { now = 5000 }) ≡ (
      err (bad_request "Can only refund successful payments" none),
      record after_refund { now = 5000 },
    ))
initiate_refund_again_example =
    initiate_refund_again env "a" half half paid_world after_refund
      (record after_refund { now = 5000 }) refunded initiate_refund_run refl
