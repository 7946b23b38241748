-- ===== src/Tests/Lifecycle.antt =====
-- A life of a booking, from its creation to its payment, and requests that meet.
use bus_booking_backend.Prelude.{◌≡◌, refl, none, some, [], ◌∷◌}
use bus_booking_backend.Documents.{Booking, BookingStatus}
use bus_booking_backend.World.{State}
use bus_booking_backend.Booking.Steps.{Step}
use bus_booking_backend.Payment.{initiate_payment, verify_payment}
use bus_booking_backend.Payment.Balance.{AllBalanced}
use bus_booking_backend.Payment.Steps.{PaymentStep}
use bus_booking_backend.Lifecycle.{Call, Reach}
use bus_booking_backend.Lifecycle.Bookings.{IsLater, IsPaidFor, Call-Step, Reach-IsLater}
use bus_booking_backend.Lifecycle.Payments.{Call-PaymentStep, Reach-AllBalanced}
use bus_booking_backend.Lifecycle.Settled.{AllSettled, Reach-AllSettled}
use bus_booking_backend.Tests.Memory.{lookup}
use bus_booking_backend.Tests.Sample.{env, start, alice, booking, passenger}
use bus_booking_backend.Tests.Bookings.{for_two, after_create}
use bus_booking_backend.Tests.Payments.{dto, before_verify, after_verify}

abbrev after_initiate : State env
after_initiate = (initiate_payment env dto alice none after_create).1

abbrev after_payment : State env
after_payment = (verify_payment env "a" "ref" alice after_initiate).1

-- A booking is made, its payment initiated, and verified.
story : Reach env start after_payment
story =
    Reach.call
      (Reach.call (Reach.call Reach.start (Call.create for_two alice none refl))
        (Call.initiate dto alice none refl))
      (Call.verify "a" "ref" alice refl)

nothing_settled : AllSettled env start
unfolding lookup
nothing_settled = record { matched = λ i. tt; settled = λ j. tt }

nothing_balanced : AllBalanced env start
unfolding lookup
nothing_balanced i = tt

Reach-AllSettled_example : AllSettled env after_payment
Reach-AllSettled_example = Reach-AllSettled env start after_payment story nothing_settled

Reach-AllBalanced_example : AllBalanced env after_payment
Reach-AllBalanced_example = Reach-AllBalanced env start after_payment story nothing_balanced

Call-Step_example :
    Step
      (IsPaidFor env after_verify "a")
      (env.bookings.find_by_id before_verify.bookings "a")
      (env.bookings.find_by_id after_verify.bookings "a")
Call-Step_example = Call-Step env before_verify after_verify "a" (Call.verify "a" "ref" alice refl)

Call-PaymentStep_example :
    PaymentStep env before_verify
      (env.payments.find_by_id before_verify.payments "a")
      (env.payments.find_by_id after_verify.payments "a")
Call-PaymentStep_example =
    Call-PaymentStep env before_verify after_verify "a" (Call.verify "a" "ref" alice refl)

abbrev stored : Booking
stored = booking BookingStatus.pending none (passenger "02" ∷ passenger "03" ∷ [])

Reach-IsLater_example :
    (b : Booking) × (env.bookings.find_by_id after_verify.bookings "a" ≡ some b) × IsLater stored b
unfolding lookup
Reach-IsLater_example =
    Reach-IsLater env before_verify after_verify "a" stored
      (Reach.call Reach.start (Call.verify "a" "ref" alice refl)) refl
