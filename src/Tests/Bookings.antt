-- ===== src/Tests/Bookings.antt =====
-- The booking service at concrete inputs.
use bus_booking_backend.Prelude.{
  get_elem?, ap, str_eq, ◌≡◌, refl, false, none, some, [], ◌∷◌, arith, codes, sort_texts, inr,
}
use bus_booking_backend.Errors.{not_found}
use bus_booking_backend.Store.{ObjectId, ok, err, Stored}
use bus_booking_backend.Documents.{Bus, Booking, BookingStatus}
use bus_booking_backend.World.{State}
use bus_booking_backend.Locks.{lock_seats, unlock_seats, lock_key}
use bus_booking_backend.Booking.Seats.{
  dedupe, find_index, scan_seats, modify_at, set_at, set_all, indices_of,
}
use bus_booking_backend.Booking.Create.{
  CreateBookingDto, create_booking, check_request, save_booking, reserve, to_object_id,
  is_object_id, new_booking,
}
use bus_booking_backend.Booking.Create.Created.{IsCreated, create_booking-IsCreated}
use bus_booking_backend.Booking.Confirm.{
  confirm_booking, check_confirm, write_confirm, announce_confirm,
}
use bus_booking_backend.Booking.Confirm.Outcome.{IsConfirmed, confirm_booking-IsConfirmed}
use bus_booking_backend.Booking.Cancel.{
  cancel_booking, check_cancel, write_cancel, announce_cancel, positions, set_cancelled,
}
use bus_booking_backend.Booking.Cancel.Outcome.{cancel_booking_hides}
use bus_booking_backend.Booking.Cancel.Freed.{cancel_booking_frees_first}
use bus_booking_backend.Booking.Queries.{get_booking}
use bus_booking_backend.Tests.Memory.{visible, lookup, change, create, add, new_id}
use bus_booking_backend.Tests.MemoryRedis.{get, setex, del}
use bus_booking_backend.Tests.Sample.{
  env, start, request, passenger, alice, bus, booking, with_booking, seat, bus_id,
}

abbrev pub for_two : CreateBookingDto
for_two = request (passenger "02" ∷ passenger "03" ∷ [])

abbrev pub created : Stored Booking
created = record { id = "a"; doc = booking BookingStatus.pending none for_two.passengers }

abbrev pub after_create : State env
after_create = (create_booking env for_two alice none start).1

pub create_booking_run : create_booking env for_two alice none start ≡ (ok created, after_create)
unfolding create_booking check_request to_object_id is_object_id codes dedupe scan_seats reserve
    lock_seats lock_key sort_texts save_booking set_all indices_of find_index set_at modify_at
    new_booking lookup change create add new_id get setex del unlock_seats
create_booking_run = refl

create_booking-IsCreated_example :
    (b : Stored Bus) × IsCreated env start for_two alice created after_create b
create_booking-IsCreated_example =
    create_booking-IsCreated env for_two alice none start after_create created create_booking_run

abbrev after_confirm : State env
after_confirm = (confirm_booking env "a" "p" (with_booking BookingStatus.pending)).1

abbrev confirmed : Stored Booking
confirmed = record { id = "a"; doc = booking BookingStatus.confirmed (some "p") for_two.passengers }

confirm_booking_run :
    confirm_booking env "a" "p" (with_booking BookingStatus.pending) ≡ (ok confirmed, after_confirm)
unfolding confirm_booking check_confirm write_confirm announce_confirm unlock_seats lock_key codes
    sort_texts set_all indices_of find_index set_at modify_at lookup change get setex del
confirm_booking_run = refl

abbrev after_cancel : State env
after_cancel = (cancel_booking env "a" alice none false (with_booking BookingStatus.confirmed)).1

abbrev cancelled : Stored Booking
cancelled = record {
  id = "a";
  doc = set_cancelled alice none 0 (booking BookingStatus.confirmed none for_two.passengers);
}

cancel_booking_run :
    cancel_booking env "a" alice none false (with_booking BookingStatus.confirmed)
    ≡ (ok cancelled, after_cancel)
unfolding cancel_booking check_cancel write_cancel announce_cancel unlock_seats lock_key codes
    sort_texts set_all positions set_at modify_at lookup change get setex del
cancel_booking_run = refl

confirm_booking-IsConfirmed_example :
    (old : Booking) × (payment : ObjectId) × IsConfirmed env
      (with_booking BookingStatus.pending)
      "a"
      "p"
      confirmed
      after_confirm
      old
      payment
confirm_booking-IsConfirmed_example =
    confirm_booking-IsConfirmed env "a" "p" (with_booking BookingStatus.pending) after_confirm
      confirmed confirm_booking_run

cancel_booking_hides_example :
    cancel_booking env "a" "mallory" none false (with_booking BookingStatus.pending)
    ≡ (err (not_found "Booking"), with_booking BookingStatus.pending)
unfolding lookup
cancel_booking_hides_example =
    cancel_booking_hides env "a" "mallory" none "a" (with_booking BookingStatus.pending) refl (
      inr (
        booking BookingStatus.pending none for_two.passengers,
        refl,
        λ e. cc (ap (λ x. str_eq x "mallory") e),
      ))

-- The seat 01 of the bus, whose passengers sit on 02 and 03, is made available.
cancel_booking_frees_first_example :
    (after : Bus) × (env.buses.find_by_id after_cancel.buses bus_id ≡ some after)
    × (get_elem? after.seats 0 ≡ some (seat "01"))
unfolding lookup
cancel_booking_frees_first_example =
    cancel_booking_frees_first env "a" alice none false (with_booking BookingStatus.confirmed)
      after_cancel cancelled bus 0 cancel_booking_run refl (omega arith)

get_booking_run : get_booking env "a" alice false (with_booking BookingStatus.pending) ≡ (
  ok (record { id = "a"; doc = booking BookingStatus.pending none for_two.passengers }),
  with_booking BookingStatus.pending,
)
unfolding get_booking visible
get_booking_run = refl
