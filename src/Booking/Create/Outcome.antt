-- ===== src/Booking/Create/Outcome.antt =====
-- What `createBooking` has done when it returns, and what it leaves alone when it throws
-- (src/modules/booking/booking.service.ts).
use bus_booking_backend.Prelude.{String, ◌≡◌, Option, some, [], length, sym, ap, ◌∙◌, arith}
use bus_booking_backend.Action.{>>=-eq-ok}
use bus_booking_backend.World.{Env, State}
use bus_booking_backend.Booking.Create.{
  CreateBookingDto, Checked, check_request, to_object_id, new_booking, lock_marks, create_booking,
  save_booking, reserve,
}
use bus_booking_backend.Locks.{lock_seats, unlock_seats}
use bus_booking_backend.Store.{ok, Stored}
use bus_booking_backend.Booking.Seats.{dedupe, scan_seats}
use bus_booking_backend.Documents.{Booking, BookingStatus, BusStatus, seat_nos}

module _ (env : Env) where
  pub check_request_unchanged :
      (dto : CreateBookingDto) (u : String) (s : State env) → (check_request env dto u s).1 ≡ s
  unfolding check_request
  check_request_unchanged dto u s = ground arith

  -- What the checks have established when they return.
  pub record IsChecked (s : State env) (dto : CreateBookingDto) (u : String) (c : Checked)
      : Type 0 where
    pub cast_bus : env.cast_id dto.bus_id ≡ some c.bus.id
    pub found : env.buses.find_by_id s.buses c.bus.id ≡ some c.bus.doc
    pub active : c.bus.doc.status ≡ BusStatus.active
    pub user : to_object_id env.cast_id (some u) ≡ some c.user_id
    pub bus : to_object_id env.cast_id (some dto.bus_id) ≡ some c.bus_id
    pub seats : c.seats ≡ dedupe (seat_nos dto.passengers)
    pub full : length (dedupe (seat_nos dto.passengers)) ≡ length (seat_nos dto.passengers)
    pub scanned : scan_seats c.bus.doc.seats c.seats [] 0 ≡ ok ([], c.total_fare)

  check_request-IsChecked :
      (dto : CreateBookingDto) (u : String) (s : State env) (c : Checked)
      → (check_request env dto u s).0 ≡ ok c
      → IsChecked s dto u c
  unfolding check_request
  check_request-IsChecked dto u s c h = ground arith

  -- The two writes of a reservation, and what it leaves alone.
  pub record IsReserved (s : State env) (dto : CreateBookingDto) (ten : Option String) (c : Checked)
      (b : Stored Booking) (s' : State env) : Type 0 where
    pub doc : b.doc ≡ new_booking env dto c (to_object_id env.cast_id ten) s.bookings s.now
    pub fare : b.doc.total_fare ≡ c.total_fare
    pub pending : b.doc.status ≡ BookingStatus.pending
    pub on_bus : b.doc.bus_id ≡ c.bus_id
    pub user : b.doc.user_id ≡ c.user_id
    pub passengers : b.doc.passengers ≡ dto.passengers
    pub bus_write : env.buses.update_by_id s.buses c.bus_id (lock_marks env c) ≡ ok s'.buses
    pub booking_write : env.bookings.create s.bookings b.doc ≡ ok (b.id, s'.bookings)
    pub payments : s'.payments ≡ s.payments
    pub users : s'.users ≡ s.users

  reserve-IsReserved :
      (dto : CreateBookingDto) (u : String) (ten : Option String) (c : Checked) (s s' : State env)
      (b : Stored Booking)
      → reserve env dto u ten c s ≡ (ok b, s')
      → IsReserved s dto ten c b s'
  unfolding reserve save_booking new_booking lock_seats unlock_seats
  reserve-IsReserved dto u ten c s s' b h = ground arith

  pub create_booking-parts :
      (dto : CreateBookingDto) (u : String) (ten : Option String) (s s' : State env)
      (b : Stored Booking)
      → create_booking env dto u ten s ≡ (ok b, s')
      → (c : Checked) × IsChecked s dto u c × IsReserved s dto ten c b s'
  unfolding create_booking
  create_booking-parts dto u ten s s' b h =
      let (c, t, e, rest) = >>=-eq-ok (check_request env dto u) (reserve env dto u ten) s s' b h in
      let same : t ≡ s = sym (ap (λ r. r.1) e) ∙ check_request_unchanged dto u s in
      (
        c,
        check_request-IsChecked dto u s c (ap (λ r. r.0) e),
        reserve-IsReserved dto u ten c s s' b (rw same at rest),
      )
