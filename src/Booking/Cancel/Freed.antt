-- ===== src/Booking/Cancel/Freed.antt =====
-- Which seats of its bus a cancelled booking frees (src/modules/booking/booking.service.ts).
use mathlib.Core.Option
use bus_booking_backend.Prelude.{
  ℕ, ◌≤◌, String, ◌≡◌, ap, Bool, Option, some, str_eq_refl, length, get_elem?, ltb, if◌then◌else◌,
}
use bus_booking_backend.Store.{Stored, ok}
use bus_booking_backend.Documents.{Bus, Booking, seat_nos}
use bus_booking_backend.World.{Env, State}
use bus_booking_backend.Booking.Seats.{mark_available}
use bus_booking_backend.Booking.Cancel.{cancel_booking, free_marks}
use bus_booking_backend.Booking.Cancel.Seats.{get_elem?-set_positions}
use bus_booking_backend.Booking.Cancel.Outcome.{cancel_booking-IsCancelled}

module _ (env : Env) where
  -- The seats that a cancellation makes available are the first ones of the bus, as many as the
  -- booking has passengers, if the bus has that many. The other seats stay as they are, those of the passengers included.
  pub cancel_booking_frees_first :
      (id u : String) (reason : Option String) (admin : Bool) (s s' : State env)
      (b : Stored Booking) (bus : Bus) (j : ℕ)
      → cancel_booking env id u reason admin s ≡ (ok b, s')
      → env.buses.find_by_id s.buses b.doc.bus_id ≡ some bus
      → length (seat_nos b.doc.passengers) ≤ length bus.seats
      → (after : Bus) × (env.buses.find_by_id s'.buses b.doc.bus_id ≡ some after)
        × (get_elem? after.seats j ≡ (
            if ltb j (length (seat_nos b.doc.passengers))
            then Option.map mark_available (get_elem? bus.seats j)
            else get_elem? bus.seats j))
  cancel_booking_frees_first id u reason admin s s' b bus j h at fits =
      let (old, canceller, c) = cancel_booking-IsCancelled env id u reason admin s s' b h in
      let same_bus : b.doc.bus_id ≡ old.bus_id = ap (λ d. d.bus_id) c.doc in
      let same_seats : seat_nos b.doc.passengers ≡ seat_nos old.passengers =
        ap (λ d. seat_nos d.passengers) c.doc in
      (
        free_marks env old bus,
        rw (same_bus, c.buses old.bus_id, str_eq_refl old.bus_id, ← same_bus, at),
        rw same_seats (
            get_elem?-set_positions env.set_past_end mark_available (seat_nos old.passengers) j
              bus.seats (rw same_seats at fits)),
      )
