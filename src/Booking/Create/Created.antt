-- ===== src/Booking/Create/Created.antt =====
-- The main statement about a booking that `createBooking` returns
-- (src/modules/booking/booking.service.ts).
use bus_booking_backend.Prelude.{
  String, ◌≡◌, refl, true, Option, none, some, sym, ◌∙◌, All, all_distinct, str_eq, if◌then◌else◌,
  includes-sort_texts, sort_texts, arith, some_eq,
}
use bus_booking_backend.Store.Laws.{update_all}
use bus_booking_backend.World.{Env, State}
use bus_booking_backend.Booking.Create.{
  CreateBookingDto, Checked, to_object_id, lock_marks, create_booking,
}
use bus_booking_backend.Store.{ObjectId, ok, Stored}
use bus_booking_backend.Booking.Seats.Scan.{IsFree, total_of, scan_seats-IsFree}
use bus_booking_backend.Booking.Seats.Distinct.{dedupe_full}
use bus_booking_backend.Booking.Seats.Marks.{AreMarked, IsMark, find_seat-set_all}
use bus_booking_backend.Booking.Seats.{mark_locked}
use bus_booking_backend.Documents.{Bus, Booking, BookingStatus, BusStatus, seat_nos}
use bus_booking_backend.Booking.Create.Outcome.{IsChecked, IsReserved, create_booking-parts}

module _ (env : Env) where
  -- A booking was made: what it was made from, and what was written.
  pub record IsCreated (s : State env) (dto : CreateBookingDto) (u : String) (b : Stored Booking)
      (s' : State env) (bus : Stored Bus) : Type 0 where
    pub found : env.buses.find_by_id s.buses bus.id ≡ some bus.doc
    pub active : bus.doc.status ≡ BusStatus.active
    pub distinct : all_distinct (seat_nos dto.passengers) ≡ true
    pub free : All (IsFree bus.doc.seats) (seat_nos dto.passengers)
    pub fare : b.doc.total_fare ≡ total_of bus.doc.seats (seat_nos dto.passengers)
    pub pending : b.doc.status ≡ BookingStatus.pending
    pub owner : env.cast_id u ≡ some b.doc.user_id
    pub on_bus : b.doc.bus_id ≡ bus.id
    pub passengers : b.doc.passengers ≡ dto.passengers
    pub fresh : env.bookings.find_by_id s.bookings b.id ≡ none
    pub bookings :
        (j : ObjectId)
        → env.bookings.find_by_id s'.bookings j
          ≡ (if str_eq b.id j then some b.doc else env.bookings.find_by_id s.bookings j)
    pub buses :
        (after : Bus) × ((j : ObjectId)
          → env.buses.find_by_id s'.buses j
            ≡ (if str_eq bus.id j then some after else env.buses.find_by_id s.buses j))
        × (after ≡ record bus.doc { seats = after.seats })
        × AreMarked (mark_locked b.doc.user_id) (seat_nos dto.passengers) bus.doc.seats after.seats

  mark_locked-IsMark : (u : ObjectId) → IsMark (mark_locked u)
  mark_locked-IsMark u = record { keeps = λ s. refl; twice = λ s. refl }

  lock_marks-AreMarked :
      (c : Checked)
      → AreMarked (mark_locked c.user_id) c.seats c.bus.doc.seats (lock_marks env c c.bus.doc).seats
  lock_marks-AreMarked c m = rw (← includes-sort_texts m c.seats) (
      find_seat-set_all (mark_locked c.user_id) (mark_locked-IsMark c.user_id) env.set_past_end
        (sort_texts c.seats) c.bus.doc.seats c.bus.doc.seats m refl)

  to_object_id-some :
      (t : String) (i : ObjectId)
      → to_object_id env.cast_id (some t) ≡ some i
      → env.cast_id t ≡ some i
  unfolding to_object_id
  to_object_id-some t i h = ground arith

  created :
      (dto : CreateBookingDto) (u : String) (ten : Option String) (s s' : State env)
      (b : Stored Booking) (c : Checked)
      → IsChecked env s dto u c
      → IsReserved env s dto ten c b s'
      → IsCreated s dto u b s' c.bus
  created dto u ten s s' b c k r =
      let (same, distinct) = dedupe_full (seat_nos dto.passengers) k.full in
      let seats : c.seats ≡ seat_nos dto.passengers = k.seats ∙ same in
      let (free, fare) = scan_seats-IsFree c.bus.doc.seats c.seats 0 c.total_fare k.scanned in
      let key : c.bus_id ≡ c.bus.id =
        some_eq (sym (to_object_id-some dto.bus_id c.bus_id k.bus) ∙ k.cast_bus) in
      record {
        found = k.found;
        active = k.active;
        distinct = distinct;
        free = rw (← seats) free;
        fare = rw (← seats) (omega (arith, r.fare, fare));
        pending = r.pending;
        owner = rw r.user (to_object_id-some u c.user_id k.user);
        on_bus = r.on_bus ∙ key;
        passengers = r.passengers;
        fresh = env.bookings.create_fresh s.bookings s'.bookings b.doc b.id r.booking_write;
        bookings =
            λ j. env.bookings.find_by_id-create s.bookings s'.bookings b.doc b.id j r.booking_write;
        buses = (
          lock_marks env c c.bus.doc,
          update_all env.buses s.buses s'.buses c.bus.id (lock_marks env c) c.bus.doc
              (rw key at r.bus_write) k.found,
          refl,
          rw (r.user, ← seats) (lock_marks-AreMarked c),
        );
      }

  -- A booking that `createBooking` returns is pending, was made for distinct seats of an active
  -- bus that were all available, costs the sum of their fares, and is stored under a new
  -- identifier beside the other bookings; on its bus the requested seats are marked as locked for
  -- the user, and no other bus has changed.
  pub create_booking-IsCreated :
      (dto : CreateBookingDto) (u : String) (ten : Option String) (s s' : State env)
      (b : Stored Booking)
      → create_booking env dto u ten s ≡ (ok b, s')
      → (bus : Stored Bus) × IsCreated s dto u b s' bus
  create_booking-IsCreated dto u ten s s' b h =
      let (c, k, r) = create_booking-parts env dto u ten s s' b h in
      (c.bus, created dto u ten s s' b c k r)
