-- ===== src/Booking/Confirm/Outcome.antt =====
-- What `confirmBooking` has done when it returns, and what it refuses
-- (src/modules/booking/booking.service.ts).
use bus_booking_backend.Prelude.{
  String, str_eq, if◌then◌else◌, ◌≡◌, ◌≢◌, refl, none, some, arith, some_of, some_eq, sym, ap, ◌∙◌,
  ◌<>◌,
}
use bus_booking_backend.Errors.{bad_request}
use bus_booking_backend.Store.{ObjectId, Stored, ok, err}
use bus_booking_backend.Store.Laws.{update_self, update_all}
use bus_booking_backend.Documents.{Bus, Booking, BookingStatus, seat_nos, status_text}
use bus_booking_backend.Action.{>>=-eq-ok, ◌>>=◌}
use bus_booking_backend.World.{Env, State}
use bus_booking_backend.Locks.{unlock_seats, lock_key}
use bus_booking_backend.Booking.Seats.{mark_booked}
use bus_booking_backend.Booking.Seats.Marks.{AreMarked, IsMark, find_seat-set_all}
use bus_booking_backend.Booking.Confirm.{
  confirm_booking, check_confirm, write_confirm, announce_confirm, book_marks, set_confirmed,
}

module _ (env : Env) where
  -- The two writes of a confirmation.
  pub record IsWritten (s : State env) (id pay : String) (b : Stored Booking) (s' : State env)
      (old : Booking) (bus : Bus) (payment : ObjectId) : Type 0 where
    pub cast_booking : env.cast_id id ≡ some b.id
    pub cast_payment : env.cast_id pay ≡ some payment
    pub found : env.bookings.find_by_id s.bookings b.id ≡ some old
    pub pending : old.status ≡ BookingStatus.pending
    pub on_bus : env.buses.find_by_id s.buses old.bus_id ≡ some bus
    pub bus_write : env.buses.update_by_id s.buses old.bus_id (book_marks env old bus) ≡ ok s'.buses
    pub booking_write :
        env.bookings.update_by_id s.bookings b.id (set_confirmed payment) ≡ ok s'.bookings
    pub reread : env.bookings.find_by_id s'.bookings b.id ≡ some b.doc
    pub redis : s'.redis ≡ env.redis.del s.redis (lock_key b.doc.bus_id (seat_nos b.doc.passengers))

  pub check_confirm_unchanged : (id : String) (s : State env) → (check_confirm env id s).1 ≡ s
  unfolding check_confirm
  check_confirm_unchanged id s = ground arith

  pub record IsReadable (s : State env) (id : String) (c : Stored Booking × Bus) : Type 0 where
    pub cast_booking : env.cast_id id ≡ some c.0.id
    pub found : env.bookings.find_by_id s.bookings c.0.id ≡ some c.0.doc
    pub pending : c.0.doc.status ≡ BookingStatus.pending
    pub on_bus : env.buses.find_by_id s.buses c.0.doc.bus_id ≡ some c.1

  pub check_confirm-IsReadable :
      (id : String) (s : State env) (c : Stored Booking × Bus)
      → (check_confirm env id s).0 ≡ ok c
      → IsReadable s id c
  unfolding check_confirm
  check_confirm-IsReadable id s c h = ground arith

  record IsUpdated (s : State env) (pay : String) (c : Stored Booking × Bus) (b : Stored Booking)
      (s' : State env) (payment : ObjectId) : Type 0 where
    pub cast_payment : env.cast_id pay ≡ some payment
    pub same_id : b.id ≡ c.0.id
    pub bus_write :
        env.buses.update_by_id s.buses c.0.doc.bus_id (book_marks env c.0.doc c.1) ≡ ok s'.buses
    pub booking_write :
        env.bookings.update_by_id s.bookings b.id (set_confirmed payment) ≡ ok s'.bookings
    pub reread : env.bookings.find_by_id s'.bookings b.id ≡ some b.doc
    pub redis : s'.redis ≡ s.redis

  write_confirm-IsUpdated :
      (pay : String) (c : Stored Booking × Bus) (s s' : State env) (b : Stored Booking)
      → write_confirm env pay c s ≡ (ok b, s')
      → (payment : ObjectId) × IsUpdated s pay c b s' payment
  unfolding write_confirm
  write_confirm-IsUpdated pay (booking, bus) s s' b h =
      let (payment, _) = some_of (env.cast_id pay) (λ e. ground arith) in (payment, ground arith)

  announced :
      (id pay : String) (c : Stored Booking × Bus) (d : Stored Booking) (u : State env)
      (b : Stored Booking) (s s' : State env) (payment : ObjectId)
      → IsReadable s id c
      → IsUpdated s pay c d u payment
      → announce_confirm env id pay d u ≡ (ok b, s')
      → IsWritten s id pay b s' c.0.doc c.1 payment
  unfolding announce_confirm unlock_seats
  announced id pay c d u b s s' payment k w h = ground arith

  confirm_booking-IsWritten :
      (id pay : String) (s s' : State env) (b : Stored Booking)
      → confirm_booking env id pay s ≡ (ok b, s')
      → (old : Booking) × (bus : Bus) × (payment : ObjectId) × IsWritten s id pay b s' old bus
          payment
  unfolding confirm_booking
  confirm_booking-IsWritten id pay s s' b h =
      let (c, t, e, h') =
        >>=-eq-ok (check_confirm env id)
          (λ c. write_confirm env pay c >>= announce_confirm env id pay) s s' b h in
      let same : t ≡ s = sym (ap (λ r. r.1) e) ∙ check_confirm_unchanged id s in
      let k = check_confirm-IsReadable id s c (ap (λ r. r.0) e) in
      let (d, u, e', h'') =
        >>=-eq-ok (write_confirm env pay c) (announce_confirm env id pay) t s' b h' in
      let (payment, w) = write_confirm-IsUpdated pay c s u d (rw same at e') in
      (c.0.doc, c.1, payment, announced id pay c d u b s s' payment k w h'')

  -- A confirmation changed one booking and one bus.
  pub record IsConfirmed (s : State env) (id pay : String) (b : Stored Booking) (s' : State env)
      (old : Booking) (payment : ObjectId) : Type 0 where
    pub cast_booking : env.cast_id id ≡ some b.id
    pub cast_payment : env.cast_id pay ≡ some payment
    pub found : env.bookings.find_by_id s.bookings b.id ≡ some old
    pub pending : old.status ≡ BookingStatus.pending
    pub doc : b.doc ≡ record old { status = BookingStatus.confirmed; payment_id = some payment }
    pub bookings :
        (j : ObjectId)
        → env.bookings.find_by_id s'.bookings j
          ≡ (if str_eq b.id j then some b.doc else env.bookings.find_by_id s.bookings j)
    pub buses :
        (before after : Bus) × (env.buses.find_by_id s.buses old.bus_id ≡ some before)
        × ((j : ObjectId)
            → env.buses.find_by_id s'.buses j
              ≡ (if str_eq old.bus_id j then some after else env.buses.find_by_id s.buses j))
        × (after ≡ record before { seats = after.seats })
        × AreMarked mark_booked (seat_nos old.passengers) before.seats after.seats
    pub unlocked : s'.redis ≡ env.redis.del s.redis (lock_key old.bus_id (seat_nos old.passengers))

  mark_booked-IsMark : IsMark mark_booked
  mark_booked-IsMark = record { keeps = λ s. refl; twice = λ s. refl }

  -- A booking that `confirmBooking` returns was pending and is now confirmed, with the payment and
  -- nothing else changed; its seats, and no others of its bus, are marked as booked; the lock on
  -- its seats is gone, and no other booking or bus has changed.
  pub confirm_booking-IsConfirmed :
      (id pay : String) (s s' : State env) (b : Stored Booking)
      → confirm_booking env id pay s ≡ (ok b, s')
      → (old : Booking) × (payment : ObjectId) × IsConfirmed s id pay b s' old payment
  confirm_booking-IsConfirmed id pay s s' b h =
      let (old, bus, payment, w) = confirm_booking-IsWritten id pay s s' b h in
      let doc : b.doc ≡ set_confirmed payment old = some_eq (
        sym w.reread
        ∙ update_self env.bookings s.bookings s'.bookings b.id (set_confirmed payment) old
            w.booking_write w.found) in
      (
        old,
        payment,
        record {
          cast_booking = w.cast_booking;
          cast_payment = w.cast_payment;
          found = w.found;
          pending = w.pending;
          doc = doc;
          bookings = λ j. rw doc (
              update_all env.bookings s.bookings s'.bookings b.id (set_confirmed payment) old
                w.booking_write w.found j);
          buses = (
            bus,
            book_marks env old bus bus,
            w.on_bus,
            update_all env.buses s.buses s'.buses old.bus_id (book_marks env old bus) bus
                w.bus_write w.on_bus,
            refl,
            λ m.
                find_seat-set_all mark_booked mark_booked-IsMark env.set_past_end
                  (seat_nos old.passengers) bus.seats bus.seats m refl,
          );
          unlocked =
              w.redis
              ∙ ap (λ d. env.redis.del s.redis (lock_key d.bus_id (seat_nos d.passengers))) doc;
        },
      )

  -- A booking that is not pending is not confirmed: the call throws, and changes nothing.
  pub confirm_booking_refused :
      (id pay : String) (i : ObjectId) (s : State env) (b : Booking)
      → env.cast_id id ≡ some i
      → env.bookings.find_by_id s.bookings i ≡ some b
      → b.status ≢ BookingStatus.pending
      → confirm_booking env id pay s ≡ (
        err (bad_request ("Cannot confirm booking with status: " <> status_text b.status) none),
        s,
      )
  unfolding confirm_booking check_confirm
  confirm_booking_refused id pay i s b k f h = ground arith
