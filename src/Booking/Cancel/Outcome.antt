-- ===== src/Booking/Cancel/Outcome.antt =====
-- What `cancelBooking` has done when it returns, and what it refuses
-- (src/modules/booking/booking.service.ts).
use mathlib.Core.Option
use bus_booking_backend.Prelude.{
  String, ◌≡◌, ◌≢◌, sym, ap, ◌∙◌, Bool, true, false, ◌||◌, ◌⊎◌, inl, inr, Option, none, some, arith,
  some_of, some_eq, ◌<>◌, str_eq, eq_iff, if◌then◌else◌,
}
use bus_booking_backend.Errors.{bad_request, not_found}
use bus_booking_backend.Store.{ObjectId, Stored, ok, err}
use bus_booking_backend.Store.Laws.{update_self, update_all, update_mapped}
use bus_booking_backend.Documents.{Booking, BookingStatus, seat_nos, status_text}
use bus_booking_backend.Action.{>>=-eq-ok, ◌>>=◌}
use bus_booking_backend.World.{Env, State}
use bus_booking_backend.Locks.{unlock_seats, lock_key}
use bus_booking_backend.Booking.Cancel.{
  cancel_booking, check_cancel, write_cancel, announce_cancel, free_marks, set_cancelled,
}

-- A booking that may be cancelled.
abbrev pub IsOpen : BookingStatus → Type 0
IsOpen s = (s ≡ BookingStatus.pending) ⊎ (s ≡ BookingStatus.confirmed)

module _ (env : Env) where
  pub check_cancel_unchanged :
      (id u : String) (admin : Bool) (s : State env) → (check_cancel env id u admin s).1 ≡ s
  unfolding check_cancel
  check_cancel_unchanged id u admin s = ground arith

  pub record IsReadable (s : State env) (id u : String) (admin : Bool) (c : Stored Booking)
      : Type 0 where
    pub cast_booking : env.cast_id id ≡ some c.id
    pub found : env.bookings.find_by_id s.bookings c.id ≡ some c.doc
    pub allowed : (admin ≡ true) ⊎ (c.doc.user_id ≡ u)
    pub cancellable : IsOpen c.doc.status

  pub check_cancel-IsReadable :
      (id u : String) (admin : Bool) (s : State env) (c : Stored Booking)
      → (check_cancel env id u admin s).0 ≡ ok c
      → IsReadable s id u admin c
  unfolding check_cancel
  check_cancel-IsReadable id u admin s c h = ground (arith, eq_iff c.doc.user_id u)

  record IsUpdated (s : State env) (u : String) (reason : Option String) (c : Stored Booking)
      (b : Stored Booking) (s' : State env) (canceller : ObjectId) : Type 0 where
    pub cast_user : env.cast_id u ≡ some canceller
    pub same_id : b.id ≡ c.id
    pub bus_write : env.buses.update_by_id s.buses c.doc.bus_id (free_marks env c.doc) ≡ ok s'.buses
    pub booking_write :
        env.bookings.update_by_id s.bookings b.id (set_cancelled canceller reason s.now)
        ≡ ok s'.bookings
    pub reread : env.bookings.find_by_id s'.bookings b.id ≡ some b.doc
    pub redis : s'.redis ≡ s.redis

  write_cancel-IsUpdated :
      (u : String) (reason : Option String) (c : Stored Booking) (s s' : State env)
      (b : Stored Booking)
      → write_cancel env u reason c s ≡ (ok b, s')
      → (canceller : ObjectId) × IsUpdated s u reason c b s' canceller
  unfolding write_cancel
  write_cancel-IsUpdated u reason c s s' b h =
      let (canceller, _) = some_of (env.cast_id u) (λ e. ground arith) in (canceller, ground arith)

  -- A cancellation changed one booking and one bus.
  pub record IsCancelled (s : State env) (id u : String) (reason : Option String) (admin : Bool)
      (b : Stored Booking) (s' : State env) (old : Booking) (canceller : ObjectId) : Type 0 where
    pub cast_booking : env.cast_id id ≡ some b.id
    pub found : env.bookings.find_by_id s.bookings b.id ≡ some old
    pub allowed : (admin ≡ true) ⊎ (old.user_id ≡ u)
    pub cancellable : IsOpen old.status
    pub doc : b.doc ≡ set_cancelled canceller reason s.now old
    pub bookings :
        (j : ObjectId)
        → env.bookings.find_by_id s'.bookings j
          ≡ (if str_eq b.id j then some b.doc else env.bookings.find_by_id s.bookings j)
    pub buses :
        (j : ObjectId)
        → env.buses.find_by_id s'.buses j ≡ (
            if str_eq old.bus_id j
            then Option.map (free_marks env old) (env.buses.find_by_id s.buses j)
            else env.buses.find_by_id s.buses j)
    pub unlocked : s'.redis ≡ env.redis.del s.redis (lock_key old.bus_id (seat_nos old.passengers))

  written :
      (id u : String) (reason : Option String) (admin : Bool) (s t s' : State env)
      (c d b : Stored Booking) (canceller : ObjectId)
      → IsReadable s id u admin c
      → IsUpdated s u reason c d t canceller
      → announce_cancel env id u reason c d t ≡ (ok b, s')
      → IsCancelled s id u reason admin b s' c.doc canceller
  unfolding announce_cancel unlock_seats
  written id u reason admin s t s' c d b canceller k w h =
      let same : b ≡ d = ground arith in
      let bookings : s'.bookings ≡ t.bookings = ground arith in
      let buses : s'.buses ≡ t.buses = ground arith in
      let doc : d.doc ≡ set_cancelled canceller reason s.now c.doc = some_eq (
        sym w.reread
        ∙ update_self env.bookings s.bookings t.bookings d.id (set_cancelled canceller reason s.now)
            c.doc w.booking_write (rw w.same_id k.found)) in
      record {
        cast_booking = rw (same, w.same_id) k.cast_booking;
        found = rw (same, w.same_id) k.found;
        allowed = k.allowed;
        cancellable = k.cancellable;
        doc = rw same doc;
        bookings = λ j.
            rw (bookings, same, doc)
              (update_all env.bookings s.bookings t.bookings d.id
                (set_cancelled canceller reason s.now) c.doc w.booking_write (rw w.same_id k.found)
                j);
        buses = λ j. rw buses (
            update_mapped env.buses s.buses t.buses c.doc.bus_id (free_marks env c.doc) w.bus_write
              j);
        unlocked = ground arith;
      }

  pub cancel_booking-IsCancelled :
      (id u : String) (reason : Option String) (admin : Bool) (s s' : State env)
      (b : Stored Booking)
      → cancel_booking env id u reason admin s ≡ (ok b, s')
      → (old : Booking) × (canceller : ObjectId) × IsCancelled s id u reason admin b s' old
          canceller
  unfolding cancel_booking
  cancel_booking-IsCancelled id u reason admin s s' b h =
      let (c, t, e, h') =
        >>=-eq-ok (check_cancel env id u admin)
          (λ c. write_cancel env u reason c >>= announce_cancel env id u reason c) s s' b h in
      let same : t ≡ s = sym (ap (λ r. r.1) e) ∙ check_cancel_unchanged id u admin s in
      let k = check_cancel-IsReadable id u admin s c (ap (λ r. r.0) e) in
      let (d, v, e', h'') =
        >>=-eq-ok (write_cancel env u reason c) (announce_cancel env id u reason c) t s' b h' in
      let (canceller, w) = write_cancel-IsUpdated u reason c s v d (rw same at e') in
      (c.doc, canceller, written id u reason admin s v s' c d b canceller k w h'')

  -- Someone else's booking looks like a missing one: a caller who is no administrator gets the
  -- same error for both, and nothing changes.
  pub cancel_booking_hides :
      (id u : String) (reason : Option String) (i : ObjectId) (s : State env)
      → env.cast_id id ≡ some i
      → (env.bookings.find_by_id s.bookings i ≡ none)
        ⊎ ((b : Booking) × (env.bookings.find_by_id s.bookings i ≡ some b) × (b.user_id ≢ u))
      → cancel_booking env id u reason false s ≡ (err (not_found "Booking"), s)
  unfolding cancel_booking check_cancel
  cancel_booking_hides id u reason i s k (inl e) = ground arith
  cancel_booking_hides id u reason i s k (inr (b, e, ne)) = ground (arith, eq_iff b.user_id u)

  -- A booking that is neither pending nor confirmed cannot be cancelled, by nobody: the call throws
  -- and changes nothing.
  pub cancel_booking_refused :
      (id u : String) (reason : Option String) (admin : Bool) (i : ObjectId) (s : State env)
      (b : Booking)
      → env.cast_id id ≡ some i
      → env.bookings.find_by_id s.bookings i ≡ some b
      → ¬ IsOpen b.status
      → cancel_booking env id u reason admin s ≡ (
        err (
            if admin || str_eq b.user_id u
            then bad_request ("Cannot cancel booking with status: " <> status_text b.status) none
            else not_found "Booking"),
        s,
      )
  unfolding cancel_booking check_cancel
  cancel_booking_refused id u reason admin i s b k f closed = ground arith
