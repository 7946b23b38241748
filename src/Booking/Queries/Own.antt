-- ===== src/Booking/Queries/Own.antt =====
-- Whose bookings `getBooking` shows (src/modules/booking/booking.service.ts).
use bus_booking_backend.Prelude.{
  String, ◌≡◌, refl, ◌⊎◌, Bool, true, false, some, arith, some_of, eq_iff, inl, inr,
}
use bus_booking_backend.Store.{Stored, ok}
use bus_booking_backend.Documents.{Booking}
use bus_booking_backend.World.{Env, State}
use bus_booking_backend.Booking.Queries.{get_booking, is_asked_booking}

module _ (env : Env) where
  -- A booking that `getBooking` returns is the stored one of that identifier; it is the caller's
  -- own, or the caller is an administrator; and the state stays as it is.
  pub get_booking_own :
      (id u : String) (admin : Bool) (s s' : State env) (b : Stored Booking)
      → get_booking env id u admin s ≡ (ok b, s')
      → (env.cast_id id ≡ some b.id)
        × (env.bookings.find_by_id s.bookings b.id ≡ some b.doc)
        × ((admin ≡ true) ⊎ (env.cast_id u ≡ some b.doc.user_id))
        × (s' ≡ s)
  unfolding get_booking
  get_booking_own id u true s s' b h =
      let (key, k) = some_of (env.cast_id id) (λ e. ground arith) in
      let one : env.bookings.find_one s.bookings (is_asked_booking key "" true) ≡ some b =
        ground arith in
      let (fits, found) =
        env.bookings.find_one_sound s.bookings (is_asked_booking key "" true) b one in
      (ground (arith, eq_iff b.id key), found, inl refl, ground arith)
  get_booking_own id u false s s' b h =
      let (key, k) = some_of (env.cast_id id) (λ e. ground arith) in
      let (owner, o) = some_of (env.cast_id u) (λ e. ground arith) in
      let one : env.bookings.find_one s.bookings (is_asked_booking key owner false) ≡ some b =
        ground arith in
      let (fits, found) =
        env.bookings.find_one_sound s.bookings (is_asked_booking key owner false) b one in
      (
        ground (arith, eq_iff b.id key),
        found,
        inr (ground (arith, eq_iff b.doc.user_id owner)),
        ground arith,
      )
