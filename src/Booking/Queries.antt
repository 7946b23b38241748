-- ===== src/Booking/Queries.antt =====
-- `getBooking`, `listUserBookings` and `listAllBookings` of
-- src/modules/booking/booking.service.ts, without the fields of other documents that `populate`
-- adds to the answers.
pub mod Own
use bus_booking_backend.Prelude.{
  ℕ, String, Bool, true, false, not, ◌&&◌, ◌||◌, Option, none, some, str_eq, leb, if◌then◌else◌,
}
use bus_booking_backend.Errors.{not_found}
use bus_booking_backend.Store.{ObjectId, Stored}
use bus_booking_backend.Action.{Action, pure, or_throw, gets, ◌>>=◌}
use bus_booking_backend.Documents.{Booking, BookingStatus, is_cancellable, status_text}
use bus_booking_backend.World.{Env, State, load_one, cast_or_throw, bookings_of}
use bus_booking_backend.Pages.{Page, paginate}

-- `listBookingSchema`; `upcoming` is whether the text is 'true'
pub record ListBookingDto : Type 0 where
  pub page : ℕ
  pub limit : ℕ
  pub status : Option BookingStatus
  pub upcoming : Bool

-- `filter.status`, where `upcoming` replaces the requested one
abbrev pub has_listed_status : ListBookingDto → Booking → Bool
has_listed_status dto b =
    if dto.upcoming
    then is_cancellable b.status
    else elim dto.status [ none ↦ true | some st ↦ str_eq (status_text b.status) (status_text st) ]

abbrev pub has_booking_tenant : Option ObjectId → Option ObjectId → Bool
has_booking_tenant none b = true
has_booking_tenant (some t) none = false
has_booking_tenant (some t) (some u) = str_eq u t

-- `isAdmin ? { _id } : { _id, userId }`
abbrev pub is_asked_booking : (id user_id : ObjectId) → Bool → Stored Booking → Bool
is_asked_booking id user_id is_admin b =
    str_eq b.id id && (is_admin || str_eq b.doc.user_id user_id)

module _ (env : Env) where
  unfoldable pub get_booking : String → String → Bool → Action (State env) (Stored Booking)
  get_booking booking_id user_id is_admin = do
    key ← cast_or_throw env booking_id
    owner ← if is_admin then pure "" else cast_or_throw env user_id
    found ← load_one (bookings_of env) (is_asked_booking key owner is_admin)
    or_throw found (not_found "Booking")

  unfoldable pub list_user_bookings : String → ListBookingDto → Action (State env) (Page Booking)
  list_user_bookings user_id dto = do
    owner ← cast_or_throw env user_id
    now ← gets (λ s. s.now)
    paginate (bookings_of env)
        (λ b.
          str_eq b.doc.user_id owner
          && has_listed_status dto b.doc
          && (not dto.upcoming || leb now b.doc.travel_date))
        dto.page dto.limit

  -- `tenantId ? { tenantId } : {}`, cast by the schema
  abbrev cast_tenant : Option String → Action (State env) (Option ObjectId)
  cast_tenant none = pure none
  cast_tenant (some t) =
      if str_eq t "" then pure none else (cast_or_throw env t >>= λ i. pure (some i))

  unfoldable pub list_all_bookings :
      ListBookingDto → Option String → Action (State env) (Page Booking)
  list_all_bookings dto tenant_id = do
    tenant ← cast_tenant tenant_id
    paginate (bookings_of env)
        (λ b. has_booking_tenant tenant b.doc.tenant_id && elim dto.status [
          | none ↦ true
          | some st ↦ str_eq (status_text b.doc.status) (status_text st)
        ])
        dto.page dto.limit
