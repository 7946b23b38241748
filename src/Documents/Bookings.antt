-- ===== src/Documents/Bookings.antt =====
-- src/modules/booking/booking.model.ts
use bus_booking_backend.Prelude.{ℕ, String, Option, List, Bool, true, false, map}
use bus_booking_backend.Store.{ObjectId}

pub data Gender : Type 0 where
  male female other : Gender

pub data IdType : Type 0 where
  aadhar pan passport driving_license : IdType

pub record Passenger : Type 0 where
  pub name : String
  pub age : ℕ
  pub gender : Gender
  pub seat_no : String
  pub id_type : Option IdType
  pub id_number : Option String

pub data BookingStatus : Type 0 where
  pending confirmed cancelled refunded expired : BookingStatus

pub record Booking : Type 0 where
  pub booking_ref : String
  pub user_id : ObjectId
  pub bus_id : ObjectId
  pub tenant_id : Option ObjectId
  pub booking_at : ℕ
  pub travel_date : ℕ
  pub origin : String  -- `from`
  pub destination : String  -- `to`
  pub passengers : List Passenger
  pub total_fare : ℕ
  pub payment_id : Option ObjectId
  pub status : BookingStatus
  pub cancellation_reason : Option String
  pub cancelled_at : Option ℕ
  pub cancelled_by : Option ObjectId
  pub refund_amount : Option ℕ
  pub pnr_number : String
  pub ticket_url : Option String

-- `passengers.map((p) => p.seatNo)`
abbrev pub seat_nos : List Passenger → List String
seat_nos = map (λ p. p.seat_no)

-- `=== 'pending'`
abbrev pub is_pending : BookingStatus → Bool
is_pending pending = true
is_pending _ = false

-- `['pending', 'confirmed'].includes(status)`
abbrev pub is_cancellable : BookingStatus → Bool
is_cancellable pending = true
is_cancellable confirmed = true
is_cancellable _ = false

abbrev pub status_text : BookingStatus → String
status_text pending = "pending"
status_text confirmed = "confirmed"
status_text cancelled = "cancelled"
status_text refunded = "refunded"
status_text expired = "expired"
