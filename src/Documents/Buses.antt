-- ===== src/Documents/Buses.antt =====
-- src/modules/bus/bus.model.ts
use bus_booking_backend.Prelude.{ℕ, String, Option, List, Bool, true, false}
use bus_booking_backend.Store.{ObjectId}

pub data SeatStatus : Type 0 where
  available booked locked disabled : SeatStatus

pub record Seat : Type 0 where
  pub seat_no : String
  pub status : SeatStatus
  pub fare : ℕ
  pub booked_by_user_id : Option ObjectId

pub record Stop : Type 0 where
  pub name : String
  pub code : String
  pub order : ℕ
  pub arrival_time : Option ℕ
  pub departure_time : Option ℕ
  pub fare_from_origin : ℕ

pub data VehicleType : Type 0 where
  seater sleeper ac_seater ac_sleeper luxury : VehicleType

pub record Route : Type 0 where
  pub origin : String  -- `from`
  pub destination : String  -- `to`
  pub stops : List Stop

pub data BusStatus : Type 0 where
  active cancelled delayed completed boarding : BusStatus

-- `meta`, which no service reads, is left out.
pub record Bus : Type 0 where
  pub bus_no : String
  pub operator_id : ObjectId
  pub tenant_id : Option ObjectId
  pub vehicle_type : VehicleType
  pub route : Route
  pub depart_at : ℕ
  pub arrive_at : ℕ
  pub total_seats : ℕ
  pub seats : List Seat
  pub base_fare : ℕ
  pub amenities : List String
  pub status : BusStatus

-- `=== 'available'`
abbrev pub is_available : SeatStatus → Bool
is_available available = true
is_available _ = false

-- `=== 'active'`
abbrev pub is_active_bus : BusStatus → Bool
is_active_bus active = true
is_active_bus _ = false
