-- ===== src/BusService/Schemas.antt =====
-- The requests of src/modules/bus/bus.validation.ts, and the seats of a new bus in
-- src/modules/bus/bus.service.ts.
use bus_booking_backend.Prelude.{
  ℕ, zero, suc, ◌+◌, String, Option, none, some, List, [], ◌∷◌, map, length, ltb, ◌<>◌, codes,
  decimal, if◌then◌else◌,
}
use bus_booking_backend.Documents.{Seat, SeatStatus, VehicleType, BusStatus}

-- `stopSchema`
pub record StopDto : Type 0 where
  pub name : String
  pub code : String
  pub order : ℕ
  pub arrival_time : Option String
  pub departure_time : Option String
  pub fare_from_origin : ℕ

-- `seatSchema`
pub record SeatDto : Type 0 where
  pub seat_no : String
  pub status : SeatStatus
  pub fare : ℕ

-- `route` of `createBusSchema`
pub record RouteDto : Type 0 where
  pub origin : String  -- `from`
  pub destination : String  -- `to`
  pub stops : List StopDto

-- `createBusSchema`
pub record CreateBusDto : Type 0 where
  pub bus_no : String
  pub vehicle_type : VehicleType
  pub route : RouteDto
  pub depart_at : String
  pub arrive_at : String
  pub total_seats : ℕ
  pub seats : Option (List SeatDto)
  pub base_fare : ℕ
  pub amenities : List String

-- `updateBusSchema`
pub record UpdateBusDto : Type 0 where
  pub bus_no : Option String
  pub vehicle_type : Option VehicleType
  pub route : Option RouteDto
  pub depart_at : Option String
  pub arrive_at : Option String
  pub total_seats : Option ℕ
  pub seats : Option (List SeatDto)
  pub base_fare : Option ℕ
  pub amenities : Option (List String)
  pub status : Option BusStatus

-- `toString().padStart(2, '0')` of a number that is not empty
unfoldable pub pad_start : String → String
unfolding codes
pad_start text = if ltb (length (codes text)) 2 then "0" <> text else text

-- The seats that a bus gets if the request lists none, from an index on.
unfoldable pub default_seats : (first count : ℕ) → (fare : ℕ) → List Seat
default_seats i zero fare = []
default_seats i (suc count) fare =
    record {
      seat_no = pad_start (decimal (i + 1));
      status = SeatStatus.available;
      fare = fare;
      booked_by_user_id = none;
    }
    ∷ default_seats (i + 1) count fare

abbrev pub to_seat : SeatDto → Seat
to_seat d = record {
  seat_no = d.seat_no;
  status = d.status;
  fare = d.fare;
  booked_by_user_id = none;
}

-- `dto.seats?.length ? dto.seats : Array.from(...)`
abbrev pub seats_or_default : Option (List SeatDto) → (total_seats base_fare : ℕ) → List Seat
seats_or_default (some (d ∷ ds)) total_seats base_fare = map to_seat (d ∷ ds)
seats_or_default _ total_seats base_fare = default_seats 0 total_seats base_fare
