-- ===== src/Tests/Sample.antt =====
-- A small world: one bus with three seats, two users, and an empty in-memory database beside it.
use bus_booking_backend.Prelude.{
  String, ◌≡◌, Option, none, some, List, [], ◌∷◌, str_eq, if◌then◌else◌, arith,
}
use bus_booking_backend.Store.{ObjectId}
use bus_booking_backend.Documents.{
  Seat, SeatStatus, Bus, BusStatus, VehicleType, Booking, BookingStatus, Passenger, Gender,
}
use bus_booking_backend.World.{Env, State}
use bus_booking_backend.Booking.Create.{CreateBookingDto}
use bus_booking_backend.Tests.Memory.{memory}
use bus_booking_backend.Tests.MemoryRedis.{memory_redis}

abbrev pub bus_id : ObjectId
bus_id = "aaaaaaaaaaaaaaaaaaaaaaaa"

abbrev pub alice : ObjectId
alice = "bbbbbbbbbbbbbbbbbbbbbbbb"

abbrev pub bob : ObjectId
bob = "cccccccccccccccccccccccc"

-- Every text but the empty one is an identifier.
abbrev pub cast_text : String → Option ObjectId
cast_text s = if str_eq s "" then none else some s

pub cast_text_idem : (s : String) (i : ObjectId) → cast_text s ≡ some i → cast_text i ≡ some i
cast_text_idem s i h = ground arith

abbrev pub env : Env
env = record {
  buses = memory;
  bookings = memory;
  payments = memory;
  users = memory;
  grievances = memory;
  drivers = memory;
  redis = memory_redis;
  cast_id = cast_text;
  cast_id_idem = cast_text_idem;
  parse_date = λ s. if str_eq s "2" then 2 else 0;
  booking_ref = λ drawn_with now. "BB1";
  pnr_number = λ drawn_with now. "PNR1";
  set_past_end = λ seats i f. seats;
  seat_lock_ttl = 600;
  otp_ttl = 300;
}

abbrev pub seat : String → Seat
seat n = record { seat_no = n; status = SeatStatus.available; fare = 100; booked_by_user_id = none }

abbrev pub bus : Bus
bus = record {
  bus_no = "KA-01";
  operator_id = bob;
  tenant_id = none;
  vehicle_type = VehicleType.seater;
  route = record { origin = "A"; destination = "B"; stops = [] };
  depart_at = 1000;
  arrive_at = 2000;
  total_seats = 3;
  seats = seat "01" ∷ seat "02" ∷ seat "03" ∷ [];
  base_fare = 100;
  amenities = [];
  status = BusStatus.active;
}

abbrev pub passenger : String → Passenger
passenger n = record {
  name = "Asha";
  age = 30;
  gender = Gender.female;
  seat_no = n;
  id_type = none;
  id_number = none;
}

abbrev pub request : List Passenger → CreateBookingDto
request passengers = record {
  bus_id = bus_id;
  travel_date = "";
  origin = "A";
  destination = "B";
  passengers = passengers;
}

abbrev pub start : State env
start = record {
  now = 0;
  buses = record { id = bus_id; doc = bus } ∷ [];
  bookings = [];
  payments = [];
  users = [];
  grievances = [];
  drivers = [];
  redis = [];
  events = [];
  jobs = [];
}

-- The booking of two seats that `start` has no trace of.
abbrev pub booking : BookingStatus → Option ObjectId → List Passenger → Booking
booking status payment_id passengers = record {
  booking_ref = "BB1";
  user_id = alice;
  bus_id = bus_id;
  tenant_id = none;
  booking_at = 0;
  travel_date = 0;
  origin = "A";
  destination = "B";
  passengers = passengers;
  total_fare = 200;
  payment_id = payment_id;
  status = status;
  cancellation_reason = none;
  cancelled_at = none;
  cancelled_by = none;
  refund_amount = none;
  pnr_number = "PNR1";
  ticket_url = none;
}

-- The world with a booking of the seats 02 and 03 in it.
abbrev pub with_booking : BookingStatus → State env
with_booking status = record start {
  bookings =
      record { id = "a"; doc = booking status none (passenger "02" ∷ passenger "03" ∷ []) } ∷ [];
}
