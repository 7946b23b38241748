-- ===== src/Sockets.antt =====
-- src/socket/socket.gateway.ts: the rooms that a socket joins, and the bridges from domain events to
-- messages. Delivery itself is the package socket.io, which sends a message for a room to the
-- sockets that are in it.
pub mod Delivered
use bus_booking_backend.Prelude.{
  ℕ, String, Bool, true, false, not, ◌||◌, Option, none, some, List, [], ◌∷◌, ◌++◌, filter, str_eq,
  ◌<>◌, if◌then◌else◌,
}
use bus_booking_backend.Errors.{unknown}
use bus_booking_backend.Store.{Result, ok, err}
use bus_booking_backend.Events.{DomainEvent}
use bus_booking_backend.Auth.{JwtPayload}

-- The rooms, by the template that makes their names.
pub data Room : Type 0 where
  user_room tenant_room bus_room booking_room : (id : String) → Room

-- `user:${id}`, `tenant:${id}`, `bus:${id}`, `booking:${id}`
abbrev pub room_text : Room → String
room_text (user_room id) = "user:" <> id
room_text (tenant_room id) = "tenant:" <> id
room_text (bus_room id) = "bus:" <> id
room_text (booking_room id) = "booking:" <> id

abbrev pub same_room : Room → Room → Bool
same_room (user_room a) (user_room b) = str_eq a b
same_room (tenant_room a) (tenant_room b) = str_eq a b
same_room (bus_room a) (bus_room b) = str_eq a b
same_room (booking_room a) (booking_room b) = str_eq a b
same_room _ _ = false

-- The messages, with the name of their event.
pub data Message : Type 0 where
  booking_update : (booking_id status : String) → Message
  payment_update : (payment_id status : String) → Message
  seat_locked : (bus_id : String) (seats : List String) → Message
  bus_status : (bus_id status : String) → Message
  new_notification : (notification_id : String) → Message

-- `io.to(room).emit(...)` and `io.emit(...)`
pub data Target : Type 0 where
  to_room : Room → Target
  to_all : Target

-- `registerEventBridges`
unfoldable pub bridge : DomainEvent → Option (Target × Message)
bridge (DomainEvent.booking_confirmed booking_id user_id payment_id) =
    some (to_room (user_room user_id), booking_update booking_id "confirmed")
bridge (DomainEvent.booking_cancelled booking_id user_id reason) =
    some (to_room (user_room user_id), booking_update booking_id "cancelled")
bridge (DomainEvent.payment_success payment_id booking_id amount) =
    some (to_room (booking_room booking_id), payment_update payment_id "success")
bridge (DomainEvent.payment_failed payment_id booking_id reason) =
    some (to_room (booking_room booking_id), payment_update payment_id "failed")
bridge (DomainEvent.seat_locked bus_id seats user_id) =
    some (to_room (bus_room bus_id), Message.seat_locked bus_id seats)
bridge (DomainEvent.bus_status_changed bus_id status) =
    some (to_room (bus_room bus_id), bus_status bus_id status)
bridge (DomainEvent.notification_created notification_id target) =
    some (to_all, new_notification notification_id)
bridge _ = none

-- `socket.data`, without the role, which nothing reads, and the rooms that the socket is in.
pub record Socket : Type 0 where
  pub user_id : Option String
  pub tenant_id : Option String
  pub rooms : List Room

-- The middleware on a new socket. `token` is what the handshake gives, and `verify` is
-- `jwt.verify(token, env.jwt.secret)`, `none` where it throws.
unfoldable pub admit : (verify : String → Option JwtPayload) → Option String → Result Socket
admit verify none = ok (record { user_id = none; tenant_id = none; rooms = [] })
admit verify (some token) =
    if str_eq token ""
    then ok (record { user_id = none; tenant_id = none; rooms = [] })
    else elim (verify token) [
      | none ↦ err (unknown "Invalid token")
      | some payload ↦
          ok (record { user_id = some payload.sub; tenant_id = payload.tenant_id; rooms = [] })
    ]

-- `if (id) socket.join(room)`
abbrev pub join_if : (String → Room) → Option String → List Room → List Room
join_if room none rooms = rooms
join_if room (some id) rooms = if str_eq id "" then rooms else room id ∷ rooms

-- The handler of `connection`.
unfoldable pub connect : Socket → Socket
connect s = record s {
  rooms = join_if tenant_room s.tenant_id (join_if user_room s.user_id s.rooms);
}

-- What a client may send: `join:bus` and `leave:bus`.
pub data Request : Type 0 where
  join_bus leave_bus : (bus_id : String) → Request

unfoldable pub serve : Request → Socket → Socket
serve (join_bus bus_id) s = record s { rooms = bus_room bus_id ∷ s.rooms }
serve (leave_bus bus_id) s = record s {
  rooms = filter (λ r. not (same_room r (bus_room bus_id))) s.rooms;
}

unfoldable pub serve_all : List Request → Socket → Socket
serve_all [] s = s
serve_all (r ∷ rs) s = serve_all rs (serve r s)

abbrev pub is_in : Room → List Room → Bool
is_in room [] = false
is_in room (r ∷ rs) = same_room r room || is_in room rs

-- What a socket gets of an event.
unfoldable pub receives : DomainEvent → Socket → Option Message
receives event s = elim (bridge event) [
  | none ↦ none
  | some (to_all, message) ↦ some message
  | some (to_room room, message) ↦ if is_in room s.rooms then some message else none
]
