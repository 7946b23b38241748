-- ===== src/Sockets/Delivered.antt =====
-- Which sockets get the messages about a booking and its payment (src/socket/socket.gateway.ts).
use bus_booking_backend.Prelude.{
  ℕ, String, Bool, true, false, not, ◌&&◌, Option, none, some, List, [], ◌∷◌, filter, str_eq, ◌≡◌,
  refl, ap, arith, eq_iff, str_eq_refl, Bool-cases, inl, inr,
}
use bus_booking_backend.Store.{ok}
use bus_booking_backend.Events.{DomainEvent}
use bus_booking_backend.Auth.{JwtPayload}
use bus_booking_backend.Sockets.{
  Room, Socket, Request, Message, bridge, admit, connect, serve, serve_all, is_in, same_room,
  receives, join_if,
}

both : {a b : Bool} → (a && b) ≡ true → (a ≡ true) × (b ≡ true)
both {a = true} h = (refl, h)
both {a = false} h = cc

-- Whether a socket of this user and tenant may be in a room: its user's, its tenant's, or a bus's.
abbrev fits : (user tenant : Option String) → Room → Bool
fits none tenant (Room.user_room id) = false
fits (some u) tenant (Room.user_room id) = str_eq u id
fits user none (Room.tenant_room id) = false
fits user (some t) (Room.tenant_room id) = str_eq t id
fits user tenant (Room.bus_room id) = true
fits user tenant (Room.booking_room id) = false

unfoldable all_fit : (user tenant : Option String) → List Room → Bool
all_fit user tenant [] = true
all_fit user tenant (r ∷ rs) = fits user tenant r && all_fit user tenant rs

same_room_eq : (r q : Room) → same_room r q ≡ true → r ≡ q
same_room_eq (Room.user_room a) (Room.user_room b) h = ap Room.user_room ((eq_iff a b).0 h)
same_room_eq (Room.tenant_room a) (Room.tenant_room b) h = ap Room.tenant_room ((eq_iff a b).0 h)
same_room_eq (Room.bus_room a) (Room.bus_room b) h = ap Room.bus_room ((eq_iff a b).0 h)
same_room_eq (Room.booking_room a) (Room.booking_room b) h = ap Room.booking_room ((eq_iff a b).0 h)
same_room_eq r q h = cc

-- A room that a socket is in fits it, if all its rooms do.
is_in-fits :
    (user tenant : Option String) (q : Room) (rs : List Room)
    → all_fit user tenant rs ≡ true
    → is_in q rs ≡ true
    → fits user tenant q ≡ true
unfolding all_fit
is_in-fits user tenant q [] h k = cc
is_in-fits user tenant q (r ∷ rs) h k = elim (Bool-cases (same_room r q)) [
  | inl same ↦ rw (← same_room_eq r q same) (both h).0
  | inr other ↦ is_in-fits user tenant q rs (both h).1 (rw other at k)
]

all_fit-filter :
    (user tenant : Option String) (p : Room → Bool) (rs : List Room)
    → all_fit user tenant rs ≡ true
    → all_fit user tenant (filter p rs) ≡ true
unfolding all_fit
all_fit-filter user tenant p [] h = refl
all_fit-filter user tenant p (r ∷ rs) h = elim (Bool-cases (p r)) [
  | inl keeps ↦
      let (first, others) = both {a = fits user tenant r} {b = all_fit user tenant rs} h in
      rw (keeps, first, all_fit-filter user tenant p rs others)
  | inr drops ↦ rw drops (all_fit-filter user tenant p rs (both h).1)
]

own : (u t : Option String) (user : String) → fits u t (Room.user_room user) ≡ true → u ≡ some user
own none t user h = cc
own (some u) t user h = ap some ((eq_iff u user).0 h)

-- The rooms of a socket, whatever its client sends.
serve_all_fits :
    (rs : List Request) (s : Socket)
    → all_fit s.user_id s.tenant_id s.rooms ≡ true
    → all_fit s.user_id s.tenant_id (serve_all rs s).rooms ≡ true
unfolding serve_all serve all_fit
serve_all_fits [] s h = h
serve_all_fits (Request.join_bus b ∷ rs) s h =
    serve_all_fits rs (record s { rooms = Room.bus_room b ∷ s.rooms }) h
serve_all_fits (Request.leave_bus b ∷ rs) s h =
    serve_all_fits rs
      (record s { rooms = filter (λ r. not (same_room r (Room.bus_room b))) s.rooms })
      (all_fit-filter s.user_id s.tenant_id (λ r. not (same_room r (Room.bus_room b))) s.rooms h)

admit_empty :
    (verify : String → Option JwtPayload) (token : Option String) (s : Socket)
    → admit verify token ≡ ok s
    → s.rooms ≡ []
unfolding admit
admit_empty verify none s h = ground arith
admit_empty verify (some token) s h = ground arith

joined_fit :
    (u t : Option String)
    → all_fit u t (join_if Room.tenant_room t (join_if Room.user_room u [])) ≡ true
unfolding all_fit
joined_fit none none = refl
joined_fit (some u) none = ground (arith, str_eq_refl u)
joined_fit none (some t) = ground (arith, str_eq_refl t)
joined_fit (some u) (some t) = ground (arith, str_eq_refl u, str_eq_refl t)

connect_fits :
    (s : Socket)
    → s.rooms ≡ []
    → all_fit (connect s).user_id (connect s).tenant_id (connect s).rooms ≡ true
unfolding connect
connect_fits s h = rw h (joined_fit s.user_id s.tenant_id)

module _ (verify : String → Option JwtPayload) (token : Option String) (s : Socket)
    (requests : List Request) where
  -- The socket after the handshake and after what its client has sent.
  abbrev pub served : Socket
  served = serve_all requests (connect s)

  served_fits : admit verify token ≡ ok s → all_fit s.user_id s.tenant_id served.rooms ≡ true
  unfolding connect
  served_fits h =
      serve_all_fits requests (connect s) (connect_fits s (admit_empty verify token s h))

  -- A message about a confirmed booking reaches a socket only if the token of its handshake names
  -- the user of the booking, whatever its client sends.
  pub booking_confirmed_private :
      (booking user payment : String) (m : Message)
      → admit verify token ≡ ok s
      → receives (DomainEvent.booking_confirmed booking user payment) served ≡ some m
      → s.user_id ≡ some user
  unfolding receives bridge
  booking_confirmed_private booking user payment m h r =
      elim (Bool-cases (is_in (Room.user_room user) served.rooms)) [
        | inr out ↦ cc (rw out at r)
        | inl inside ↦ own s.user_id s.tenant_id user (
            is_in-fits s.user_id s.tenant_id (Room.user_room user) served.rooms (served_fits h)
              inside)
      ]

  -- No socket ever gets a message about a successful payment: the room of its booking is one that
  -- no handshake and no request joins.
  pub payment_success_undelivered :
      (payment booking : String) (amount : ℕ)
      → admit verify token ≡ ok s
      → receives (DomainEvent.payment_success payment booking amount) served ≡ none
  unfolding receives bridge
  payment_success_undelivered payment booking amount h =
      elim (Bool-cases (is_in (Room.booking_room booking) served.rooms)) [
        | inr out ↦ rw out
        | inl inside ↦ cc (
            is_in-fits s.user_id s.tenant_id (Room.booking_room booking) served.rooms
              (served_fits h) inside)
      ]
