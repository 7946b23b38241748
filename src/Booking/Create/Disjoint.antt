-- ===== src/Booking/Create/Disjoint.antt =====
-- Two bookings of one bus, one call after the other (src/modules/booking/booking.service.ts).
use bus_booking_backend.Prelude.{
  String, ◌≡◌, sym, ◌∙◌, true, false, Option, List, [], ◌∷◌, All, includes, str_eq, str_eq_refl,
  some_eq, eq_iff, subst, Bool-cases, Option-cases, inl, inr,
}
use bus_booking_backend.Store.{ObjectId, ok, Stored}
use bus_booking_backend.World.{Env, State}
use bus_booking_backend.Documents.{Seat, Booking, seat_nos}
use bus_booking_backend.Booking.Seats.{find_seat, mark_locked}
use bus_booking_backend.Booking.Seats.Scan.{IsFree}
use bus_booking_backend.Booking.Seats.Marks.{AreMarked}
use bus_booking_backend.Booking.Create.{CreateBookingDto, create_booking}
use bus_booking_backend.Booking.Create.Created.{create_booking-IsCreated}

-- What a predicate holds of, if it holds of all.
All_at :
    (P : String → Type 0) (n : String) (ns : List String) → All P ns → includes n ns ≡ true → P n
All_at P n [] h e = cc
All_at P n (m ∷ ns) (p, h) e = elim (Bool-cases (str_eq m n)) [
  | inl same ↦ subst P ((eq_iff m n).0 same) p
  | inr other ↦ All_at P n ns h (rw other at e)
]

-- A seat that is marked as locked is not free.
locked_not_free :
    (u : ObjectId) (ns : List String) (before after : List Seat) (n : String)
    → AreMarked (mark_locked u) ns before after
    → includes n ns ≡ true
    → IsFree after n
    → ⊥
locked_not_free u ns before after n marks named (seat, at, free) =
    elim (Option-cases (find_seat n before)) [
      | inl missing ↦ let k = marks n in cc (rw (named, missing) at k)
      | inr (old, found) ↦ let k = marks n in cc (rw (named, found) at k)
    ]

module _ (env : Env) where
  -- If one call books seats of a bus, and the next call books seats of the same bus, then no seat is
  -- in both bookings.
  pub create_booking_disjoint :
      (dto dto' : CreateBookingDto) (u u' : String) (ten ten' : Option String) (s t s' : State env)
      (b b' : Stored Booking) (n : String)
      → create_booking env dto u ten s ≡ (ok b, t)
      → create_booking env dto' u' ten' t ≡ (ok b', s')
      → b'.doc.bus_id ≡ b.doc.bus_id
      → includes n (seat_nos b.doc.passengers) ≡ true
      → includes n (seat_nos b'.doc.passengers) ≡ false
  create_booking_disjoint dto dto' u u' ten ten' s t s' b b' n h h' same_bus named =
      let (bus, k) = create_booking-IsCreated env dto u ten s t b h in
      let (bus', k') = create_booking-IsCreated env dto' u' ten' t s' b' h' in
      let (after, buses, _, marks) = k.buses in
      let same : bus.id ≡ bus'.id = sym k.on_bus ∙ sym same_bus ∙ k'.on_bus in
      let seen : after ≡ bus'.doc =
        some_eq (sym (rw (same, str_eq_refl bus'.id) at (buses bus'.id)) ∙ k'.found) in
      elim (Bool-cases (includes n (seat_nos b'.doc.passengers))) [
        | inr absent ↦ absent
        | inl also ↦ absurd (
            locked_not_free b.doc.user_id (seat_nos dto.passengers) bus.doc.seats after.seats n
              marks (rw k.passengers at named)
              (rw seen (
                All_at (IsFree bus'.doc.seats) n (seat_nos dto'.passengers) k'.free
                  (rw k'.passengers at also))))
      ]
