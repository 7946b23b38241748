-- ===== src/Notices/Reading.antt =====
-- Reading a notification twice (src/modules/notification/notification.service.ts).
use mathlib.Core.Option
use bus_booking_backend.Prelude.{
  String, Bool, true, ◌≡◌, refl, ap, sym, ◌∙◌, Option, none, some, List, [], ◌∷◌, ◌++◌, includes,
  str_eq, str_eq_refl, if◌then◌else◌, arith, some_of, some_eq, false,
}
use bus_booking_backend.Store.{ObjectId, Result, ok, err}
use bus_booking_backend.Errors.{Error}
use bus_booking_backend.Store.Laws.{update_mapped}
use bus_booking_backend.Documents.{Notification}
use bus_booking_backend.Events.{DomainEvent}
use bus_booking_backend.World.{Table}
use bus_booking_backend.Notices.{add_to_set, set_read, mark_as_read}

includes-append : (i : ObjectId) (is : List ObjectId) → includes i (is ++ i ∷ []) ≡ true
includes-append i [] = ground (arith, str_eq_refl i)
includes-append i (j ∷ is) = ground (arith, includes-append i is)

add_to_set_twice :
    (i : ObjectId) (is : List ObjectId) → add_to_set i (add_to_set i is) ≡ add_to_set i is
add_to_set_twice i is = ground (arith, includes-append i is)

ok_of : {A : Type 0} (r : Result A) → ((e : Error) → r ≡ err e → ⊥) → (a : A) × (r ≡ ok a)
ok_of (ok a) h = (a, refl)
ok_of (err e) h = absurd (h e refl)

set_read_twice :
    (who : ObjectId) (n : Notification) → set_read who (set_read who n) ≡ set_read who n
set_read_twice who n = ap (λ l. record n { read_by = l }) (add_to_set_twice who n.read_by)

twice :
    (b : Bool) (who : ObjectId) (o p q : Option Notification)
    → p ≡ (if b then Option.map (set_read who) o else o)
    → q ≡ (if b then Option.map (set_read who) p else p)
    → q ≡ p
twice false who o p q h k = k
twice true who none p q h k = rw h at k ∙ sym h
twice true who (some n) p q h k =
    let e : Option.map (set_read who) p ≡ p = rw h (ap some (set_read_twice who n)) in k ∙ e

module _ {S : Type 0} (notifications : Table S Notification) (cast_id : String → Option ObjectId)
    (emit_event : DomainEvent → S → S)
    (get_put : (s : S) (c : notifications.model.Coll)
      → notifications.get (notifications.put s c) ≡ c) where
  marked :
      (id user : String) (s s' : S) (x : Unit {0})
      → mark_as_read notifications cast_id emit_event id user s ≡ (ok x, s')
      → (key who : ObjectId) × (cast_id id ≡ some key)
        × (cast_id user ≡ some who)
        × ((j : ObjectId)
            → notifications.model.find_by_id (notifications.get s') j ≡ (
                if str_eq key j
                then Option.map
                    (set_read who)
                    (notifications.model.find_by_id (notifications.get s) j)
                else notifications.model.find_by_id (notifications.get s) j))
  unfolding mark_as_read
  marked id user s s' x h =
      let (who, u) = some_of (cast_id user) (λ e. ground arith) in
      let (key, k) = some_of (cast_id id) (λ e. ground arith) in
      let (c, w) =
        ok_of (notifications.model.update_by_id (notifications.get s) key (set_read who))
          (λ e f. ground arith) in
      let same : s' ≡ notifications.put s c = ground arith in
      (
        key,
        who,
        k,
        u,
        λ j.
            rw (same, get_put s c)
              (update_mapped notifications.model (notifications.get s) c key (set_read who) w j),
      )

  -- Marking a notification as read a second time changes no notification.
  pub mark_as_read_twice :
      (id user : String) (s s' s'' : S) (x y : Unit {0}) (j : ObjectId)
      → mark_as_read notifications cast_id emit_event id user s ≡ (ok x, s')
      → mark_as_read notifications cast_id emit_event id user s' ≡ (ok y, s'')
      → notifications.model.find_by_id (notifications.get s'') j
        ≡ notifications.model.find_by_id (notifications.get s') j
  mark_as_read_twice id user s s' s'' x y j h h' =
      let (key, who, k, u, first) = marked id user s s' x h in
      let (key', who', k', u', second) = marked id user s' s'' y h' in
      let same_key : key' ≡ key = some_eq (sym k' ∙ k) in
      let same_user : who' ≡ who = some_eq (sym u' ∙ u) in
      twice (str_eq key j) who (notifications.model.find_by_id (notifications.get s) j)
        (notifications.model.find_by_id (notifications.get s') j)
        (notifications.model.find_by_id (notifications.get s'') j) (first j)
        (rw (same_key, same_user) at (second j))
