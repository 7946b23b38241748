-- ===== src/Notices.antt =====
-- src/modules/notification/notification.service.ts. Its collection is a parameter, like the cast of
-- an identifier and the event bus.
pub mod Reading
use bus_booking_backend.Prelude.{
  ℕ, String, Bool, true, false, not, ◌&&◌, ◌||◌, Option, none, some, List, [], ◌∷◌, ◌++◌, str_eq,
  includes, get_or_default, if◌then◌else◌,
}
use bus_booking_backend.Errors.{cast, unknown, not_found}
use bus_booking_backend.Store.{ObjectId, Stored}
use bus_booking_backend.Action.{Action, pure, or_throw, modify, ◌>>=◌, ◌>>◌}
use bus_booking_backend.Documents.{Notification, NotificationTarget, NotificationKind, target_text}
use bus_booking_backend.Events.{DomainEvent}
use bus_booking_backend.World.{Table, load, update, insert}
use bus_booking_backend.Pages.{Page, paginate}

-- `CreateNotificationDto`, without `metadata`
pub record CreateNotificationDto : Type 0 where
  pub title : String
  pub body : String
  pub kind : Option NotificationKind
  pub target : NotificationTarget
  pub target_ids : List String
  pub channels : Option (List String)
  pub expires_at : Option ℕ
  pub is_persistent : Option Bool

-- The document that `Notification.create` is given, with the defaults of the schema.
abbrev pub new_notification :
    CreateNotificationDto → (created_by : ObjectId) → List ObjectId → Option ObjectId → Notification
new_notification dto created_by target_ids tenant_id = record {
  tenant_id = tenant_id;
  title = dto.title;
  body = dto.body;
  kind = get_or_default dto.kind NotificationKind.info;
  target = dto.target;
  target_ids = target_ids;
  channels = get_or_default dto.channels ("in_app" ∷ []);
  created_by = created_by;
  expires_at = dto.expires_at;
  read_by = [];
  delivered_to = [];
  is_persistent = get_or_default dto.is_persistent false;
}

-- `$addToSet`
abbrev pub add_to_set : ObjectId → List ObjectId → List ObjectId
add_to_set i is = if includes i is then is else is ++ i ∷ []

abbrev pub set_read : ObjectId → Notification → Notification
set_read user n = record n { read_by = add_to_set user n.read_by }

abbrev names : (target : String) → ObjectId → Notification → Bool
names target user n = str_eq (target_text n.target) target && includes user n.target_ids

-- The `$or` of `list`
abbrev pub is_for : ObjectId → Notification → Bool
is_for user n = str_eq (target_text n.target) "all" || names "users" user n || names "custom" user n

abbrev has_notice_tenant : Option ObjectId → Option ObjectId → Bool
has_notice_tenant none b = true
has_notice_tenant (some t) none = false
has_notice_tenant (some t) (some u) = str_eq u t

module _ {S : Type 0} (notifications : Table S Notification) (cast_id : String → Option ObjectId)
    (emit_event : DomainEvent → S → S) where
  -- `new Types.ObjectId(id)`
  abbrev as_id : String → Action S ObjectId
  as_id id = or_throw (cast_id id) (unknown "BSONError")

  -- `ids.map((id) => new Types.ObjectId(id))`
  unfoldable pub as_ids : List String → Action S (List ObjectId)
  as_ids [] = pure []
  as_ids (id ∷ ids) = as_id id >>= λ i. as_ids ids >>= λ is. pure (i ∷ is)

  -- `tenantId ? new Types.ObjectId(tenantId) : ...`
  abbrev as_tenant : Option String → Action S (Option ObjectId)
  as_tenant none = pure none
  as_tenant (some t) = if str_eq t "" then pure none else (as_id t >>= λ i. pure (some i))

  -- `create`
  unfoldable pub create_notification :
      CreateNotificationDto → String → Option String → Action S (Stored Notification)
  create_notification dto created_by_id tenant_id = do
    created_by ← as_id created_by_id
    target_ids ← as_ids dto.target_ids
    tenant ← as_tenant tenant_id
    notification ← insert notifications (new_notification dto created_by target_ids tenant)
    modify (emit_event (DomainEvent.notification_created notification.id (target_text dto.target)))
    pure notification

  -- `list`
  unfoldable pub list_notifications :
      String → Option String → (page limit : ℕ) → Action S (Page Notification)
  list_notifications user_id tenant_id page limit = do
    user ← as_id user_id
    tenant ← as_tenant tenant_id
    paginate notifications (λ n. is_for user n.doc && has_notice_tenant tenant n.doc.tenant_id) page
        limit

  -- `markAsRead`
  unfoldable pub mark_as_read : String → String → Action S (Unit {0})
  mark_as_read notification_id user_id = do
    user ← as_id user_id
    key ← or_throw (cast_id notification_id) (cast "_id" notification_id)
    update notifications key (set_read user)

  -- `delete`
  unfoldable pub delete_notification : String → Action S (Unit {0})
  delete_notification notification_id = do
    key ← or_throw (cast_id notification_id) (cast "_id" notification_id)
    found ← load notifications key
    _ ← or_throw found (not_found "Notification")
    modify (λ s. notifications.put s (notifications.model.delete_by_id (notifications.get s) key))
