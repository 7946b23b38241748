-- ===== src/Access.antt =====
-- The permissions of src/core/types/index.ts and the gates of
-- src/core/middlewares/auth.middleware.ts.
pub mod Gates
use bus_booking_backend.Prelude.{
  String, Bool, true, false, not, Option, none, some, List, [], ◌∷◌, all, includes, map,
  if◌then◌else◌,
}
use bus_booking_backend.Errors.{unauthorized, forbidden}
use bus_booking_backend.Store.{Result, ok, err}
use bus_booking_backend.Documents.{Role, role_text}

-- `enum Permission`
pub data Permission : Type 0 where
  read_profile update_profile : Permission
  create_booking read_own_booking read_all_bookings cancel_own_booking : Permission
  cancel_any_booking : Permission
  read_bus create_bus update_bus delete_bus : Permission
  initiate_payment read_own_payment read_all_payments refund_payment : Permission
  read_notifications create_notification delete_notification : Permission
  manage_users manage_tenants view_analytics manage_operators : Permission

-- The value of the enumeration, which `includes` compares.
abbrev pub permission_text : Permission → String
permission_text read_profile = "read:profile"
permission_text update_profile = "update:profile"
permission_text create_booking = "create:booking"
permission_text read_own_booking = "read:own_booking"
permission_text read_all_bookings = "read:all_bookings"
permission_text cancel_own_booking = "cancel:own_booking"
permission_text cancel_any_booking = "cancel:any_booking"
permission_text read_bus = "read:bus"
permission_text create_bus = "create:bus"
permission_text update_bus = "update:bus"
permission_text delete_bus = "delete:bus"
permission_text initiate_payment = "initiate:payment"
permission_text read_own_payment = "read:own_payment"
permission_text read_all_payments = "read:all_payments"
permission_text refund_payment = "refund:payment"
permission_text read_notifications = "read:notifications"
permission_text create_notification = "create:notification"
permission_text delete_notification = "delete:notification"
permission_text manage_users = "manage:users"
permission_text manage_tenants = "manage:tenants"
permission_text view_analytics = "view:analytics"
permission_text manage_operators = "manage:operators"

-- `Object.values(Permission)`
abbrev pub all_permissions : List Permission
all_permissions =
    read_profile ∷ update_profile ∷ create_booking ∷ read_own_booking ∷ read_all_bookings
    ∷ cancel_own_booking ∷ cancel_any_booking ∷ read_bus ∷ create_bus ∷ update_bus ∷ delete_bus
    ∷ initiate_payment ∷ read_own_payment ∷ read_all_payments ∷ refund_payment ∷ read_notifications
    ∷ create_notification ∷ delete_notification ∷ manage_users ∷ manage_tenants ∷ view_analytics
    ∷ manage_operators ∷ []

-- `ROLE_PERMISSIONS`
unfoldable pub role_permissions : Role → List Permission
role_permissions Role.user =
    read_profile ∷ update_profile ∷ create_booking ∷ read_own_booking ∷ cancel_own_booking
    ∷ initiate_payment ∷ read_own_payment ∷ read_notifications ∷ read_bus ∷ []
role_permissions Role.operator =
    read_profile ∷ update_profile ∷ create_bus ∷ update_bus ∷ read_bus ∷ read_all_bookings
    ∷ read_all_payments ∷ read_notifications ∷ create_notification ∷ view_analytics ∷ []
role_permissions Role.admin =
    read_profile ∷ update_profile ∷ manage_users ∷ create_bus ∷ update_bus ∷ delete_bus ∷ read_bus
    ∷ read_all_bookings ∷ cancel_any_booking ∷ read_all_payments ∷ refund_payment
    ∷ read_notifications ∷ create_notification ∷ delete_notification ∷ manage_operators
    ∷ view_analytics ∷ []
role_permissions Role.manager =
    read_profile ∷ update_profile ∷ read_bus ∷ read_all_bookings ∷ read_all_payments
    ∷ read_notifications ∷ []
role_permissions Role.driver =
    read_profile ∷ update_profile ∷ read_bus ∷ read_all_bookings ∷ read_notifications ∷ []
role_permissions Role.conductor =
    read_profile ∷ update_profile ∷ read_bus ∷ read_all_bookings ∷ read_notifications ∷ []
role_permissions Role.super_admin = all_permissions

-- `userPermissions.includes(p)`
unfoldable pub has_permission : Role → Permission → Bool
unfolding role_permissions
has_permission role p = includes (permission_text p) (map permission_text (role_permissions role))

-- `authorize(...permissions)` on the role of the request's user, if there is one
unfoldable pub authorize : List Permission → Option Role → Result (Unit {0})
authorize permissions none = err (unauthorized "Unauthorized")
authorize permissions (some role) =
    if not (all (has_permission role) permissions)
    then err (forbidden "Insufficient permissions")
    else ok tt

-- `requireRoles(...roles)`
unfoldable pub require_roles : List Role → Option Role → Result (Unit {0})
require_roles roles none = err (unauthorized "Unauthorized")
require_roles roles (some role) =
    if not (includes (role_text role) (map role_text roles))
    then err (forbidden "Role not allowed")
    else ok tt
