-- ===== src/Access/Gates.antt =====
-- What the gates let through (src/core/middlewares/auth.middleware.ts).
use bus_booking_backend.Prelude.{
  ℕ, ◌≤◌, ◌≡◌, refl, Bool, true, not, ◌&&◌, ◌||◌, List, [], ◌∷◌, all, some, arith, leb,
}
use bus_booking_backend.Store.{ok}
use bus_booking_backend.Documents.{Role}
use bus_booking_backend.Access.{Permission, all_permissions, has_permission, authorize}

-- The staff roles in order; a user stands below all of them.
unfoldable pub rank : Role → ℕ
rank Role.user = 0
rank Role.conductor = 1
rank Role.driver = 1
rank Role.manager = 2
rank Role.operator = 3
rank Role.admin = 4
rank Role.super_admin = 5

is_below : Role → Role → Bool
unfolding rank
is_below r r' = leb 1 (rank r) && leb (rank r) (rank r')

is_included : Role → Role → Bool
is_included r r' = all (λ p. not (has_permission r p) || has_permission r' p) all_permissions

abbrev pub all_roles : List Role
all_roles =
    Role.user ∷ Role.conductor ∷ Role.driver ∷ Role.manager ∷ Role.operator ∷ Role.admin
    ∷ Role.super_admin ∷ []

-- The whole table of permissions, computed.
table : all (λ r. all (λ r'. not (is_below r r') || is_included r r') all_roles) all_roles ≡ true
unfolding is_below is_included has_permission
table = refl

pub every_role : (q : Role → Bool) → all q all_roles ≡ true → (r : Role) → q r ≡ true
every_role q h Role.user = ground arith
every_role q h Role.conductor = ground arith
every_role q h Role.driver = ground arith
every_role q h Role.manager = ground arith
every_role q h Role.operator = ground arith
every_role q h Role.admin = ground arith
every_role q h Role.super_admin = ground arith

every_permission :
    (q : Permission → Bool) → all q all_permissions ≡ true → (p : Permission) → q p ≡ true
every_permission q h Permission.read_profile = ground arith
every_permission q h Permission.update_profile = ground arith
every_permission q h Permission.create_booking = ground arith
every_permission q h Permission.read_own_booking = ground arith
every_permission q h Permission.read_all_bookings = ground arith
every_permission q h Permission.cancel_own_booking = ground arith
every_permission q h Permission.cancel_any_booking = ground arith
every_permission q h Permission.read_bus = ground arith
every_permission q h Permission.create_bus = ground arith
every_permission q h Permission.update_bus = ground arith
every_permission q h Permission.delete_bus = ground arith
every_permission q h Permission.initiate_payment = ground arith
every_permission q h Permission.read_own_payment = ground arith
every_permission q h Permission.read_all_payments = ground arith
every_permission q h Permission.refund_payment = ground arith
every_permission q h Permission.read_notifications = ground arith
every_permission q h Permission.create_notification = ground arith
every_permission q h Permission.delete_notification = ground arith
every_permission q h Permission.manage_users = ground arith
every_permission q h Permission.manage_tenants = ground arith
every_permission q h Permission.view_analytics = ground arith
every_permission q h Permission.manage_operators = ground arith

included : (r r' : Role) → is_below r r' ≡ true → is_included r r' ≡ true
included r r' h =
    let row =
      every_role (λ r. all (λ r'. not (is_below r r') || is_included r r') all_roles) table r in
    ground (arith, every_role (λ r'. not (is_below r r') || is_included r r') row r')

has_permission_mono :
    (r r' : Role) (p : Permission)
    → is_below r r' ≡ true
    → has_permission r p ≡ true
    → has_permission r' p ≡ true
unfolding is_included
has_permission_mono r r' p below h = ground (
  arith,
  every_permission (λ p. not (has_permission r p) || has_permission r' p) (included r r' below) p,
)

all_mono :
    (r r' : Role) (ps : List Permission)
    → is_below r r' ≡ true
    → all (has_permission r) ps ≡ true
    → all (has_permission r') ps ≡ true
all_mono r r' [] below h = refl
all_mono r r' (p ∷ ps) below h =
    ground (arith, has_permission_mono r r' p below, all_mono r r' ps below)

super_admin_table : all (has_permission Role.super_admin) all_permissions ≡ true
unfolding has_permission
super_admin_table = refl

all_super_admin : (ps : List Permission) → all (has_permission Role.super_admin) ps ≡ true
all_super_admin [] = refl
all_super_admin (p ∷ ps) = ground (
  arith,
  every_permission (has_permission Role.super_admin) super_admin_table p,
  all_super_admin ps,
)

-- Among the staff roles, what a role is authorized for, every role of the same or a higher rank is
-- authorized for: conductor and driver, manager, operator, admin, super admin.
pub authorize_mono :
    (ps : List Permission) (r r' : Role)
    → 1 ≤ rank r
    → rank r ≤ rank r'
    → authorize ps (some r) ≡ ok tt
    → authorize ps (some r') ≡ ok tt
unfolding authorize is_below
authorize_mono ps r r' staff higher h = ground (arith, all_mono r r' ps)

-- A super admin is authorized for everything.
pub authorize_super_admin : (ps : List Permission) → authorize ps (some Role.super_admin) ≡ ok tt
unfolding authorize
authorize_super_admin ps = ground (arith, all_super_admin ps)
