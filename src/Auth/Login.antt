-- ===== src/Auth/Login.antt =====
-- `adminLogin` and `operatorLogin` of src/modules/auth/auth.service.ts, which differ in the roles
-- that they admit, the life of the access token and the name of the device.
pub mod Admitted
use bus_booking_backend.Prelude.{
  ℕ, String, Bool, true, false, not, Option, none, some, List, [], ◌∷◌, str_eq, includes, map,
}
use bus_booking_backend.Errors.{unauthorized, forbidden}
use bus_booking_backend.Store.{Stored}
use bus_booking_backend.Action.{Action, pure, throw_if, or_throw, gets, ◌>>=◌, ◌>>◌}
use bus_booking_backend.Documents.{User, Role}
use bus_booking_backend.World.{Env, State, load_one, users_of}
use bus_booking_backend.Auth.{
  Crypto, AuthResult, is_one_of, access_token, refresh_token, add_refresh_token,
}

-- What a validated request names its user by: the phone number, or else the email.
pub data LoginName : Type 0 where
  by_phone by_email : String → LoginName

-- `adminLoginSchema`, `operatorLoginSchema`
pub record AdminLoginDto : Type 0 where
  pub name : LoginName
  pub password : String

-- `dto.phone ? { phone: dto.phone } : { email: dto.email }`; the setters of the schema cast the
-- email of a query too
abbrev pub is_named : Crypto → LoginName → Stored User → Bool
is_named crypto (by_phone phone) u = str_eq u.doc.phone phone
is_named crypto (by_email email) u = elim u.doc.email [
  | none ↦ false
  | some e ↦ str_eq e (crypto.lowercase (crypto.trim email))
]

module _ (env : Env) (crypto : Crypto) where
  -- `comparePassword`: without a password, none fits
  abbrev pub password_fits : String → Option String → Bool
  password_fits candidate none = false
  password_fits candidate (some password) = crypto.compare_password candidate password

  unfoldable pub check_login : List Role → AdminLoginDto → Action (State env) (Stored User)
  check_login roles dto = do
    found ← load_one (users_of env) (is_named crypto dto.name)
    user ← or_throw found (unauthorized "Invalid credentials")
    throw_if (not (is_one_of roles user.doc.role)) (forbidden "Access denied")
    throw_if (not user.doc.is_active) (forbidden "Account is suspended")
    throw_if (not (password_fits dto.password user.doc.password))
        (unauthorized "Invalid credentials")
    pure user

  unfoldable pub write_login :
      (expiry device_name : String) → Stored User → Action (State env) AuthResult
  write_login expiry device_name user = do
    now ← gets (λ s. s.now)
    add_refresh_token env crypto user.id (crypto.sha256_hex (refresh_token env crypto now user))
        (crypto.random_uuid now) (some device_name)
    pure (record {
      id = user.id;
      phone = user.doc.phone;
      role = user.doc.role;
      full_name = user.doc.full_name;
      is_verified = user.doc.is_verified;
      profile_completed = true;
      tenant_id = user.doc.tenant_id;
      access_token = access_token env crypto now user expiry;
      refresh_token = refresh_token env crypto now user;
      profile_required = false;
    })

  unfoldable pub admin_login : AdminLoginDto → Action (State env) AuthResult
  admin_login dto =
      check_login (Role.admin ∷ Role.operator ∷ Role.super_admin ∷ []) dto
      >>= write_login crypto.admin_expiry "admin-web"

  unfoldable pub operator_login : AdminLoginDto → Action (State env) AuthResult
  operator_login dto =
      check_login (Role.operator ∷ []) dto >>= write_login crypto.operator_expiry "operator-web"
