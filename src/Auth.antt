-- ===== src/Auth.antt =====
-- src/modules/auth/auth.service.ts and auth.repository.ts: one-time passwords, refresh tokens
-- and the creation of staff accounts; the password logins are in Auth/Login.
pub mod Otp
pub mod Login
pub mod Staff
pub mod Refresh
pub mod Registration
mod Schemas
unfoldable pub use Schemas.*
use mathlib.Core.Option
use bus_booking_backend.Prelude.{
  ℕ, ◌+◌, String, Bool, true, false, not, ◌&&◌, ◌||◌, Option, none, some, List, [], ◌∷◌, ◌++◌,
  filter, includes, map, str_eq, ◌<>◌, decimal, if◌then◌else◌, get_or_default, is_some,
}
use bus_booking_backend.Errors.{
  bad_request, unauthorized, forbidden, not_found, conflict, mongoose_validation,
}
use bus_booking_backend.Store.{ObjectId, Stored}
use bus_booking_backend.Action.{Action, pure, throw_if, or_throw, modify, gets, ◌>>=◌, ◌>>◌}
use bus_booking_backend.Documents.{User, Role, RefreshToken, ReviewStatus, role_text, same_role}
use bus_booking_backend.Events.{DomainEvent}
use bus_booking_backend.World.{
  Env, State, load, load_one, update, insert, cast_or_throw, users_of, emit,
}
use bus_booking_backend.Locks.{set_otp, get_otp, delete_otp}

module _ (env : Env) (crypto : Crypto) where
  unfoldable pub generate_otp : (now : ℕ) → String
  generate_otp now = decimal (100000 + crypto.random_900000 now)

  unfoldable pub send_otp : String → Action (State env) String
  send_otp phone = do
    now ← gets (λ s. s.now)
    modify (set_otp env phone (generate_otp now))
    emit env (DomainEvent.otp_requested phone (generate_otp now))
    pure "OTP sent successfully"

  abbrev pub access_token : (now : ℕ) → Stored User → (expiry : String) → String
  access_token now u = crypto.sign now (record {
    sub = u.id;
    role = role_text u.doc.role;
    tenant_id = u.doc.tenant_id;
    kind = "access";
  })

  abbrev pub refresh_token : (now : ℕ) → Stored User → String
  refresh_token now u =
      crypto.sign now
        (record {
          sub = u.id;
          role = role_text u.doc.role;
          tenant_id = u.doc.tenant_id;
          kind = "refresh";
        })
        crypto.refresh_expiry

  unfoldable pub add_refresh_token :
      ObjectId → String → String → Option String → Action (State env) (Unit {0})
  add_refresh_token user_id token_hash device_id device_name = do
    now ← gets (λ s. s.now)
    update (users_of env) user_id (
        push_refresh_token
          (record {
            token_hash = token_hash;
            device_id = device_id;
            device_name = device_name;
            created_at = now;
            last_used_at = now;
          })
          now)

  -- The first part of `verifyOtp`: the password is compared, and removed when it fits.
  unfoldable pub check_otp : VerifyOtpDto → Action (State env) (Unit {0})
  check_otp dto = do
    stored ← gets (get_otp env dto.phone)
    throw_if (not (otp_matches stored dto.otp))
        (bad_request "Invalid or expired OTP" (some "INVALID_OTP"))
    modify (delete_otp env dto.phone)

  abbrev given_or_new : String → Option (Stored User) → Action (State env) (Stored User)
  given_or_new phone none = insert (users_of env) (new_user phone)
  given_or_new phone (some u) = pure u

  -- The second part: the user is found or created, and logged in.
  unfoldable pub log_in_otp : VerifyOtpDto → Action (State env) AuthResult
  log_in_otp dto = do
    found ← load_one (users_of env) (λ u. str_eq u.doc.phone dto.phone)
    user ← given_or_new dto.phone found
    now ← gets (λ s. s.now)
    add_refresh_token user.id (crypto.sha256_hex (refresh_token now user))
        (get_or_default dto.device_id (crypto.random_uuid now)) dto.device_name
    update (users_of env) user.id clear_otp
    emit env (
        if is_some found
        then DomainEvent.user_logged_in user.id user.doc.phone
        else DomainEvent.user_registered user.id user.doc.phone)
    pure (record {
      id = user.id;
      phone = user.doc.phone;
      role = user.doc.role;
      full_name = user.doc.full_name;
      is_verified = true;
      profile_completed = user.doc.profile_completed;
      tenant_id = user.doc.tenant_id;
      access_token = access_token now user crypto.access_expiry;
      refresh_token = refresh_token now user;
      profile_required = not user.doc.profile_completed;
    })

  unfoldable pub verify_otp : VerifyOtpDto → Action (State env) AuthResult
  verify_otp dto = check_otp dto >> log_in_otp dto

  unfoldable pub log_out : String → String → Action (State env) (Unit {0})
  log_out user_id token = do
    key ← cast_or_throw env user_id
    found ← load (users_of env) key
    elim found [
      | none ↦ pure tt
      | some u ↦
          update (users_of env) u.id (pull_refresh_token (crypto.sha256_hex token))
          >> emit env (DomainEvent.user_logged_out user_id)
    ]

  unfoldable pub log_out_all_devices : String → Action (State env) (Unit {0})
  log_out_all_devices user_id = do
    key ← cast_or_throw env user_id
    found ← load (users_of env) key
    elim found [
      | none ↦ pure tt
      | some u ↦
          update (users_of env) u.id (λ d. record d { refresh_tokens = [] })
          >> emit env (DomainEvent.user_logged_out user_id)
    ]

  -- The tests of `createAdminUser` on the role of the creator and the role of the account.
  unfoldable pub check_roles : (creator account : Role) → Action (State env) (Unit {0})
  check_roles creator account = do
    throw_if
        (not
          (is_one_of (Role.admin ∷ Role.super_admin ∷ Role.manager ∷ Role.operator ∷ []) creator))
        (forbidden "You are not allowed to create this account")
    throw_if (same_role account Role.super_admin && not (same_role creator Role.super_admin))
        (forbidden "Only super admin can create super admin accounts")
    throw_if
        (is_one_of (Role.manager ∷ Role.operator ∷ Role.driver ∷ []) account
          && not (is_one_of (Role.admin ∷ Role.super_admin ∷ Role.manager ∷ []) creator))
        (forbidden "Only admin or super admin can create operators/managers/drivers")

  -- The document of the account; `pre('save')` replaces the password by its hash.
  abbrev pub new_account : CreateAdminDto → String → Option ObjectId → (now : ℕ) → User
  new_account dto creator tenant_id now = record (new_user dto.phone) {
    email = Option.map (λ e. crypto.lowercase (crypto.trim e)) dto.email;
    full_name = some (crypto.trim dto.full_name);
    role = dto.role;
    password = some (crypto.hash_password now dto.password);
    is_verified = not (is_driver dto.role);
    profile_completed = true;
    created_by = some creator;
    verification_status =
        if is_driver dto.role then ReviewStatus.pending else ReviewStatus.approved;
    tenant_id = tenant_id;
  }

  -- `dto.tenantId ? { tenantId: dto.tenantId } : {}`; a text that is no identifier fails the
  -- validation of the document
  abbrev pub cast_tenant : Option String → Action (State env) (Option ObjectId)
  cast_tenant none = pure none
  cast_tenant (some t) =
      if str_eq t ""
      then pure none
      else (or_throw (env.cast_id t) (mongoose_validation ("tenantId" ∷ [])) >>= λ i. pure (some i))

  -- What is tested first: the phone number is unused, and the creator may create the account.
  unfoldable pub check_account : CreateAdminDto → String → Action (State env) (Stored User)
  check_account dto created_by_id = do
    existing ← load_one (users_of env) (λ u. str_eq u.doc.phone dto.phone)
    throw_if (is_some existing) (conflict "User with this phone already exists")
    key ← cast_or_throw env created_by_id
    found ← load (users_of env) key
    creator ← or_throw found (not_found "Creator")
    check_roles creator.doc.role dto.role
    pure creator

  unfoldable pub insert_account :
      CreateAdminDto → String → Option ObjectId → Action (State env) String
  insert_account dto created_by_id tenant = do
    now ← gets (λ s. s.now)
    insert (users_of env) (new_account dto created_by_id tenant now)
    pure (role_text dto.role <> " created successfully")

  unfoldable pub write_account : CreateAdminDto → String → Action (State env) String
  write_account dto created_by_id = cast_tenant dto.tenant_id >>= insert_account dto created_by_id

  unfoldable pub create_admin_user : CreateAdminDto → String → Action (State env) String
  create_admin_user dto created_by_id =
      check_account dto created_by_id >> write_account dto created_by_id
