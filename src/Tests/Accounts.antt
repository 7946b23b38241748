-- ===== src/Tests/Accounts.antt =====
-- Accounts and permissions at concrete inputs.
use bus_booking_backend.Prelude.{◌≡◌, refl, true, false, none, some, [], ◌∷◌, arith, str_eq, ◌≤◌}
use bus_booking_backend.Errors.{bad_request}
use bus_booking_backend.Store.{ObjectId, Stored, ok, err}
use bus_booking_backend.Documents.{User, Role}
use bus_booking_backend.World.{State}
use bus_booking_backend.Access.{Permission, authorize, has_permission}
use bus_booking_backend.Access.Gates.{rank, authorize_mono}
use bus_booking_backend.Auth.{
  Crypto, VerifyOtpDto, AuthResult, CreateAdminDto, new_user, verify_otp, add_refresh_token,
  send_otp, check_roles, create_admin_user, check_account, write_account, insert_account, log_out,
}
use bus_booking_backend.Auth.Otp.{verify_otp_expired}
use bus_booking_backend.Auth.Staff.{
  may_create, is_ok, check_roles-may_create, IsCreated, create_admin_user-IsCreated,
}
use bus_booking_backend.Auth.Login.{
  AdminLoginDto, LoginName, check_login, write_login, admin_login, operator_login,
}
use bus_booking_backend.Auth.Login.Admitted.{IsAdmitted, IsAdmin, IsOperator, log_in_checks}
use bus_booking_backend.Tests.Memory.{lookup, visible, change, create, add, new_id}
use bus_booking_backend.Tests.Sample.{env, start, alice, bob}

abbrev pub crypto : Crypto
crypto = record {
  random_900000 = λ now. 0;
  random_uuid = λ now. "uuid";
  sign = λ now p expiry. p.sub;
  sha256_hex = λ t. t;
  trim = λ t. t;
  lowercase = λ t. t;
  hash_password = λ now p. "hash";
  compare_password = λ c p. str_eq p "hash";
  access_expiry = "15m";
  refresh_expiry = "7d";
  admin_expiry = "8h";
  operator_expiry = "8h";
}

driver_rank : 1 ≤ rank Role.driver
unfolding rank
driver_rank = omega arith

driver_reads : authorize (Permission.read_bus ∷ []) (some Role.driver) ≡ ok tt
unfolding authorize has_permission
driver_reads = refl

driver_admin : rank Role.driver ≤ rank Role.admin
unfolding rank
driver_admin = omega arith

authorize_mono_example : authorize (Permission.read_bus ∷ []) (some Role.admin) ≡ ok tt
unfolding authorize
authorize_mono_example =
    authorize_mono (Permission.read_bus ∷ []) Role.driver Role.admin driver_rank driver_admin
      driver_reads

abbrev member : Role → User
member role = record (new_user "9000000000") { role = role }

-- The world with one user and a one-time password of hers.
abbrev pub with_user : Role → State env
with_user role = record start {
  users = record { id = alice; doc = member role } ∷ [];
  redis = record { key = "otp:9000000000"; expires = 300000; value = "123456" } ∷ [];
}

abbrev attempt : VerifyOtpDto
attempt = record { phone = "9000000000"; otp = "123456"; device_id = none; device_name = none }

abbrev after_login : State env
after_login = (verify_otp env crypto attempt (with_user Role.user)).1

abbrev logged_in : AuthResult
logged_in = record {
  id = alice;
  phone = "9000000000";
  role = Role.user;
  full_name = none;
  is_verified = true;
  profile_completed = false;
  tenant_id = none;
  access_token = alice;
  refresh_token = alice;
  profile_required = true;
}

verify_otp_expired_example :
    verify_otp env crypto attempt
      (record (send_otp env crypto "9000000000" start).1 { now = 300000 })
    ≡ (
      err (bad_request "Invalid or expired OTP" (some "INVALID_OTP")),
      record (send_otp env crypto "9000000000" start).1 { now = 300000 },
    )
verify_otp_expired_example = verify_otp_expired env crypto attempt start 300000 (omega arith)

-- An operator is let through for an administrator's account, and not for an operator's.
check_roles-may_create_example :
    (is_ok (check_roles env crypto Role.operator Role.admin start).0
      ≡ may_create Role.operator Role.admin)
    × ((check_roles env crypto Role.operator Role.admin start).1 ≡ start)
check_roles-may_create_example = check_roles-may_create env crypto Role.operator Role.admin start

abbrev for_admin : CreateAdminDto
for_admin = record {
  phone = "9111111111";
  email = none;
  full_name = "Ravi";
  role = Role.admin;
  password = "password";
  tenant_id = none;
}

abbrev after_creation : State env
after_creation = (create_admin_user env crypto for_admin alice (with_user Role.manager)).1

create_admin_user_run :
    create_admin_user env crypto for_admin alice (with_user Role.manager)
    ≡ (ok "admin created successfully", after_creation)
unfolding create_admin_user check_account check_roles write_account insert_account visible lookup
    create add new_id
create_admin_user_run = refl

create_admin_user-IsCreated_example :
    (creator : Stored User) × (i : ObjectId) × (u : User) × IsCreated env crypto
      (with_user Role.manager)
      for_admin
      alice
      after_creation
      creator
      i
      u
create_admin_user-IsCreated_example =
    create_admin_user-IsCreated env crypto for_admin alice (with_user Role.manager) after_creation
      "admin created successfully" create_admin_user_run

abbrev after_logout : State env
after_logout = (log_out env crypto alice "t" (with_user Role.user)).1

log_out_run : log_out env crypto alice "t" (with_user Role.user) ≡ (ok tt, after_logout)
unfolding log_out lookup
log_out_run = refl

abbrev worker : User
worker = record (member Role.operator) { password = some "hash" }

abbrev with_worker : State env
with_worker = record start { users = record { id = bob; doc = worker } ∷ [] }

abbrev credentials : AdminLoginDto
credentials = record { name = LoginName.by_phone "9000000000"; password = "password" }

abbrev answer : AuthResult
answer = record {
  id = bob;
  phone = "9000000000";
  role = Role.operator;
  full_name = none;
  is_verified = false;
  profile_completed = true;
  tenant_id = none;
  access_token = bob;
  refresh_token = bob;
  profile_required = false;
}

admin_login_run :
    admin_login env crypto credentials with_worker
    ≡ (ok answer, (admin_login env crypto credentials with_worker).1)
unfolding admin_login check_login write_login add_refresh_token visible change
admin_login_run = refl

operator_login_run :
    operator_login env crypto credentials with_worker
    ≡ (ok answer, (operator_login env crypto credentials with_worker).1)
unfolding operator_login check_login write_login add_refresh_token visible change
operator_login_run = refl

log_in_checks_example :
    ((u : Stored User) × IsAdmitted env crypto IsAdmin "8h" "admin-web" credentials with_worker
        answer
        (admin_login env crypto credentials with_worker).1
        u)
    × ((v : Stored User) × IsAdmitted env crypto IsOperator "8h" "operator-web" credentials
          with_worker answer
          (operator_login env crypto credentials with_worker).1
          v)
log_in_checks_example =
    log_in_checks env crypto credentials credentials with_worker
      (admin_login env crypto credentials with_worker).1 with_worker
      (operator_login env crypto credentials with_worker).1 answer answer admin_login_run
      operator_login_run
