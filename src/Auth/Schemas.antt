-- ===== src/Auth/Schemas.antt =====
-- The requests, tokens and documents of src/modules/auth: auth.types.ts, auth.validation.ts and
-- the updates of auth.repository.ts.
use bus_booking_backend.Prelude.{
  ℕ, String, Bool, true, false, not, ◌&&◌, Option, none, some, List, [], ◌∷◌, ◌++◌, filter,
  includes, map, str_eq,
}
use bus_booking_backend.Documents.{User, Role, RefreshToken, ReviewStatus, role_text, same_role}

-- `JwtPayload`, without the fields that the package adds
pub record JwtPayload : Type 0 where
  pub sub : String
  pub role : String
  pub tenant_id : Option String
  pub kind : String  -- `type`

-- The packages `jsonwebtoken`, `crypto` and `bcryptjs`, the random numbers, and the settings
-- `env.jwt`.
pub record Crypto : Type 0 where
  -- `Math.floor(Math.random() * 900000)`
  pub random_900000 : (now : ℕ) → ℕ
  pub random_uuid : (now : ℕ) → String
  -- `jwt.sign(payload, env.jwt.secret, { expiresIn })`
  pub sign : (now : ℕ) → JwtPayload → (expiry : String) → String
  -- `createHash('sha256').update(token).digest('hex')`
  pub sha256_hex : String → String
  -- the setters `trim` and `lowercase` of the schema
  pub trim : String → String
  pub lowercase : String → String
  -- `bcrypt.hash(password, 12)` and `bcrypt.compare(candidate, password)`
  pub hash_password : (now : ℕ) → String → String
  pub compare_password : (candidate password : String) → Bool
  pub access_expiry : String
  pub refresh_expiry : String
  pub admin_expiry : String
  pub operator_expiry : String

-- `verifyOtpSchema`
pub record VerifyOtpDto : Type 0 where
  pub phone : String
  pub otp : String
  pub device_id : Option String
  pub device_name : Option String

-- `createAdminSchema`
pub record CreateAdminDto : Type 0 where
  pub phone : String
  pub email : Option String
  pub full_name : String
  pub role : Role
  pub password : String
  pub tenant_id : Option String

-- `AuthResult`, with the tokens beside the user
pub record AuthResult : Type 0 where
  pub id : String
  pub phone : String
  pub role : Role
  pub full_name : Option String
  pub is_verified : Bool
  pub profile_completed : Bool
  pub tenant_id : Option String
  pub access_token : String
  pub refresh_token : String
  pub profile_required : Bool

-- `!storedOtp || storedOtp !== dto.otp`, negated; the empty text is falsy
unfoldable pub otp_matches : Option String → String → Bool
otp_matches none otp = false
otp_matches (some stored) otp = not (str_eq stored "") && str_eq stored otp

-- The user that `User.create({ phone })` makes, with the defaults of the schema. A validated phone
-- number has no white space to trim.
abbrev pub new_user : String → User
new_user phone = record {
  phone = phone;
  email = none;
  full_name = none;
  gender = none;
  dob = none;
  age = none;
  password = none;
  address = none;
  pin = none;
  role = Role.user;
  tenant_id = none;
  is_verified = false;
  profile_completed = false;
  otp = none;
  otp_expires_at = none;
  refresh_tokens = [];
  created_by = none;
  last_login_at = none;
  is_active = true;
  verification_status = ReviewStatus.pending;
  verified_by = none;
}

-- `$push` of a refresh token, and the time of the login
abbrev pub push_refresh_token : RefreshToken → (now : ℕ) → User → User
push_refresh_token t now u = record u {
  refresh_tokens = u.refresh_tokens ++ t ∷ [];
  last_login_at = some now;
}

-- `$pull: { refreshTokens: { tokenHash } }`
unfoldable pub pull_refresh_token : String → User → User
pull_refresh_token token_hash u = record u {
  refresh_tokens = filter (λ t. not (str_eq t.token_hash token_hash)) u.refresh_tokens;
}

abbrev pub clear_otp : User → User
clear_otp u = record u { otp = none; otp_expires_at = none; is_verified = true }

-- `[...].includes(role)`
abbrev pub is_one_of : List Role → Role → Bool
is_one_of roles role = includes (role_text role) (map role_text roles)

-- `isVerified` and `verificationStatus` of a new account: a driver has to be reviewed.
abbrev pub is_driver : Role → Bool
is_driver = same_role Role.driver
