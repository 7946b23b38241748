-- ===== src/Documents/Users.antt =====
-- src/modules/user/user.model.ts and the roles of src/core/types/index.ts
use bus_booking_backend.Prelude.{ℕ, String, Option, List, Bool, true, false}
use bus_booking_backend.Store.{ObjectId}
use bus_booking_backend.Documents.Bookings.{Gender}

-- `enum Role`
pub data Role : Type 0 where
  user admin operator super_admin manager driver conductor : Role

pub record RefreshToken : Type 0 where
  pub token_hash : String
  pub device_id : String
  pub device_name : Option String
  pub created_at : ℕ
  pub last_used_at : ℕ

pub data ReviewStatus : Type 0 where
  pending approved rejected : ReviewStatus

pub record User : Type 0 where
  pub phone : String
  pub email : Option String
  pub full_name : Option String
  pub gender : Option Gender
  pub dob : Option ℕ
  pub age : Option ℕ
  pub password : Option String
  pub address : Option String
  pub pin : Option ℕ
  pub role : Role
  pub tenant_id : Option ObjectId
  pub is_verified : Bool
  pub profile_completed : Bool
  pub otp : Option String
  pub otp_expires_at : Option ℕ
  pub refresh_tokens : List RefreshToken
  pub created_by : Option String
  pub last_login_at : Option ℕ
  pub is_active : Bool
  pub verification_status : ReviewStatus
  pub verified_by : Option ObjectId

-- `===` on roles
abbrev pub same_role : Role → Role → Bool
same_role user user = true
same_role admin admin = true
same_role operator operator = true
same_role super_admin super_admin = true
same_role manager manager = true
same_role driver driver = true
same_role conductor conductor = true
same_role _ _ = false

abbrev pub role_text : Role → String
role_text user = "user"
role_text admin = "admin"
role_text operator = "operator"
role_text super_admin = "super_admin"
role_text manager = "manager"
role_text driver = "driver"
role_text conductor = "conductor"
