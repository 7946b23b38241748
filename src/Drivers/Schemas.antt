-- ===== src/Drivers/Schemas.antt =====
-- The requests of src/modules/driver/driver.validation.ts, and what
-- src/modules/driver/driver.service.ts computes from a document.
use bus_booking_backend.Prelude.{ℕ, String, Bool, true, false, Option, none, some, [], str_eq}
use bus_booking_backend.Store.{ObjectId, Stored}
use bus_booking_backend.Documents.{Driver, User, Verification, VerificationStatus, Role}
use bus_booking_backend.Review.{Decision, verification_status_text}

-- `createDriverSchema`
pub record CreateDriverDto : Type 0 where
  pub full_name : String
  pub phone : String
  pub license_number : String
  pub license_expiry : String

-- `updateDriverSchema`
pub record UpdateDriverDto : Type 0 where
  pub full_name : Option String
  pub phone : Option String
  pub license_number : Option String
  pub license_expiry : Option String
  pub is_active : Option Bool

-- `listDriversSchema`; `assigned_to_me` is whether the text is 'true'
pub record ListDriversDto : Type 0 where
  pub page : ℕ
  pub limit : ℕ
  pub verification_status : Option VerificationStatus
  pub assigned_to_me : Bool

-- The default of the schema for `verification`.
abbrev pub new_verification : (now : ℕ) → Verification
new_verification now = record {
  status = VerificationStatus.pending;
  assigned_manager_id = none;
  assigned_by = none;
  submitted_at = now;
  assigned_at = none;
  due_at = none;
  decided_at = none;
  decided_by = none;
  documents = [];
  inspection_notes = none;
  inspected_at = none;
  decision_reason = none;
}

-- `=== Role.MANAGER`: the enumeration has no such member, so that no role equals it.
unfoldable pub is_role_manager : Role → Bool
is_role_manager role = false

-- `!manager || manager.role !== Role.MANAGER`, negated
unfoldable pub is_manager : Option (Stored User) → Bool
is_manager none = false
is_manager (some m) = is_role_manager m.doc.role

abbrev pub decision_text : Decision → String
decision_text Decision.to_active = "active"
decision_text Decision.to_rejected = "rejected"
decision_text Decision.to_suspended = "suspended"
decision_text Decision.to_inactive = "inactive"

abbrev pub has_review_status : Option VerificationStatus → Driver → Bool
has_review_status none d = true
has_review_status (some st) d =
    str_eq (verification_status_text d.verification.status) (verification_status_text st)

abbrev pub is_of_tenant : Option ObjectId → Driver → Bool
is_of_tenant none d = true
is_of_tenant (some t) d = str_eq d.tenant_id t

abbrev pub is_assigned_to : Option ObjectId → Driver → Bool
is_assigned_to none d = true
is_assigned_to (some m) d = elim d.verification.assigned_manager_id [
  | none ↦ false
  | some a ↦ str_eq a m
]
