-- ===== src/Documents/Verifications.antt =====
-- src/modules/verification/verification.types.ts and src/modules/driver/driver.model.ts
use bus_booking_backend.Prelude.{ℕ, String, Option, List, Bool}
use bus_booking_backend.Store.{ObjectId}
use bus_booking_backend.Documents.Users.{ReviewStatus}

pub data VerificationStatus : Type 0 where
  pending assigned in_review active rejected suspended inactive : VerificationStatus

pub record VerificationDocument : Type 0 where
  pub kind : String  -- `type`
  pub url : String
  pub status : ReviewStatus
  pub rejection_reason : Option String
  pub uploaded_at : ℕ

pub record Verification : Type 0 where
  pub status : VerificationStatus
  pub assigned_manager_id : Option ObjectId
  pub assigned_by : Option ObjectId
  pub submitted_at : ℕ
  pub assigned_at : Option ℕ
  pub due_at : Option ℕ
  pub decided_at : Option ℕ
  pub decided_by : Option ObjectId
  pub documents : List VerificationDocument
  pub inspection_notes : Option String
  pub inspected_at : Option ℕ
  pub decision_reason : Option String

pub record Driver : Type 0 where
  pub full_name : String
  pub phone : String
  pub license_number : String
  pub license_expiry : ℕ
  pub tenant_id : ObjectId
  pub created_by : ObjectId
  pub is_active : Bool
  pub verification : Verification
