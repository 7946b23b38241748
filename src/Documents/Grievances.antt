-- ===== src/Documents/Grievances.antt =====
-- src/modules/grievance/grievance.model.ts
use bus_booking_backend.Prelude.{ℕ, String, Option, List}
use bus_booking_backend.Store.{ObjectId}

pub data GrievanceStatus : Type 0 where
  opened in_progress resolved closed : GrievanceStatus

pub data GrievanceCategory : Type 0 where
  refund driver_behavior bus_condition payment_issue other : GrievanceCategory

-- `senderRole` is a string in the source too.
pub record GrievanceMessage : Type 0 where
  pub sender_id : ObjectId
  pub sender_role : String
  pub message : String
  pub created_at : ℕ

pub record Grievance : Type 0 where
  pub user_id : ObjectId
  pub tenant_id : Option ObjectId
  pub booking_id : Option ObjectId
  pub category : GrievanceCategory
  pub description : String
  pub status : GrievanceStatus
  pub assigned_to : Option ObjectId
  pub messages : List GrievanceMessage
  pub created_at : ℕ
