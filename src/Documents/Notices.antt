-- ===== src/Documents/Notices.antt =====
-- src/modules/notification/notification.model.ts and src/modules/plan/plan.model.ts
use bus_booking_backend.Prelude.{ℕ, String, Option, List, Bool}
use bus_booking_backend.Store.{ObjectId}

pub data NotificationTarget : Type 0 where
  all users operators bus custom : NotificationTarget

pub data NotificationKind : Type 0 where
  info warning success error promo : NotificationKind

-- `metadata`, which no service reads, is left out.
pub record Notification : Type 0 where
  pub tenant_id : Option ObjectId
  pub title : String
  pub body : String
  pub kind : NotificationKind  -- `type`
  pub target : NotificationTarget
  pub target_ids : List ObjectId
  pub channels : List String
  pub created_by : ObjectId
  pub expires_at : Option ℕ
  pub read_by : List ObjectId
  pub delivered_to : List ObjectId
  pub is_persistent : Bool

pub data PlanCycle : Type 0 where
  monthly quarterly half_yearly annual : PlanCycle

pub record PlanFeatures : Type 0 where
  pub analytics_enabled : Bool
  pub whatsapp_enabled : Bool
  pub geo_tracking_enabled : Bool

pub record Plan : Type 0 where
  pub name : String
  pub price : ℕ
  pub currency : String
  pub cycle : PlanCycle
  pub max_buses : ℕ
  pub max_operators : ℕ
  pub features : PlanFeatures
  pub is_active : Bool

abbrev pub target_text : NotificationTarget → String
target_text all = "all"
target_text users = "users"
target_text operators = "operators"
target_text bus = "bus"
target_text custom = "custom"

abbrev pub cycle_text : PlanCycle → String
cycle_text monthly = "monthly"
cycle_text quarterly = "quarterly"
cycle_text half_yearly = "half_yearly"
cycle_text annual = "annual"
