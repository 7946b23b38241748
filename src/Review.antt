-- ===== src/Review.antt =====
-- src/modules/verification/verification.service.ts on drivers, its only records, and the test
-- `assertBookable` of src/modules/driver/driver.service.ts.
pub mod Decided
pub mod Outcome
use bus_booking_backend.Prelude.{
  ℕ, String, Bool, true, false, not, ◌&&◌, ◌||◌, Option, none, some, str_eq, ◌<>◌, is_some,
  if◌then◌else◌,
}
use bus_booking_backend.Errors.{bad_request, not_found}
use bus_booking_backend.Store.{ObjectId, Stored}
use bus_booking_backend.Action.{Action, pure, throw_if, or_throw, gets, ◌>>=◌, ◌>>◌}
use bus_booking_backend.Documents.{Driver, Verification, VerificationStatus}
use bus_booking_backend.World.{Env, State, load, update, cast_or_throw, new_object_id, drivers_of}

-- `VerificationDecision`
pub data Decision : Type 0 where
  to_active to_rejected to_suspended to_inactive : Decision

-- `statusMap`
abbrev pub decided_status : Decision → VerificationStatus
decided_status to_active = VerificationStatus.active
decided_status to_rejected = VerificationStatus.rejected
decided_status to_suspended = VerificationStatus.suspended
decided_status to_inactive = VerificationStatus.inactive

abbrev pub is_approval : Decision → Bool
is_approval to_active = true
is_approval _ = false

-- A text that is given and not empty: what JavaScript takes for true.
abbrev pub given : Option String → Option String
given none = none
given (some t) = if str_eq t "" then none else some t

abbrev pub verification_status_text : VerificationStatus → String
verification_status_text VerificationStatus.pending = "pending"
verification_status_text VerificationStatus.assigned = "assigned"
verification_status_text VerificationStatus.in_review = "in_review"
verification_status_text VerificationStatus.active = "active"
verification_status_text VerificationStatus.rejected = "rejected"
verification_status_text VerificationStatus.suspended = "suspended"
verification_status_text VerificationStatus.inactive = "inactive"

abbrev pub is_assignable : VerificationStatus → Bool
is_assignable VerificationStatus.pending = true
is_assignable VerificationStatus.rejected = true
is_assignable _ = false

abbrev pub is_active_status : VerificationStatus → Bool
is_active_status VerificationStatus.active = true
is_active_status _ = false

abbrev pub set_assigned : (manager by : ObjectId) → (now due : ℕ) → Verification → Verification
set_assigned manager by now due v = record v {
  status = VerificationStatus.assigned;
  assigned_manager_id = some manager;
  assigned_by = some by;
  assigned_at = some now;
  due_at = some due;
}

abbrev or_keep : {A : Type 0} → Option A → Option A → Option A
or_keep none old = old
or_keep (some a) old = some a

abbrev time_of : Option String → ℕ → Option ℕ
time_of none now = none
time_of (some t) now = some now

abbrev pub set_decided :
    Decision
    → (by : ObjectId) → (notes reason : Option String) → (now : ℕ) → Verification
    → Verification
set_decided decision by notes reason now v = record v {
  status = decided_status decision;
  decided_at = some now;
  decided_by = some by;
  inspection_notes = or_keep (given notes) v.inspection_notes;
  inspected_at = or_keep (time_of (given notes) now) v.inspected_at;
  decision_reason = or_keep (given reason) v.decision_reason;
}

abbrev pub with_verification : (Verification → Verification) → Driver → Driver
with_verification f d = record d { verification = f d.verification }

module _ (env : Env) where
  unfoldable pub find_driver : String → Action (State env) (Stored Driver)
  find_driver id = do
    key ← cast_or_throw env id
    found ← load (drivers_of env) key
    or_throw found (not_found "Record")

  abbrev saved : (Verification → Verification) → Stored Driver → Action (State env) (Stored Driver)
  saved f d =
      update (drivers_of env) d.id (with_verification f)
      >> pure (record d { doc = with_verification f d.doc })

  unfoldable pub assign_to :
      (add_days : ℕ → ℕ → ℕ)
      → (manager_id assigned_by_id : String) → (sla_days : ℕ) → Stored Driver
      → Action (State env) (Stored Driver)
  assign_to add_days manager_id assigned_by_id sla_days driver = do
    throw_if (not (is_assignable driver.doc.verification.status)) (
        bad_request
          ("Cannot assign a manager while status is "
            <> verification_status_text driver.doc.verification.status)
          none)
    now ← gets (λ s. s.now)
    manager ← new_object_id env manager_id
    by ← new_object_id env assigned_by_id
    saved (set_assigned manager by now (add_days driver.doc.verification.submitted_at sla_days))
        driver

  -- `assignVerificationManager`; `add_days` is that of the module policy.config, which the
  -- repository lacks.
  unfoldable pub assign_verification_manager :
      (add_days : ℕ → ℕ → ℕ)
      → String
      → (manager_id assigned_by_id : String) → (sla_days : ℕ) → Action (State env) (Stored Driver)
  assign_verification_manager add_days id manager_id assigned_by_id sla_days =
      find_driver id >>= assign_to add_days manager_id assigned_by_id sla_days

  unfoldable pub decide_on :
      Decision
      → (decided_by_id : String) → (notes reason : Option String) → Stored Driver
      → Action (State env) (Stored Driver)
  decide_on decision decided_by_id notes reason driver = do
    throw_if (not (is_approval decision) && not (is_some (given reason)))
        (bad_request "decisionReason is required when not approving" none)
    now ← gets (λ s. s.now)
    by ← new_object_id env decided_by_id
    saved (set_decided decision by notes reason now) driver

  -- `decideVerification`
  unfoldable pub decide_verification :
      String
      → Decision
      → (decided_by_id : String) → (notes reason : Option String)
      → Action (State env) (Stored Driver)
  decide_verification id decision decided_by_id notes reason =
      find_driver id >>= decide_on decision decided_by_id notes reason

  -- `assertBookable`
  unfoldable pub assert_bookable : String → Action (State env) (Unit {0})
  assert_bookable id = do
    key ← cast_or_throw env id
    found ← load (drivers_of env) key
    driver ← or_throw found (not_found "Driver")
    throw_if (not (is_active_status driver.doc.verification.status) || not driver.doc.is_active)
        (bad_request "Driver has not completed verification yet" none)
