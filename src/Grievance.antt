-- ===== src/Grievance.antt =====
-- src/modules/grievance/grievance.service.ts
pub mod Visible
use bus_booking_backend.Prelude.{
  ℕ, String, Bool, true, false, not, ◌&&◌, Option, none, some, List, [], ◌∷◌, ◌++◌, str_eq,
  if◌then◌else◌,
}
use bus_booking_backend.Errors.{not_found, forbidden}
use bus_booking_backend.Store.{ObjectId, Stored}
use bus_booking_backend.Action.{Action, pure, throw_if, or_throw, gets, ◌>>=◌, ◌>>◌}
use bus_booking_backend.Documents.{Grievance, GrievanceStatus, GrievanceCategory, GrievanceMessage}
use bus_booking_backend.Events.{DomainEvent}
use bus_booking_backend.World.{
  Env, State, load, update, update_and_load, insert, cast_or_throw, new_object_id, grievances_of,
  emit,
}
use bus_booking_backend.Pages.{Page, paginate}

-- `createGrievanceSchema`
pub record CreateGrievanceDto : Type 0 where
  pub booking_id : Option String
  pub category : GrievanceCategory
  pub description : String

-- `listGrievancesSchema`
pub record ListGrievancesDto : Type 0 where
  pub page : ℕ
  pub limit : ℕ
  pub status : Option GrievanceStatus

abbrev pub grievance_status_text : GrievanceStatus → String
grievance_status_text GrievanceStatus.opened = "open"
grievance_status_text GrievanceStatus.in_progress = "in_progress"
grievance_status_text GrievanceStatus.resolved = "resolved"
grievance_status_text GrievanceStatus.closed = "closed"

abbrev pub is_opened : GrievanceStatus → Bool
is_opened GrievanceStatus.opened = true
is_opened _ = false

-- `dto.status ? { status: dto.status } : {}`
abbrev pub has_status : Option GrievanceStatus → Grievance → Bool
has_status none g = true
has_status (some st) g = str_eq (grievance_status_text g.status) (grievance_status_text st)

-- `tenantId ? { tenantId } : {}`, for a tenant that was cast
abbrev pub has_tenant : Option ObjectId → Option ObjectId → Bool
has_tenant none g = true
has_tenant (some t) none = false
has_tenant (some t) (some u) = str_eq u t

-- The pushed message, and the step that a staff reply makes.
abbrev pub add_reply :
    (sender : ObjectId) → (role message : String) → (now : ℕ) → Grievance → Grievance
add_reply sender role message now g = record g {
  messages =
      g.messages
      ++ record { sender_id = sender; sender_role = role; message = message; created_at = now }
        ∷ [];
  status =
      if not (str_eq role "user") && is_opened g.status
      then GrievanceStatus.in_progress
      else g.status;
}

module _ (env : Env) where
  -- `x ? { ...: new Types.ObjectId(x) } : {}`
  abbrev optional_id : Option String → Action (State env) (Option ObjectId)
  optional_id none = pure none
  optional_id (some t) =
      if str_eq t "" then pure none else (new_object_id env t >>= λ i. pure (some i))

  unfoldable pub create_grievance :
      CreateGrievanceDto → String → Option String → Action (State env) (Stored Grievance)
  create_grievance dto user_id tenant_id = do
    user ← new_object_id env user_id
    booking ← optional_id dto.booking_id
    tenant ← optional_id tenant_id
    now ← gets (λ s. s.now)
    grievance ← insert (grievances_of env) (record {
      user_id = user;
      tenant_id = tenant;
      booking_id = booking;
      category = dto.category;
      description = dto.description;
      status = GrievanceStatus.opened;
      assigned_to = none;
      messages = [];
      created_at = now;
    })
    emit env (DomainEvent.grievance_created grievance.id user_id tenant_id)
    pure grievance

  unfoldable pub list_mine : String → ListGrievancesDto → Action (State env) (Page Grievance)
  list_mine user_id dto = do
    user ← new_object_id env user_id
    paginate (grievances_of env) (λ g. str_eq g.doc.user_id user && has_status dto.status g.doc)
        dto.page dto.limit

  -- A tenant in a query is cast by the schema.
  abbrev cast_tenant : Option String → Action (State env) (Option ObjectId)
  cast_tenant none = pure none
  cast_tenant (some t) =
      if str_eq t "" then pure none else (cast_or_throw env t >>= λ i. pure (some i))

  unfoldable pub list_for_staff :
      Option String → ListGrievancesDto → Action (State env) (Page Grievance)
  list_for_staff tenant_id dto = do
    tenant ← cast_tenant tenant_id
    paginate (grievances_of env)
        (λ g. has_tenant tenant g.doc.tenant_id && has_status dto.status g.doc) dto.page dto.limit

  unfoldable pub get_grievance :
      (id requester_id requester_role : String) → Action (State env) (Stored Grievance)
  get_grievance id requester_id requester_role = do
    key ← cast_or_throw env id
    found ← load (grievances_of env) key
    grievance ← or_throw found (not_found "Grievance")
    throw_if (str_eq requester_role "user" && not (str_eq grievance.doc.user_id requester_id))
        (not_found "Grievance")
    pure grievance

  -- The checks: a passenger writes to the own ticket only.
  unfoldable pub check_message :
      (id sender_id sender_role : String) → Action (State env) (Stored Grievance)
  check_message id sender_id sender_role = do
    key ← cast_or_throw env id
    found ← load (grievances_of env) key
    grievance ← or_throw found (not_found "Grievance")
    throw_if (str_eq sender_role "user" && not (str_eq grievance.doc.user_id sender_id))
        (forbidden "Not your grievance")
    pure grievance

  unfoldable pub write_message :
      (sender_id sender_role message : String)
      → Stored Grievance
      → Action (State env) (Stored Grievance)
  write_message sender_id sender_role message grievance = do
    now ← gets (λ s. s.now)
    sender ← new_object_id env sender_id
    let changed = add_reply sender sender_role message now grievance.doc
    update (grievances_of env) grievance.id (add_reply sender sender_role message now)
    emit env (
        DomainEvent.grievance_updated grievance.id changed.user_id
          (grievance_status_text changed.status))
    pure (record grievance { doc = changed })

  unfoldable pub add_message :
      (id sender_id sender_role message : String) → Action (State env) (Stored Grievance)
  add_message id sender_id sender_role message =
      check_message id sender_id sender_role >>= write_message sender_id sender_role message

  unfoldable pub update_status : String → GrievanceStatus → Action (State env) (Stored Grievance)
  update_status id status = do
    key ← cast_or_throw env id
    found ← update_and_load (grievances_of env) key (λ g. record g { status = status })
    grievance ← or_throw found (not_found "Grievance")
    emit env (
        DomainEvent.grievance_updated grievance.id grievance.doc.user_id
          (grievance_status_text grievance.doc.status))
    pure grievance
