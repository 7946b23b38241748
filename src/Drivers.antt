-- ===== src/Drivers.antt =====
-- src/modules/driver/driver.service.ts, without `assertBookable`, which is in Review, and the
-- fields of the manager that `populate` adds to an answer.
pub mod Unbookable
mod Schemas
unfoldable pub use Schemas.*
use mathlib.Core.Option
use bus_booking_backend.Prelude.{
  ℕ, String, Bool, true, false, not, ◌&&◌, Option, none, some, [], str_eq, is_some, get_or_default,
  if◌then◌else◌,
}
use bus_booking_backend.Errors.{bad_request, not_found, conflict}
use bus_booking_backend.Store.{ObjectId, Stored}
use bus_booking_backend.Action.{Action, pure, throw_if, or_throw, gets, ◌>>=◌, ◌>>◌}
use bus_booking_backend.Documents.{Driver, User, Verification, VerificationStatus, Role}
use bus_booking_backend.Events.{DomainEvent}
use bus_booking_backend.World.{
  Env, State, load, load_one, update_and_load, insert, cast_or_throw, new_object_id, drivers_of,
  users_of, emit,
}
use bus_booking_backend.Pages.{Page, paginate}
use bus_booking_backend.Review.{
  Decision, assign_verification_manager, decide_verification, verification_status_text,
}

-- `trim` is the setter of the schema.
module _ (env : Env) (trim : String → String) where
  -- The document that `Driver.create` is given, with the defaults of the schema.
  abbrev pub new_driver : CreateDriverDto → (tenant created_by : ObjectId) → (now : ℕ) → Driver
  new_driver dto tenant created_by now = record {
    full_name = trim dto.full_name;
    phone = trim dto.phone;
    license_number = trim dto.license_number;
    license_expiry = env.parse_date dto.license_expiry;
    tenant_id = tenant;
    created_by = created_by;
    is_active = true;
    verification = new_verification now;
  }

  -- `{ $set: update }`: the fields that are given.
  abbrev pub set_driver : UpdateDriverDto → Driver → Driver
  set_driver dto d = record d {
    full_name = get_or_default (Option.map trim dto.full_name) d.full_name;
    phone = get_or_default (Option.map trim dto.phone) d.phone;
    license_number = get_or_default (Option.map trim dto.license_number) d.license_number;
    license_expiry = get_or_default (Option.map env.parse_date dto.license_expiry) d.license_expiry;
    is_active = get_or_default dto.is_active d.is_active;
  }

  -- The query for a driver with this phone number in the tenant, which casts both.
  unfoldable pub check_driver : CreateDriverDto → String → Action (State env) (Unit {0})
  check_driver dto tenant_id = do
    tenant ← cast_or_throw env tenant_id
    existing ←
        load_one (drivers_of env)
          (λ d. str_eq d.doc.phone (trim dto.phone) && str_eq d.doc.tenant_id tenant)
    throw_if (is_some existing)
        (conflict "A driver with this phone number already exists for your account")

  unfoldable pub write_driver :
      CreateDriverDto → (created_by_id tenant_id : String) → Action (State env) (Stored Driver)
  write_driver dto created_by_id tenant_id = do
    tenant ← new_object_id env tenant_id
    created_by ← new_object_id env created_by_id
    now ← gets (λ s. s.now)
    driver ← insert (drivers_of env) (new_driver dto tenant created_by now)
    emit env (DomainEvent.driver_created driver.id tenant_id)
    pure driver

  unfoldable pub create_driver :
      CreateDriverDto → (created_by_id tenant_id : String) → Action (State env) (Stored Driver)
  create_driver dto created_by_id tenant_id =
      check_driver dto tenant_id >> write_driver dto created_by_id tenant_id

  -- `getById`
  unfoldable pub get_driver : String → Action (State env) (Stored Driver)
  get_driver id = do
    key ← cast_or_throw env id
    found ← load (drivers_of env) key
    or_throw found (not_found "Driver")

  abbrev cast_tenant : Option String → Action (State env) (Option ObjectId)
  cast_tenant none = pure none
  cast_tenant (some t) =
      if str_eq t "" then pure none else (cast_or_throw env t >>= λ i. pure (some i))

  -- `dto.assignedToMe === 'true' && requesterId`
  abbrev cast_requester : Bool → Option String → Action (State env) (Option ObjectId)
  cast_requester false requester_id = pure none
  cast_requester true none = pure none
  cast_requester true (some r) =
      if str_eq r "" then pure none else (new_object_id env r >>= λ i. pure (some i))

  -- `list`
  unfoldable pub list_drivers :
      ListDriversDto → (tenant_id requester_id : Option String) → Action (State env) (Page Driver)
  list_drivers dto tenant_id requester_id = do
    manager ← cast_requester dto.assigned_to_me requester_id
    tenant ← cast_tenant tenant_id
    paginate (drivers_of env)
        (λ d.
          is_of_tenant tenant d.doc
          && has_review_status dto.verification_status d.doc
          && is_assigned_to manager d.doc)
        dto.page dto.limit

  -- `update`
  unfoldable pub update_driver : String → UpdateDriverDto → Action (State env) (Stored Driver)
  update_driver id dto = do
    key ← cast_or_throw env id
    found ← update_and_load (drivers_of env) key (set_driver dto)
    or_throw found (not_found "Driver")

  unfoldable pub check_manager : String → Action (State env) (Unit {0})
  check_manager manager_id = do
    key ← cast_or_throw env manager_id
    found ← load (users_of env) key
    throw_if (not (is_manager found))
        (bad_request "managerId must belong to a user with the manager role" none)

  -- `assignManager`; `add_days` and `sla_days` are those of the module policy.config, which the
  -- repository lacks.
  unfoldable pub assign_manager :
      (add_days : ℕ → ℕ → ℕ)
      → (sla_days : ℕ) → (driver_id manager_id assigned_by_id : String)
      → Action (State env) (Stored Driver)
  assign_manager add_days sla_days driver_id manager_id assigned_by_id = do
    check_manager manager_id
    driver ← assign_verification_manager env add_days driver_id manager_id assigned_by_id sla_days
    emit env (DomainEvent.verification_assigned "driver" driver.id manager_id driver.doc.created_by)
    pure driver

  -- `decide`
  unfoldable pub decide_driver :
      String
      → Decision
      → (decided_by_id : String) → (notes reason : Option String)
      → Action (State env) (Stored Driver)
  decide_driver driver_id decision decided_by_id notes reason = do
    driver ← decide_verification env driver_id decision decided_by_id notes reason
    emit env (
        DomainEvent.verification_decided "driver" driver.id (decision_text decision)
          driver.doc.created_by)
    pure driver
