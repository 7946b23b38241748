-- ===== src/Plans.antt =====
-- src/modules/plan/plan.service.ts. Its collection is a parameter, like the cast of an identifier.
use mathlib.Core.Option
use bus_booking_backend.Prelude.{
  ℕ, String, Bool, true, false, ◌&&◌, Option, some, List, str_eq, is_some, get_or_default, ◌≡◌,
  arith, inl, inr, Option-cases,
}
use bus_booking_backend.Errors.{cast, not_found, conflict}
use bus_booking_backend.Store.{ObjectId, Stored, err}
use bus_booking_backend.Action.{Action, throw_if, or_throw, gets, ◌>>=◌, ◌>>◌}
use bus_booking_backend.Documents.{Plan, PlanCycle, PlanFeatures, cycle_text}
use bus_booking_backend.World.{Table, load, load_one, update_and_load, insert}

-- `createPlanSchema`, whose defaults are filled in
pub record CreatePlanDto : Type 0 where
  pub name : String
  pub price : ℕ
  pub currency : String
  pub cycle : PlanCycle
  pub max_buses : ℕ
  pub max_operators : ℕ
  pub features : PlanFeatures

-- `updatePlanSchema`
pub record UpdatePlanDto : Type 0 where
  pub name : Option String
  pub price : Option ℕ
  pub currency : Option String
  pub cycle : Option PlanCycle
  pub max_buses : Option ℕ
  pub max_operators : Option ℕ
  pub features : Option PlanFeatures
  pub is_active : Option Bool

-- `Plan.findOne({ name, cycle })`, whose name is trimmed like the stored ones
abbrev pub is_plan : (name : String) → PlanCycle → Stored Plan → Bool
is_plan name cycle p = str_eq p.doc.name name && str_eq (cycle_text p.doc.cycle) (cycle_text cycle)

module _ {S : Type 0} (plans : Table S Plan) (cast_id : String → Option ObjectId)
    (trim : String → String) where
  abbrev pub new_plan : CreatePlanDto → Plan
  new_plan dto = record {
    name = trim dto.name;
    price = dto.price;
    currency = dto.currency;
    cycle = dto.cycle;
    max_buses = dto.max_buses;
    max_operators = dto.max_operators;
    features = dto.features;
    is_active = true;
  }

  -- `{ $set: dto }`: the fields that are given
  abbrev pub set_plan : UpdatePlanDto → Plan → Plan
  set_plan dto p = record p {
    name = get_or_default (Option.map trim dto.name) p.name;
    price = get_or_default dto.price p.price;
    currency = get_or_default dto.currency p.currency;
    cycle = get_or_default dto.cycle p.cycle;
    max_buses = get_or_default dto.max_buses p.max_buses;
    max_operators = get_or_default dto.max_operators p.max_operators;
    features = get_or_default dto.features p.features;
    is_active = get_or_default dto.is_active p.is_active;
  }

  -- `listActive` and `listAll`
  unfoldable pub list_active : Action S (List (Stored Plan))
  list_active = gets (λ s. plans.model.find_all (plans.get s) (λ p. p.doc.is_active))

  unfoldable pub list_all : Action S (List (Stored Plan))
  list_all = gets (λ s. plans.model.find_all (plans.get s) (λ p. true))

  abbrev cast_plan : String → Action S ObjectId
  cast_plan id = or_throw (cast_id id) (cast "_id" id)

  -- `getById`
  unfoldable pub get_plan : String → Action S (Stored Plan)
  get_plan id = do key ← cast_plan id; found ← load plans key; or_throw found (not_found "Plan")

  unfoldable pub create_plan : CreatePlanDto → Action S (Stored Plan)
  create_plan dto = do
    existing ← load_one plans (is_plan (trim dto.name) dto.cycle)
    throw_if (is_some existing) (conflict "A plan with this name and billing cycle already exists")
    insert plans (new_plan dto)

  -- `findByIdAndUpdate`, and the test that there was such a plan
  unfoldable pub change_plan : (Plan → Plan) → String → Action S (Stored Plan)
  change_plan f id = do
    key ← cast_plan id
    found ← update_and_load plans key f
    or_throw found (not_found "Plan")

  unfoldable pub update_plan : String → UpdatePlanDto → Action S (Stored Plan)
  update_plan id dto = change_plan (set_plan dto) id

  unfoldable pub deactivate_plan : String → Action S (Stored Plan)
  deactivate_plan = change_plan (λ p. record p { is_active = false })

  -- While a plan of the same trimmed name and cycle is stored, no second one is made.
  pub create_plan_once :
      (dto : CreatePlanDto) (s : S) (i : ObjectId) (p : Plan)
      → plans.model.find_by_id (plans.get s) i ≡ some p
      → is_plan (trim dto.name) dto.cycle (record { id = i; doc = p }) ≡ true
      → create_plan dto s
        ≡ (err (conflict "A plan with this name and billing cycle already exists"), s)
  unfolding create_plan
  create_plan_once dto s i p at same =
      elim (Option-cases (plans.model.find_one (plans.get s) (is_plan (trim dto.name) dto.cycle))) [
        | inl absent ↦ cc (
            plans.model.find_one_complete (plans.get s) (is_plan (trim dto.name) dto.cycle) i p
              absent at)
        | inr (q, one) ↦ ground arith
      ]
