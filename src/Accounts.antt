-- ===== src/Accounts.antt =====
-- src/modules/user/user.service.ts, and the review of a driver's account by
-- src/modules/admin/admin.service.ts. The fields that `select` leaves out of an answer are kept.
pub mod Closed
use mathlib.Core.Option
use bus_booking_backend.Prelude.{
  ℕ, String, Bool, true, false, not, ◌&&◌, Option, none, some, List, [], ◌∷◌, str_eq, is_some, ◌<>◌,
  if◌then◌else◌,
}
use bus_booking_backend.Errors.{bad_request, forbidden, not_found, conflict}
use bus_booking_backend.Store.{ObjectId, Stored}
use bus_booking_backend.Action.{Action, pure, throw_if, or_throw, ◌>>=◌, ◌>>◌}
use bus_booking_backend.Documents.{User, Role, ReviewStatus, Gender, same_role}
use bus_booking_backend.World.{
  Env, State, load, load_one, update, update_and_load, cast_or_throw, users_of,
}
use bus_booking_backend.Pages.{Page, paginate}
use bus_booking_backend.Auth.{Crypto, is_one_of}
use bus_booking_backend.Auth.Registration.{or_keep, given_email, has_email}

-- `updateProfileSchema`
pub record UpdateProfileDto : Type 0 where
  pub full_name : Option String
  pub email : Option String
  pub gender : Option Gender
  pub dob : Option String
  pub address : Option String
  pub pin : Option ℕ

-- `updateDriverVerificationStatusSchema`
pub record ReviewDto : Type 0 where
  pub user_id : String
  pub status : ReviewStatus

abbrev is_approved : ReviewStatus → Bool
is_approved ReviewStatus.approved = true
is_approved _ = false

abbrev review_text : ReviewStatus → String
review_text ReviewStatus.pending = "pending"
review_text ReviewStatus.approved = "approved"
review_text ReviewStatus.rejected = "rejected"

-- `[Role.ADMIN, Role.SUPER_ADMIN, Role.Manager].includes(role)`
unfoldable pub may_review : Role → Bool
may_review role = is_one_of (Role.admin ∷ Role.super_admin ∷ Role.manager ∷ []) role

-- The fields that the review sets.
abbrev pub set_reviewed : ReviewStatus → (reviewer : ObjectId) → User → User
set_reviewed status reviewer u = record u {
  verification_status = status;
  verified_by = some reviewer;
  is_verified = is_approved status;
}

abbrev pub set_active : Bool → User → User
set_active active u = record u { is_active = active }

abbrev has_user_tenant : Option ObjectId → Option ObjectId → Bool
has_user_tenant none b = true
has_user_tenant (some t) none = false
has_user_tenant (some t) (some u) = str_eq u t

module _ (env : Env) where
  -- `getProfile`
  unfoldable pub get_profile : String → Action (State env) (Stored User)
  get_profile user_id = do
    key ← cast_or_throw env user_id
    found ← load (users_of env) key
    or_throw found (not_found "User")

  module _ (crypto : Crypto) where
    -- `updates`, with the setters of the schema; an empty email address is undefined, and left out.
    abbrev pub set_updates : UpdateProfileDto → User → User
    set_updates dto u = record u {
      full_name = or_keep (Option.map crypto.trim dto.full_name) u.full_name;
      email =
          or_keep (Option.map (λ e. crypto.lowercase (crypto.trim e)) (given_email dto.email))
            u.email;
      gender = or_keep dto.gender u.gender;
      dob = or_keep (Option.map env.parse_date dto.dob) u.dob;
      address = or_keep dto.address u.address;
      pin = or_keep dto.pin u.pin;
    }

    -- Another user with the same email address.
    abbrev email_in_use : (email : String) → (key : ObjectId) → Stored User → Bool
    email_in_use email key other =
        has_email (crypto.lowercase (crypto.trim email)) other.doc.email
        && not (str_eq other.id key)

    abbrev check_email : Option String → String → Action (State env) (Unit {0})
    check_email none user_id = pure tt
    check_email (some email) user_id = do
      key ← cast_or_throw env user_id
      taken ← load_one (users_of env) (email_in_use email key)
      throw_if (is_some taken) (conflict "Email already in use")

    unfoldable pub update_profile : String → UpdateProfileDto → Action (State env) (Stored User)
    update_profile user_id dto = do
      check_email (given_email dto.email) user_id
      key ← cast_or_throw env user_id
      found ← update_and_load (users_of env) key (set_updates dto)
      or_throw found (not_found "User")

  abbrev cast_tenant : Option String → Action (State env) (Option ObjectId)
  cast_tenant none = pure none
  cast_tenant (some t) =
      if str_eq t "" then pure none else (cast_or_throw env t >>= λ i. pure (some i))

  unfoldable pub list_users : Option String → (page limit : ℕ) → Action (State env) (Page User)
  list_users tenant_id page limit = do
    tenant ← cast_tenant tenant_id
    paginate (users_of env) (λ u. has_user_tenant tenant u.doc.tenant_id) page limit

  -- `User.findByIdAndUpdate(userId, { isActive })`, and the test that there was such a user
  unfoldable pub switch_user : Bool → String → Action (State env) (Unit {0})
  switch_user active user_id = do
    key ← cast_or_throw env user_id
    found ← load (users_of env) key
    update (users_of env) key (set_active active)
    user ← or_throw found (not_found "User")
    pure tt

  unfoldable pub deactivate_user : String → String → Action (State env) (Unit {0})
  deactivate_user user_id requesting_user_id = do
    throw_if (str_eq user_id requesting_user_id)
        (bad_request "Cannot deactivate your own account" none)
    switch_user false user_id

  unfoldable pub activate_user : String → Action (State env) (Unit {0})
  activate_user user_id = switch_user true user_id

  -- The checks of `updateDriverVerificationStatus`: who reviews, and what is reviewed.
  unfoldable pub check_review : ReviewDto → String → Action (State env) (Stored User × Stored User)
  check_review dto reviewed_by_id = do
    reviewer_key ← cast_or_throw env reviewed_by_id
    found_reviewer ← load (users_of env) reviewer_key
    reviewer ← or_throw found_reviewer (not_found "Reviewer")
    throw_if (not (may_review reviewer.doc.role))
        (forbidden "Only admin, super admin, or manager can review drivers")
    key ← cast_or_throw env dto.user_id
    found ← load (users_of env) key
    user ← or_throw found (not_found "User")
    throw_if (not (same_role user.doc.role Role.driver))
        (bad_request "Only driver accounts can be reviewed" none)
    pure (reviewer, user)

  unfoldable pub write_review : ReviewDto → Stored User × Stored User → Action (State env) String
  write_review dto (reviewer, user) = do
    update (users_of env) user.id (set_reviewed dto.status reviewer.id)
    pure ("Driver " <> (review_text dto.status <> " successfully"))

  -- `updateDriverVerificationStatus`
  unfoldable pub review_driver : ReviewDto → String → Action (State env) String
  review_driver dto reviewed_by_id = do
    checked ← check_review dto reviewed_by_id
    write_review dto checked
