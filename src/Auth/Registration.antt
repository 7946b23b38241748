-- ===== src/Auth/Registration.antt =====
-- `completeRegistration` of src/modules/auth/auth.service.ts, and the strategy that authenticates a
-- request by its access token, src/passport/jwt.strategy.ts.
use bus_booking_backend.Prelude.{
  String, Bool, true, false, not, ◌&&◌, Option, none, some, str_eq, ◌≡◌, arith, is_some,
  if◌then◌else◌, eq_iff,
}
use mathlib.Core.Option
use bus_booking_backend.Errors.{conflict, not_found}
use bus_booking_backend.Store.{Stored, ok}
use bus_booking_backend.Action.{Action, pure, throw_if, or_throw, ◌>>=◌, ◌>>◌}
use bus_booking_backend.Documents.{User, Gender}
use bus_booking_backend.World.{Env, State, load, load_one, update, cast_or_throw, users_of}
use bus_booking_backend.Auth.{JwtPayload, Crypto}

-- `completeRegistrationSchema`
pub record CompleteRegistrationDto : Type 0 where
  pub phone : String
  pub full_name : String
  pub email : Option String
  pub gender : Option Gender
  pub dob : Option String

-- The value of a field of `$set`: one that is undefined is left out.
abbrev pub or_keep : {A : Type 0} → Option A → Option A → Option A
or_keep none old = old
or_keep (some a) old = some a

-- `dto.email ? ... : null`
abbrev pub given_email : Option String → Option String
given_email none = none
given_email (some e) = if str_eq e "" then none else some e

abbrev pub has_email : String → Option String → Bool
has_email email none = false
has_email email (some e) = str_eq e email

module _ (env : Env) (crypto : Crypto) where
  -- The fields that are set; the schema trims the texts and lowers the email address.
  abbrev pub set_profile : CompleteRegistrationDto → User → User
  set_profile dto u = record u {
    full_name = some (crypto.trim dto.full_name);
    email = or_keep (Option.map (λ e. crypto.lowercase (crypto.trim e)) dto.email) u.email;
    gender = or_keep dto.gender u.gender;
    dob = or_keep (Option.map env.parse_date (given_email dto.dob)) u.dob;
    profile_completed = true;
  }

  -- The email address in a query is cast by the schema too.
  abbrev email_taken : Option String → Stored User → Stored User → Bool
  email_taken none user other = false
  email_taken (some email) user other =
      has_email (crypto.lowercase (crypto.trim email)) other.doc.email
      && not (str_eq other.id user.id)

  unfoldable pub check_registration : CompleteRegistrationDto → Action (State env) (Stored User)
  check_registration dto = do
    found ← load_one (users_of env) (λ u. str_eq u.doc.phone dto.phone)
    user ← or_throw found (not_found "User")
    taken ← load_one (users_of env) (email_taken (given_email dto.email) user)
    throw_if (is_some taken) (conflict "Email is already in use")
    pure user

  unfoldable pub complete_registration : CompleteRegistrationDto → Action (State env) String
  complete_registration dto = do
    user ← check_registration dto
    update (users_of env) user.id (set_profile dto)
    pure "Profile completed successfully"

  -- The callback of the strategy: `none` is `done(null, false)`.
  unfoldable pub authenticate : JwtPayload → Action (State env) (Option (Stored User))
  authenticate payload = if not (str_eq payload.kind "access") then pure none else do
    key ← cast_or_throw env payload.sub
    found ← load (users_of env) key
    elim found [
      | none ↦ pure none
      | some user ↦ if user.doc.is_active then pure (some user) else pure none
    ]

  -- A user that a token authenticates is the stored one that the token names, is active, and the
  -- token is an access token.
  pub authenticate_active :
      (payload : JwtPayload) (s s' : State env) (u : Stored User)
      → authenticate payload s ≡ (ok (some u), s')
      → (payload.kind ≡ "access")
        × (env.cast_id payload.sub ≡ some u.id)
        × (env.users.find_by_id s.users u.id ≡ some u.doc)
        × (u.doc.is_active ≡ true)
        × (s' ≡ s)
  unfolding authenticate
  authenticate_active payload s s' u h = (
    ground (arith, eq_iff payload.kind "access"),
    ground arith,
    ground arith,
    ground arith,
    ground arith,
  )
