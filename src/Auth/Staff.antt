-- ===== src/Auth/Staff.antt =====
-- Who creates which account (src/modules/auth/auth.service.ts).
use bus_booking_backend.Prelude.{
  String, ◌≡◌, ◌≢◌, ◌⊎◌, inl, inr, refl, sym, ap, ◌∙◌, Bool, true, false, not, ◌&&◌, Option, none,
  some, List, [], ◌∷◌, arith, str_eq, if◌then◌else◌, all, includes, map, filter,
}
use mathlib.Core.Option
use bus_booking_backend.Errors.{Error, forbidden}
use bus_booking_backend.Store.{ObjectId, Stored, Result, ok, err}
use bus_booking_backend.Store.Laws.{update_all}
use bus_booking_backend.Documents.{User, RefreshToken, ReviewStatus, Role, same_role}
use bus_booking_backend.Action.{throw_if, ◌>>◌, >>=-eq-ok}
use bus_booking_backend.Access.Gates.{all_roles, every_role}
use bus_booking_backend.World.{Env, State}
use bus_booking_backend.Auth.{
  Crypto, CreateAdminDto, check_roles, check_account, write_account, insert_account, cast_tenant,
  create_admin_user, new_account, is_one_of, is_driver, log_out, pull_refresh_token,
}

-- Who may create whom: a super admin everyone; an admin and a manager everyone but a super admin;
-- an operator none of super admin, manager, operator and driver; nobody else anyone.
pub may_create : (creator account : Role) → Bool
may_create Role.super_admin account = true
may_create Role.admin account = not (same_role account Role.super_admin)
may_create Role.manager account = not (same_role account Role.super_admin)
may_create Role.operator Role.admin = true
may_create Role.operator Role.user = true
may_create Role.operator Role.conductor = true
may_create Role.operator _ = false
may_create _ account = false

abbrev pub is_ok : {A : Type 0} → Result A → Bool
is_ok (ok a) = true
is_ok (err e) = false

filter_gone :
    (hash : String) (ts : List RefreshToken)
    → includes hash (map (λ t. t.token_hash) (filter (λ t. not (str_eq t.token_hash hash)) ts))
      ≡ false
filter_gone hash [] = refl
filter_gone hash (t ∷ ts) = ground (arith, filter_gone hash ts)

three_tests :
    {S : Type 0} (b c d : Bool) (e f g : Error) (s : S)
    → ((throw_if b e >> (throw_if c f >> throw_if d g)) s).1 ≡ s
three_tests true c d e f g s = refl
three_tests false true d e f g s = refl
three_tests false false true e f g s = refl
three_tests false false false e f g s = refl

driver_or_not : (r : Role) → (r ≡ Role.driver) ⊎ ((r ≢ Role.driver) × (is_driver r ≡ false))
driver_or_not Role.driver = inl refl
driver_or_not Role.user = inr ((λ e. cc e), refl)
driver_or_not Role.admin = inr ((λ e. cc e), refl)
driver_or_not Role.operator = inr ((λ e. cc e), refl)
driver_or_not Role.super_admin = inr ((λ e. cc e), refl)
driver_or_not Role.manager = inr ((λ e. cc e), refl)
driver_or_not Role.conductor = inr ((λ e. cc e), refl)

module _ (env : Env) (crypto : Crypto) where
  is_exact : State env → (creator account : Role) → Bool
  is_exact s c a =
      let let_through = is_ok (check_roles env crypto c a s).0 in
      if may_create c a then let_through else not let_through

  -- The whole table, computed.
  table : (s : State env) → all (λ c. all (is_exact s c) all_roles) all_roles ≡ true
  unfolding is_exact check_roles may_create
  table s = refl

  check_roles_unchanged : (c a : Role) (s : State env) → (check_roles env crypto c a s).1 ≡ s
  unfolding check_roles
  check_roles_unchanged c a s =
      three_tests
        (not (is_one_of (Role.admin ∷ Role.super_admin ∷ Role.manager ∷ Role.operator ∷ []) c))
        (same_role a Role.super_admin && not (same_role c Role.super_admin))
        (is_one_of (Role.manager ∷ Role.operator ∷ Role.driver ∷ []) a
          && not (is_one_of (Role.admin ∷ Role.super_admin ∷ Role.manager ∷ []) c))
        (forbidden "You are not allowed to create this account")
        (forbidden "Only super admin can create super admin accounts")
        (forbidden "Only admin or super admin can create operators/managers/drivers") s

  -- The tests of `createAdminUser` on the two roles let through exactly the pairs of the table
  -- `may_create`, and change nothing.
  pub check_roles-may_create :
      (creator account : Role) (s : State env)
      → (is_ok (check_roles env crypto creator account s).0 ≡ may_create creator account)
        × ((check_roles env crypto creator account s).1 ≡ s)
  unfolding is_exact
  check_roles-may_create creator account s =
      let row = every_role (λ c. all (is_exact s c) all_roles) (table s) creator in
      let cell = every_role (is_exact s creator) row account in
      (ground arith, check_roles_unchanged creator account s)

  record IsChecked (s : State env) (dto : CreateAdminDto) (by : String) (creator : Stored User)
      : Type 0 where
    pub unused : env.users.find_one s.users (λ u. str_eq u.doc.phone dto.phone) ≡ none
    pub cast : env.cast_id by ≡ some creator.id
    pub found : env.users.find_by_id s.users creator.id ≡ some creator.doc
    pub roles : is_ok (check_roles env crypto creator.doc.role dto.role s).0 ≡ true

  check_account-IsChecked :
      (dto : CreateAdminDto) (by : String) (s t : State env) (creator : Stored User)
      → check_account env crypto dto by s ≡ (ok creator, t)
      → IsChecked s dto by creator × (t ≡ s)
  unfolding check_account
  check_account-IsChecked dto by s t creator h =
      ground (arith, check_roles_unchanged creator.doc.role dto.role s)

  inserted :
      (dto : CreateAdminDto) (by : String) (tenant : Option ObjectId) (s s' : State env)
      (m : String) (r : Result (ObjectId × env.users.Coll))
      → env.users.create s.users (new_account env crypto dto by tenant s.now) ≡ r
      → insert_account env crypto dto by tenant s ≡ (ok m, s')
      → (i : ObjectId) × (r ≡ ok (i, s'.users))
  unfolding insert_account
  inserted dto by tenant s s' m (ok (i, c)) e h = (i, ground arith)
  inserted dto by tenant s s' m (err x) e h = ground arith

  cast_tenant_unchanged : (o : Option String) (s : State env) → (cast_tenant env crypto o s).1 ≡ s
  cast_tenant_unchanged o s = ground arith

  -- An account was created.
  pub record IsCreated (s : State env) (dto : CreateAdminDto) (by : String) (s' : State env)
      (creator : Stored User) (i : ObjectId) (u : User) : Type 0 where
    pub unused : env.users.find_one s.users (λ u. str_eq u.doc.phone dto.phone) ≡ none
    pub cast : env.cast_id by ≡ some creator.id
    pub found : env.users.find_by_id s.users creator.id ≡ some creator.doc
    pub allowed : may_create creator.doc.role dto.role ≡ true
    pub role : u.role ≡ dto.role
    pub phone : u.phone ≡ dto.phone
    pub password : u.password ≡ some (crypto.hash_password s.now dto.password)
    pub email : u.email ≡ Option.map (λ e. crypto.lowercase (crypto.trim e)) dto.email
    pub full_name : u.full_name ≡ some (crypto.trim dto.full_name)
    pub created_by : u.created_by ≡ some by
    pub usable : (u.is_active ≡ true) × (u.profile_completed ≡ true) × (u.refresh_tokens ≡ [])
    pub reviewed :
        ((dto.role ≡ Role.driver)
          × (u.is_verified ≡ false)
          × (u.verification_status ≡ ReviewStatus.pending))
        ⊎ ((dto.role ≢ Role.driver)
            × (u.is_verified ≡ true)
            × (u.verification_status ≡ ReviewStatus.approved))
    pub fresh : env.users.find_by_id s.users i ≡ none
    pub users :
        (j : ObjectId)
        → env.users.find_by_id s'.users j
          ≡ (if str_eq i j then some u else env.users.find_by_id s.users j)

  account :
      (dto : CreateAdminDto) (by : String) (s s' : State env) (creator : Stored User)
      (tenant : Option ObjectId) (i : ObjectId)
      → IsChecked s dto by creator
      → env.users.create s.users (new_account env crypto dto by tenant s.now) ≡ ok (i, s'.users)
      → IsCreated s dto by s' creator i (new_account env crypto dto by tenant s.now)
  account dto by s s' creator tenant i k w = record {
    unused = k.unused;
    cast = k.cast;
    found = k.found;
    allowed = sym (check_roles-may_create creator.doc.role dto.role s).0 ∙ k.roles;
    role = refl;
    phone = refl;
    password = refl;
    email = refl;
    full_name = refl;
    created_by = refl;
    usable = (refl, refl, refl);
    reviewed = elim (driver_or_not dto.role) [
      | inl is ↦ inl (is, rw is refl, rw is refl)
      | inr (other, e) ↦ inr (other, rw e refl, rw e refl)
    ];
    fresh = env.users.create_fresh s.users s'.users _ i w;
    users = λ j. env.users.find_by_id-create s.users s'.users _ i j w;
  }

  -- An account that `createAdminUser` creates has a phone number that no user had, and its
  -- creator is a user who may create it by the table `may_create`. It is stored under a new
  -- identifier beside the other users, active and without a session, with the requested role and
  -- the hash of the password. A driver's account is unverified and its review pending; any other
  -- is verified and approved.
  pub create_admin_user-IsCreated :
      (dto : CreateAdminDto) (by : String) (s s' : State env) (m : String)
      → create_admin_user env crypto dto by s ≡ (ok m, s')
      → (creator : Stored User) × (i : ObjectId) × (u : User) × IsCreated s dto by s' creator i u
  unfolding create_admin_user write_account
  create_admin_user-IsCreated dto by s s' m h =
      let (creator, t, e, h') =
        >>=-eq-ok (check_account env crypto dto by) (λ _. write_account env crypto dto by) s s' m
          h in
      let (k, same) = check_account-IsChecked dto by s t creator e in
      let (tenant, v, e', h'') =
        >>=-eq-ok (cast_tenant env crypto dto.tenant_id) (insert_account env crypto dto by) t s' m
          h' in
      let kept : v ≡ s = sym (ap (λ r. r.1) e') ∙ cast_tenant_unchanged dto.tenant_id t ∙ same in
      let (i, w) =
        inserted dto by tenant s s' m
          (env.users.create s.users (new_account env crypto dto by tenant s.now)) refl
          (rw kept at h'') in
      (
        creator,
        i,
        new_account env crypto dto by tenant s.now,
        account dto by s s' creator tenant i k w,
      )

  -- Logging out an existing user changes that user only, by pulling the given token: no refresh
  -- token with its hash is left, so that it cannot be exchanged again.
  pub log_out_revokes :
      (user_id token : String) (s s' : State env) (i : ObjectId) (u : User)
      → log_out env crypto user_id token s ≡ (ok tt, s')
      → env.cast_id user_id ≡ some i
      → env.users.find_by_id s.users i ≡ some u
      → (after : User) × ((j : ObjectId)
          → env.users.find_by_id s'.users j
            ≡ (if str_eq i j then some after else env.users.find_by_id s.users j))
        × (after ≡ record u { refresh_tokens = after.refresh_tokens })
        × (includes (crypto.sha256_hex token) (map (λ t. t.token_hash) after.refresh_tokens)
            ≡ false)
  unfolding log_out pull_refresh_token
  log_out_revokes user_id token s s' i u h cast found = (
    pull_refresh_token (crypto.sha256_hex token) u,
    update_all env.users s.users s'.users i (pull_refresh_token (crypto.sha256_hex token)) u
        (ground arith) found,
    refl,
    filter_gone (crypto.sha256_hex token) u.refresh_tokens,
  )
