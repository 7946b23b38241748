-- ===== src/Auth/Login/Admitted.antt =====
-- Who logs in with a password (src/modules/auth/auth.service.ts).
use bus_booking_backend.Prelude.{
  String, ◌≡◌, refl, true, ◌⊎◌, inl, inr, Option, none, some, List, [], ◌∷◌, ◌++◌, arith, str_eq,
  eq_iff, if◌then◌else◌, some_of,
}
use bus_booking_backend.Store.{ObjectId, Stored, ok}
use bus_booking_backend.Store.Laws.{update_all}
use bus_booking_backend.Action.{>>=-eq-ok}
use bus_booking_backend.Documents.{User, Role, role_text}
use bus_booking_backend.World.{Env, State}
use bus_booking_backend.Auth.{
  Crypto, JwtPayload, AuthResult, is_one_of, add_refresh_token, push_refresh_token, refresh_token,
}
use bus_booking_backend.Auth.Login.{
  AdminLoginDto, LoginName, is_named, password_fits, check_login, write_login, admin_login,
  operator_login,
}

-- The user that a request names: by the phone number, or by the email in its canonical form.
abbrev pub IsNamed : Crypto → LoginName → User → Type 0
IsNamed crypto (LoginName.by_phone phone) u = u.phone ≡ phone
IsNamed crypto (LoginName.by_email email) u = u.email ≡ some (crypto.lowercase (crypto.trim email))

-- The roles that `adminLogin` and `operatorLogin` admit.
abbrev pub IsAdmin : Role → Type 0
IsAdmin role = (role ≡ Role.admin) ⊎ ((role ≡ Role.operator) ⊎ (role ≡ Role.super_admin))

abbrev pub IsOperator : Role → Type 0
IsOperator role = role ≡ Role.operator

is_named-IsNamed :
    (crypto : Crypto) (name : LoginName) (u : Stored User)
    → is_named crypto name u ≡ true
    → IsNamed crypto name u.doc
is_named-IsNamed crypto (LoginName.by_phone phone) u h = (eq_iff u.doc.phone phone).0 h
is_named-IsNamed crypto (LoginName.by_email email) u h =
    let (e, is_some) = some_of u.doc.email (λ no. cc (rw no at h)) in
    rw (is_some, (eq_iff e (crypto.lowercase (crypto.trim email))).0 (rw is_some at h)) refl

one_of-IsAdmin :
    (role : Role)
    → is_one_of (Role.admin ∷ Role.operator ∷ Role.super_admin ∷ []) role ≡ true
    → IsAdmin role
one_of-IsAdmin Role.admin h = inl refl
one_of-IsAdmin Role.operator h = inr (inl refl)
one_of-IsAdmin Role.super_admin h = inr (inr refl)
one_of-IsAdmin Role.user h = cc h
one_of-IsAdmin Role.manager h = cc h
one_of-IsAdmin Role.driver h = cc h
one_of-IsAdmin Role.conductor h = cc h

one_of-IsOperator : (role : Role) → is_one_of (Role.operator ∷ []) role ≡ true → IsOperator role
one_of-IsOperator Role.operator h = refl
one_of-IsOperator Role.admin h = cc h
one_of-IsOperator Role.super_admin h = cc h
one_of-IsOperator Role.user h = cc h
one_of-IsOperator Role.manager h = cc h
one_of-IsOperator Role.driver h = cc h
one_of-IsOperator Role.conductor h = cc h

-- What a token of a kind says of a user.
abbrev pub claims : Stored User → (kind : String) → JwtPayload
claims u kind = record {
  sub = u.id;
  role = role_text u.doc.role;
  tenant_id = u.doc.tenant_id;
  kind = kind;
}

module _ (env : Env) (crypto : Crypto) where
  -- A user who was let in, with what the answer says and what is stored.
  pub record IsAdmitted (Allowed : Role → Type 0) (expiry device : String) (dto : AdminLoginDto)
      (s : State env) (r : AuthResult) (s' : State env) (u : Stored User) : Type 0 where
    pub named : IsNamed crypto dto.name u.doc
    pub found : env.users.find_by_id s.users u.id ≡ some u.doc
    pub allowed : Allowed u.doc.role
    pub active : u.doc.is_active ≡ true
    pub password :
        (hash : String) × (u.doc.password ≡ some hash)
        × (crypto.compare_password dto.password hash ≡ true)
    pub id : r.id ≡ u.id
    pub role : r.role ≡ u.doc.role
    pub access : r.access_token ≡ crypto.sign s.now (claims u "access") expiry
    pub refresh : r.refresh_token ≡ crypto.sign s.now (claims u "refresh") crypto.refresh_expiry
    pub users :
        (j : ObjectId)
        → env.users.find_by_id s'.users j ≡ (
            if str_eq u.id j
            then some (record u.doc {
              refresh_tokens =
                  u.doc.refresh_tokens
                  ++ record {
                    token_hash = crypto.sha256_hex r.refresh_token;
                    device_id = crypto.random_uuid s.now;
                    device_name = some device;
                    created_at = s.now;
                    last_used_at = s.now;
                  }
                    ∷ [];
              last_login_at = some s.now;
            })
            else env.users.find_by_id s.users j)

  check_login_found :
      (roles : List Role) (dto : AdminLoginDto) (s t : State env) (u : Stored User)
      → check_login env crypto roles dto s ≡ (ok u, t)
      → (env.users.find_one s.users (is_named crypto dto.name) ≡ some u)
        × (is_one_of roles u.doc.role ≡ true)
        × (u.doc.is_active ≡ true)
        × (password_fits env crypto dto.password u.doc.password ≡ true)
        × (t ≡ s)
  unfolding check_login
  check_login_found roles dto s t u h = ground arith

  fitting :
      (candidate : String) (o : Option String)
      → password_fits env crypto candidate o ≡ true
      → (hash : String) × (o ≡ some hash) × (crypto.compare_password candidate hash ≡ true)
  fitting candidate none h = cc h
  fitting candidate (some hash) h = (hash, refl, h)

  -- The token that `write_login` stores.
  abbrev stored : (device : String) → Stored User → State env → User → User
  stored device u s =
      push_refresh_token
        (record {
          token_hash = crypto.sha256_hex (refresh_token env crypto s.now u);
          device_id = crypto.random_uuid s.now;
          device_name = some device;
          created_at = s.now;
          last_used_at = s.now;
        })
        s.now

  write_login_answer :
      (expiry device : String) (u : Stored User) (s s' : State env) (r : AuthResult)
      → write_login env crypto expiry device u s ≡ (ok r, s')
      → (r.id ≡ u.id)
        × (r.role ≡ u.doc.role)
        × (r.access_token ≡ crypto.sign s.now (claims u "access") expiry)
        × (r.refresh_token ≡ crypto.sign s.now (claims u "refresh") crypto.refresh_expiry)
        × (env.users.update_by_id s.users u.id (stored device u s) ≡ ok s'.users)
  unfolding write_login add_refresh_token
  write_login_answer expiry device u s s' r h = ground arith

  admitted :
      (Allowed : Role → Type 0) (roles : List Role) (expiry device : String) (dto : AdminLoginDto)
      (s t s' : State env) (u : Stored User) (r : AuthResult)
      → ((role : Role) → is_one_of roles role ≡ true → Allowed role)
      → check_login env crypto roles dto s ≡ (ok u, t)
      → write_login env crypto expiry device u t ≡ (ok r, s')
      → IsAdmitted Allowed expiry device dto s r s' u
  admitted Allowed roles expiry device dto s t s' u r sound e h =
      let (one, allowed, active, password, same) = check_login_found roles dto s t u e in
      let (fits, found) = env.users.find_one_sound s.users (is_named crypto dto.name) u one in
      let (id, role, access, refresh, w) =
        write_login_answer expiry device u s s' r (rw same at h) in
      record {
        named = is_named-IsNamed crypto dto.name u fits;
        found = found;
        allowed = sound u.doc.role allowed;
        active = active;
        password = fitting dto.password u.doc.password password;
        id = id;
        role = role;
        access = access;
        refresh = refresh;
        users = λ j.
            rw refresh
              (update_all env.users s.users s'.users u.id (stored device u s) u.doc w found j);
      }

  -- Whoever `adminLogin` or `operatorLogin` lets in is a stored user of the given phone number, or
  -- of the given email in its canonical form, active, whose stored hash the given password fits; an admin, an operator or a super
  -- admin in the first case and an operator in the second. Both tokens carry that user's
  -- identifier, role and tenant, with the life that the method sets; the hash of the refresh token
  -- is added to the user, with the device of the method, and no other user has changed.
  pub log_in_checks :
      (dto dto' : AdminLoginDto) (s s' t t' : State env) (r q : AuthResult)
      → admin_login env crypto dto s ≡ (ok r, s')
      → operator_login env crypto dto' t ≡ (ok q, t')
      → ((u : Stored User) × IsAdmitted IsAdmin crypto.admin_expiry "admin-web" dto s r s' u)
        × ((v : Stored User) × IsAdmitted IsOperator crypto.operator_expiry "operator-web" dto' t q
              t' v)
  unfolding admin_login operator_login
  log_in_checks dto dto' s s' t t' r q h k =
      let admins = Role.admin ∷ Role.operator ∷ Role.super_admin ∷ [] in
      let (u, a, e, e') =
        >>=-eq-ok (check_login env crypto admins dto)
          (write_login env crypto crypto.admin_expiry "admin-web") s s' r h in
      let (v, b, f, f') =
        >>=-eq-ok (check_login env crypto (Role.operator ∷ []) dto')
          (write_login env crypto crypto.operator_expiry "operator-web") t t' q k in
      (
        (
          u,
          admitted IsAdmin admins crypto.admin_expiry "admin-web" dto s a s' u r one_of-IsAdmin e
              e',
        ),
        (
          v,
          admitted IsOperator (Role.operator ∷ []) crypto.operator_expiry "operator-web" dto' t b t'
              v q one_of-IsOperator f f',
        ),
      )
