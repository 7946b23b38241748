-- ===== src/Auth/Refresh.antt =====
-- `refreshAccessToken` of src/modules/auth/auth.service.ts.
use bus_booking_backend.Prelude.{ℕ, String, not, Option, none, List, find, str_eq, ◌≡◌, refl, arith}
use bus_booking_backend.Errors.{Error, unauthorized, not_found, unknown}
use bus_booking_backend.Store.{Stored, Result, ok, err}
use bus_booking_backend.Action.{Action, pure, throw_if, or_throw, gets, ◌>>=◌, ◌>>◌}
use bus_booking_backend.Documents.{User, RefreshToken}
use bus_booking_backend.World.{Env, State, load, update, cast_or_throw, users_of}
use bus_booking_backend.Auth.{
  JwtPayload, Crypto, pull_refresh_token, add_refresh_token, access_token, refresh_token,
}

-- `refreshTokenSchema`, without `deviceId`, which the service does not read
pub record RefreshTokenDto : Type 0 where
  pub user_id : String
  pub refresh_token : String

-- `TokenPair`
pub record TokenPair : Type 0 where
  pub access_token : String
  pub refresh_token : String

-- `refreshTokens` of a user that `findById` has loaded: the schema has `select: false` for the
-- field, and the query does not ask for it.
unfoldable pub selected_tokens : User → Option (List RefreshToken)
selected_tokens u = none

-- `verify` is `jwt.verify(token, env.jwt.secret)`: `none` where it throws.
module _ (env : Env) (crypto : Crypto) (verify : (now : ℕ) → String → Option JwtPayload) where
  unfoldable pub check_refresh : RefreshTokenDto → Action (State env) (Stored User)
  check_refresh dto = do
    now ← gets (λ s. s.now)
    payload ← or_throw (verify now dto.refresh_token) (unauthorized "Invalid refresh token")
    throw_if (not (str_eq payload.kind "refresh")) (unauthorized "Invalid token type")
    key ← cast_or_throw env dto.user_id
    found ← load (users_of env) key
    or_throw found (not_found "User")

  -- `user.refreshTokens.find(...)`, which throws where the field is undefined
  unfoldable pub find_token : String → Stored User → Action (State env) RefreshToken
  find_token token_hash user = do
    tokens ← or_throw (selected_tokens user.doc) (unknown "TypeError")
    or_throw (find (λ t. str_eq t.token_hash token_hash) tokens)
        (unauthorized "Refresh token not found or revoked")

  -- The old token is removed, and a new one takes its place.
  unfoldable pub rotate_token : String → Stored User → RefreshToken → Action (State env) TokenPair
  rotate_token token_hash user stored_token = do
    update (users_of env) user.id (pull_refresh_token token_hash)
    now ← gets (λ s. s.now)
    let fresh = refresh_token env crypto now user
    add_refresh_token env crypto user.id (crypto.sha256_hex fresh) stored_token.device_id
        stored_token.device_name
    pure (record {
      access_token = access_token env crypto now user crypto.access_expiry;
      refresh_token = fresh;
    })

  unfoldable pub refresh_access_token : RefreshTokenDto → Action (State env) TokenPair
  refresh_access_token dto = do
    user ← check_refresh dto
    stored_token ← find_token (crypto.sha256_hex dto.refresh_token) user
    rotate_token (crypto.sha256_hex dto.refresh_token) user stored_token

  check_refresh_unchanged : (dto : RefreshTokenDto) (s : State env) → (check_refresh dto s).1 ≡ s
  unfolding check_refresh
  check_refresh_unchanged dto s = ground arith

  find_token_fails :
      (token_hash : String) (user : Stored User) (s : State env)
      → find_token token_hash user s ≡ (err (unknown "TypeError"), s)
  unfolding find_token selected_tokens
  find_token_fails token_hash user s = refl

  ended :
      (r : Result (Stored User) × State env) (s : State env)
      → r.1 ≡ s
      → (f : Stored User → Action (State env) TokenPair)
      → ((user : Stored User) → f user s ≡ (err (unknown "TypeError"), s))
      → (e : Error) × (((λ _. r) >>= f) s ≡ (err e, s))
  ended (ok user, t) s same f h = (unknown "TypeError", rw same (h user))
  ended (err e, t) s same f h = (e, rw same refl)

  -- No refresh token is ever accepted: whatever the request and the stored users, the call throws
  -- and changes nothing.
  pub refresh_access_token_fails :
      (dto : RefreshTokenDto) (s : State env)
      → (e : Error) × (refresh_access_token dto s ≡ (err e, s))
  unfolding refresh_access_token
  refresh_access_token_fails dto s =
      let hash = crypto.sha256_hex dto.refresh_token in
      let rest : Stored User → Action (State env) TokenPair =
        λ user. find_token hash user >>= rotate_token hash user in
      ended (check_refresh dto s) s (check_refresh_unchanged dto s) rest
        (λ user. let failed = find_token_fails hash user s in ground arith)
