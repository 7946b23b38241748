-- ===== src/Accounts/Closed.antt =====
-- A deactivated account (src/modules/user/user.service.ts, src/passport/jwt.strategy.ts), and the
-- review of a driver's account (src/modules/admin/admin.service.ts).
use bus_booking_backend.Prelude.{
  String, true, false, ◌≡◌, ◌≢◌, refl, sym, ap, ◌∙◌, none, some, arith, str_eq, eq_iff,
  if◌then◌else◌, some_of,
}
use bus_booking_backend.Store.{ObjectId, ok, Stored}
use bus_booking_backend.Store.Laws.{update_self, update_all}
use bus_booking_backend.Action.{>>=-eq-ok}
use bus_booking_backend.Documents.{User, Role}
use bus_booking_backend.World.{Env, State}
use bus_booking_backend.Auth.{JwtPayload, Crypto}
use bus_booking_backend.Auth.Registration.{authenticate}
use bus_booking_backend.Accounts.{
  deactivate_user, switch_user, set_active, check_review, write_review, review_driver, set_reviewed,
  ReviewDto, may_review,
}

module _ (env : Env) where
  -- An account was switched off.
  record IsOff (s : State env) (id by : String) (s' : State env) (key : ObjectId) (old : User)
      : Type 0 where
    pub other : id ≢ by
    pub cast : env.cast_id id ≡ some key
    pub found : env.users.find_by_id s.users key ≡ some old
    pub user_write : env.users.update_by_id s.users key (set_active false) ≡ ok s'.users

  deactivate_user-IsOff :
      (id by : String) (s s' : State env) (x : Unit {0})
      → deactivate_user env id by s ≡ (ok x, s')
      → (key : ObjectId) × (old : User) × IsOff s id by s' key old
  unfolding deactivate_user switch_user
  deactivate_user-IsOff id by s s' x h =
      let (key, cast) = some_of (env.cast_id id) (λ e. ground arith) in
      let (old, found) = some_of (env.users.find_by_id s.users key) (λ e. ground arith) in
      (key, old, ground (arith, eq_iff id by))

  inactive :
      (crypto : Crypto) (payload : JwtPayload) (s : State env) (key : ObjectId) (u : User)
      → env.cast_id payload.sub ≡ some key
      → env.users.find_by_id s.users key ≡ some u
      → u.is_active ≡ false
      → authenticate env crypto payload s ≡ (ok none, s)
  unfolding authenticate
  inactive crypto payload s key u cast found off = ground arith

  -- A call of `deactivateUser` that returns names its user by another text than the caller's own
  -- identifier. After it, and in every later state that still stores this user as the call left
  -- it, no token whose subject is this user's identifier authenticates a request; what the call
  -- changed is the activity of this user, and nothing of another user.
  pub deactivate_user_locks_out :
      (crypto : Crypto) (payload : JwtPayload) (id by : String) (s s' t : State env) (x : Unit {0})
      → deactivate_user env id by s ≡ (ok x, s')
      → env.cast_id payload.sub ≡ env.cast_id id
      → ((j : ObjectId)
          → env.cast_id id ≡ some j
          → env.users.find_by_id t.users j ≡ env.users.find_by_id s'.users j)
      → (key : ObjectId) × (old : User) × (id ≢ by)
        × (env.cast_id id ≡ some key)
        × (env.users.find_by_id s.users key ≡ some old)
        × ((j : ObjectId)
            → env.users.find_by_id s'.users j ≡ (
                if str_eq key j
                then some (record old { is_active = false })
                else env.users.find_by_id s.users j))
        × (authenticate env crypto payload s' ≡ (ok none, s'))
        × (authenticate env crypto payload t ≡ (ok none, t))
  deactivate_user_locks_out crypto payload id by s s' t x h named kept =
      let (key, old, k) = deactivate_user-IsOff id by s s' x h in
      let off =
        update_self env.users s.users s'.users key (set_active false) old k.user_write k.found in
      (
        key,
        old,
        k.other,
        k.cast,
        k.found,
        update_all env.users s.users s'.users key (set_active false) old k.user_write k.found,
        inactive crypto payload s' key (set_active false old) (named ∙ k.cast) off refl,
        inactive crypto payload t key (set_active false old) (named ∙ k.cast)
            (kept key k.cast ∙ off) refl,
      )

  check_review_unchanged :
      (dto : ReviewDto) (by : String) (s : State env) → (check_review env dto by s).1 ≡ s
  unfolding check_review
  check_review_unchanged dto by s = ground arith

  pub record MayReview (s : State env) (dto : ReviewDto) (by : String)
      (c : Stored User × Stored User) : Type 0 where
    pub reviewer : env.users.find_by_id s.users c.0.id ≡ some c.0.doc
    pub reviewer_cast : env.cast_id by ≡ some c.0.id
    pub allowed : may_review c.0.doc.role ≡ true
    pub user_cast : env.cast_id dto.user_id ≡ some c.1.id
    pub found : env.users.find_by_id s.users c.1.id ≡ some c.1.doc
    pub is_driver : c.1.doc.role ≡ Role.driver

  check_review-MayReview :
      (dto : ReviewDto) (by : String) (s : State env) (c : Stored User × Stored User)
      → (check_review env dto by s).0 ≡ ok c
      → MayReview s dto by c
  unfolding check_review
  check_review-MayReview dto by s c h = ground arith

  write_review_writes :
      (dto : ReviewDto) (c : Stored User × Stored User) (s s' : State env) (message : String)
      → write_review env dto c s ≡ (ok message, s')
      → env.users.update_by_id s.users c.1.id (set_reviewed dto.status c.0.id) ≡ ok s'.users
  unfolding write_review
  write_review_writes dto (reviewer, user) s s' message h = ground arith

  -- A review that returns was made by an admin, a super admin or a manager, of an account with the
  -- role of a driver, which is now verified exactly if it is approved; no other account has
  -- changed.
  pub review_driver-reviews :
      (dto : ReviewDto) (by message : String) (s s' : State env)
      → review_driver env dto by s ≡ (ok message, s')
      → (c : Stored User × Stored User) × MayReview s dto by c
        × ((j : ObjectId)
            → env.users.find_by_id s'.users j ≡ (
                if str_eq c.1.id j
                then some (set_reviewed dto.status c.0.id c.1.doc)
                else env.users.find_by_id s.users j))
  unfolding review_driver
  review_driver-reviews dto by message s s' h =
      let (c, t, e, h') =
        >>=-eq-ok (check_review env dto by) (write_review env dto) s s' message h in
      let same : t ≡ s = sym (ap (λ r. r.1) e) ∙ check_review_unchanged dto by s in
      let k = check_review-MayReview dto by s c (ap (λ r. r.0) e) in
      let w = write_review_writes dto c s s' message (rw same at h') in
      (
        c,
        k,
        update_all env.users s.users s'.users c.1.id (set_reviewed dto.status c.0.id) c.1.doc w
            k.found,
      )
