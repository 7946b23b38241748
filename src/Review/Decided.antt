-- ===== src/Review/Decided.antt =====
-- The review of a driver (src/modules/verification/verification.service.ts).
use bus_booking_backend.Prelude.{
  ℕ, String, ◌≡◌, refl, ap, true, ◌||◌, ◌⊎◌, Option, none, some, arith, str_eq, str_eq_refl,
  if◌then◌else◌, is_some, some_of,
}
use bus_booking_backend.Errors.{bad_request}
use bus_booking_backend.Store.{ObjectId, Stored, ok, err}
use bus_booking_backend.Store.Laws.{update_all}
use bus_booking_backend.Documents.{Driver, Verification, VerificationStatus}
use bus_booking_backend.Action.{>>=-eq-ok}
use bus_booking_backend.World.{Env, State}
use bus_booking_backend.Review.{
  Decision, decided_status, is_approval, given, set_assigned, set_decided, with_verification,
  find_driver, assign_to, decide_on, assign_verification_manager, decide_verification,
  assert_bookable,
}

module _ (env : Env) where
  -- A step of the review of one driver, with everything else as it was.
  pub record IsStep (s : State env) (id : String) (d : Stored Driver) (s' : State env)
      (old : Driver) : Type 0 where
    pub cast : env.cast_id id ≡ some d.id
    pub found : env.drivers.find_by_id s.drivers d.id ≡ some old
    pub driver : d.doc ≡ record old { verification = d.doc.verification }
    pub drivers :
        (j : ObjectId)
        → env.drivers.find_by_id s'.drivers j
          ≡ (if str_eq d.id j then some d.doc else env.drivers.find_by_id s.drivers j)

  record IsWritten (s : State env) (id : String) (f : Verification → Verification)
      (d : Stored Driver) (s' : State env) (old : Driver) : Type 0 where
    pub cast : env.cast_id id ≡ some d.id
    pub found : env.drivers.find_by_id s.drivers d.id ≡ some old
    pub doc : d.doc ≡ with_verification f old
    pub driver_write : env.drivers.update_by_id s.drivers d.id (with_verification f) ≡ ok s'.drivers

  step :
      (s s' : State env) (id : String) (f : Verification → Verification) (d : Stored Driver)
      (old : Driver)
      → IsWritten s id f d s' old
      → IsStep s id d s' old
  step s s' id f d old w = record {
    cast = w.cast;
    found = w.found;
    driver = rw w.doc refl;
    drivers = λ j. rw w.doc (
        update_all env.drivers s.drivers s'.drivers d.id (with_verification f) old w.driver_write
          w.found j);
  }

  find_driver_found :
      (id : String) (s t : State env) (d : Stored Driver)
      → find_driver env id s ≡ (ok d, t)
      → (env.cast_id id ≡ some d.id)
        × (env.drivers.find_by_id s.drivers d.id ≡ some d.doc)
        × (t ≡ s)
  unfolding find_driver
  find_driver_found id s t d h = ground arith

  written :
      (s s' : State env) (id : String) (f : Verification → Verification) (c d : Stored Driver)
      → (env.cast_id id ≡ some c.id) × (env.drivers.find_by_id s.drivers c.id ≡ some c.doc)
      → d ≡ record c { doc = with_verification f c.doc }
      → env.drivers.update_by_id s.drivers c.id (with_verification f) ≡ ok s'.drivers
      → IsWritten s id f d s' c.doc
  written s s' id f c d (cast, found) same w = record {
    cast = rw same cast;
    found = rw same found;
    doc = ap (λ r. r.doc) same;
    driver_write = rw same w;
  }

  assign_to_written :
      (add_days : ℕ → ℕ → ℕ) (m by : String) (days : ℕ) (s s' : State env) (c d : Stored Driver)
      → assign_to env add_days m by days c s ≡ (ok d, s')
      → (manager assigner : ObjectId) × ((c.doc.verification.status ≡ VerificationStatus.pending)
          ⊎ (c.doc.verification.status ≡ VerificationStatus.rejected))
        × (d ≡ record c {
          doc =
              with_verification
                (set_assigned manager assigner s.now
                  (add_days c.doc.verification.submitted_at days))
                c.doc;
        })
        × (env.drivers.update_by_id s.drivers c.id (
              with_verification (
                set_assigned manager assigner s.now
                  (add_days c.doc.verification.submitted_at days)))
            ≡ ok s'.drivers)
  unfolding assign_to
  assign_to_written add_days m by days s s' c d h =
      let (manager, _) = some_of (env.cast_id m) (λ e. ground arith) in
      let (assigner, _) = some_of (env.cast_id by) (λ e. ground arith) in
      (manager, assigner, ground arith, ground arith, ground arith)

  -- An assignment that returns found the driver pending or rejected. The driver is now assigned
  -- to the manager, due after the given number of days from the submission, and nothing else of
  -- it and no other driver has changed.
  pub assign_verification_manager-IsStep :
      (add_days : ℕ → ℕ → ℕ) (id m by : String) (days : ℕ) (s s' : State env) (d : Stored Driver)
      → assign_verification_manager env add_days id m by days s ≡ (ok d, s')
      → (old : Driver) × (manager assigner : ObjectId) × IsStep s id d s' old
        × ((old.verification.status ≡ VerificationStatus.pending)
            ⊎ (old.verification.status ≡ VerificationStatus.rejected))
        × (d.doc.verification
            ≡ set_assigned manager assigner s.now
                (add_days old.verification.submitted_at days)
                old.verification)
  unfolding assign_verification_manager
  assign_verification_manager-IsStep add_days id m by days s s' d h =
      let (c, t, e, h') =
        >>=-eq-ok (find_driver env id) (assign_to env add_days m by days) s s' d h in
      let (cast, found, same) = find_driver_found id s t c e in
      let (manager, assigner, from, result, w) =
        assign_to_written add_days m by days s s' c d (rw same at h') in
      (
        c.doc,
        manager,
        assigner,
        step s s' id
            (set_assigned manager assigner s.now (add_days c.doc.verification.submitted_at days)) d
            c.doc
            (written s s' id
              (set_assigned manager assigner s.now (add_days c.doc.verification.submitted_at days))
              c d (cast, found) result w),
        from,
        ap (λ r. r.doc.verification) result,
      )

  decide_on_written :
      (decision : Decision) (by : String) (notes reason : Option String) (s s' : State env)
      (c d : Stored Driver)
      → decide_on env decision by notes reason c s ≡ (ok d, s')
      → (decider : ObjectId) × (env.cast_id by ≡ some decider)
        × (is_approval decision || is_some (given reason) ≡ true)
        × (d ≡ record c {
          doc = with_verification (set_decided decision decider notes reason s.now) c.doc;
        })
        × (env.drivers.update_by_id s.drivers c.id
              (with_verification (set_decided decision decider notes reason s.now))
            ≡ ok s'.drivers)
  unfolding decide_on
  decide_on_written decision by notes reason s s' c d h =
      let (decider, cast) = some_of (env.cast_id by) (λ e. ground arith) in
      (decider, cast, ground arith, ground arith, ground arith)

  pub decide_verification_sets :
      (id : String) (decision : Decision) (by : String) (notes reason : Option String)
      (s s' : State env) (d : Stored Driver)
      → decide_verification env id decision by notes reason s ≡ (ok d, s')
      → (old : Driver) × (decider : ObjectId) × (env.cast_id by ≡ some decider)
        × IsStep s id d s' old
        × (is_approval decision || is_some (given reason) ≡ true)
        × (d.doc.verification ≡ set_decided decision decider notes reason s.now old.verification)
  unfolding decide_verification
  decide_verification_sets id decision by notes reason s s' d h =
      let (c, t, e, h') =
        >>=-eq-ok (find_driver env id) (decide_on env decision by notes reason) s s' d h in
      let (cast, found, same) = find_driver_found id s t c e in
      let (decider, caster, reasoned, result, w) =
        decide_on_written decision by notes reason s s' c d (rw same at h') in
      (
        c.doc,
        decider,
        caster,
        step s s' id (set_decided decision decider notes reason s.now) d c.doc (
            written s s' id (set_decided decision decider notes reason s.now) c d (cast, found)
              result w),
        reasoned,
        ap (λ r. r.doc.verification) result,
      )

  bookable :
      (id : String) (decision : Decision) (s : State env) (d : Stored Driver)
      → env.cast_id id ≡ some d.id
      → env.drivers.find_by_id s.drivers d.id ≡ some d.doc
      → d.doc.is_active ≡ true
      → d.doc.verification.status ≡ decided_status decision
      → assert_bookable env id s ≡ (
        if is_approval decision
            then ok tt
            else err (bad_request "Driver has not completed verification yet" none),
        s,
      )
  unfolding assert_bookable
  bookable id Decision.to_active s d cast found usable status = ground arith
  bookable id Decision.to_rejected s d cast found usable status = ground arith
  bookable id Decision.to_suspended s d cast found usable status = ground arith
  bookable id Decision.to_inactive s d cast found usable status = ground arith

  -- After a decision on an active driver account, the driver can be attached to a bus if the
  -- decision was an approval, and otherwise not.
  pub decide_verification_bookable :
      (id : String) (decision : Decision) (by : String) (notes reason : Option String)
      (s s' : State env) (d : Stored Driver)
      → decide_verification env id decision by notes reason s ≡ (ok d, s')
      → d.doc.is_active ≡ true
      → assert_bookable env id s' ≡ (
        if is_approval decision
            then ok tt
            else err (bad_request "Driver has not completed verification yet" none),
        s',
      )
  decide_verification_bookable id decision by notes reason s s' d h usable =
      let (old, decider, _, k, _, v) =
        decide_verification_sets id decision by notes reason s s' d h in
      let status : d.doc.verification.status ≡ decided_status decision = ap (λ w. w.status) v in
      let stored : env.drivers.find_by_id s'.drivers d.id ≡ some d.doc =
        rw (k.drivers d.id, str_eq_refl d.id) in
      bookable id decision s' d k.cast stored usable status
