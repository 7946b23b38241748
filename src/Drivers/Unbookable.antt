-- ===== src/Drivers/Unbookable.antt =====
-- A new driver, and the test that keeps it off a bus (src/modules/driver/driver.service.ts).
use bus_booking_backend.Prelude.{
  ℕ, String, ◌≡◌, refl, Option, none, some, arith, false, Option-cases, inl, inr,
}
use bus_booking_backend.Errors.{Error, bad_request}
use bus_booking_backend.Store.{ok, err, Stored}
use bus_booking_backend.Store.Laws.{create_self}
use bus_booking_backend.Action.{>>=-eq-ok}
use bus_booking_backend.World.{Env, State}
use bus_booking_backend.Documents.{Driver, User, VerificationStatus}
use bus_booking_backend.Review.{assert_bookable}
use bus_booking_backend.Drivers.{
  CreateDriverDto, check_driver, write_driver, create_driver, check_manager, assign_manager,
  is_role_manager, is_manager,
}

module _ (env : Env) (trim : String → String) where
  write_driver_writes :
      (dto : CreateDriverDto) (by ten : String) (s s' : State env) (d : Stored Driver)
      → write_driver env trim dto by ten s ≡ (ok d, s')
      → (env.drivers.create s.drivers d.doc ≡ ok (d.id, s'.drivers))
        × (d.doc.verification.status ≡ VerificationStatus.pending)
  unfolding write_driver
  write_driver_writes dto by ten s s' d h = (ground arith, ground arith)

  refused :
      (s : State env) (d : Stored Driver)
      → env.cast_id d.id ≡ some d.id
      → env.drivers.find_by_id s.drivers d.id ≡ some d.doc
      → d.doc.verification.status ≡ VerificationStatus.pending
      → assert_bookable env d.id s
        ≡ (err (bad_request "Driver has not completed verification yet" none), s)
  unfolding assert_bookable
  refused s d cast found pending = ground arith

  -- A driver that `create` returns is stored, and `assertBookable` refuses it, if the new
  -- identifier casts to itself.
  pub create_driver_unbookable :
      (dto : CreateDriverDto) (by ten : String) (s s' : State env) (d : Stored Driver)
      → create_driver env trim dto by ten s ≡ (ok d, s')
      → env.cast_id d.id ≡ some d.id
      → (env.drivers.find_by_id s'.drivers d.id ≡ some d.doc)
        × (assert_bookable env d.id s'
            ≡ (err (bad_request "Driver has not completed verification yet" none), s'))
  unfolding create_driver
  create_driver_unbookable dto by ten s s' d h cast =
      let (_, t, _, h') =
        >>=-eq-ok (check_driver env trim dto ten) (λ _. write_driver env trim dto by ten) s s' d
          h in
      let (made, pending) = write_driver_writes dto by ten t s' d h' in
      let at = create_self env.drivers t.drivers s'.drivers d.id d.doc made in
      (at, refused s' d cast at pending)

  no_manager : (found : Option (Stored User)) → is_manager found ≡ false
  unfolding is_manager is_role_manager
  no_manager none = refl
  no_manager (some m) = refl

  check_manager_fails :
      (id : String) (s : State env) → (e : Error) × (check_manager env trim id s ≡ (err e, s))
  unfolding check_manager is_manager is_role_manager
  check_manager_fails id s = elim (Option-cases (env.cast_id id)) [
    | inl bad ↦ (Error.cast "_id" id, ground arith)
    | inr (key, good) ↦
        (bad_request "managerId must belong to a user with the manager role" none, ground arith)
  ]

  -- No manager can be assigned through `assignManager`: whatever the request and the stored users,
  -- the call throws and changes nothing.
  pub assign_manager_fails :
      (add_days : ℕ → ℕ → ℕ) (sla_days : ℕ) (driver_id manager_id by : String) (s : State env)
      → (e : Error) × (assign_manager env trim add_days sla_days driver_id manager_id by s
          ≡ (err e, s))
  unfolding assign_manager
  assign_manager_fails add_days sla_days driver_id manager_id by s =
      let (e, h) = check_manager_fails manager_id s in (e, ground arith)
