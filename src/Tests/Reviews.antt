-- ===== src/Tests/Reviews.antt =====
-- The review of a driver at a concrete input.
use bus_booking_backend.Prelude.{◌≡◌, refl, true, none, some, [], ◌∷◌}
use bus_booking_backend.Store.{ObjectId, Stored, ok}
use bus_booking_backend.Documents.{Driver, VerificationStatus}
use bus_booking_backend.World.{State}
use bus_booking_backend.Review.{
  Decision, set_assigned, set_decided, with_verification, find_driver, assign_to, decide_on,
  assign_verification_manager, decide_verification,
}
use bus_booking_backend.Review.Decided.{IsStep}
use bus_booking_backend.Review.Outcome.{IsDecided, IsReasoned, decide_verification-IsDecided}
use bus_booking_backend.Tests.Memory.{lookup, change}
use bus_booking_backend.Tests.Sample.{env, start, alice, bob}

abbrev driver : VerificationStatus → Driver
driver status = record {
  full_name = "Dev";
  phone = "9222222222";
  license_number = "L1";
  license_expiry = 0;
  tenant_id = bob;
  created_by = bob;
  is_active = true;
  verification = record {
    status = status;
    assigned_manager_id = none;
    assigned_by = none;
    submitted_at = 0;
    assigned_at = none;
    due_at = none;
    decided_at = none;
    decided_by = none;
    documents = [];
    inspection_notes = none;
    inspected_at = none;
    decision_reason = none;
  };
}

abbrev with_driver : VerificationStatus → State env
with_driver status = record start { drivers = record { id = "d"; doc = driver status } ∷ [] }

abbrev after_assign : State env
after_assign =
    (assign_verification_manager env (λ a b. a) "d" alice bob 3
      (with_driver VerificationStatus.rejected)).1

abbrev assigned : Stored Driver
assigned = record {
  id = "d";
  doc = with_verification (set_assigned alice bob 0 0) (driver VerificationStatus.rejected);
}

assign_run :
    assign_verification_manager env
      (λ a b. a)
      "d"
      alice
      bob
      3
      (with_driver VerificationStatus.rejected)
    ≡ (ok assigned, after_assign)
unfolding assign_verification_manager find_driver assign_to lookup change
assign_run = refl

abbrev after_decide : State env
after_decide =
    (decide_verification env "d" Decision.to_suspended alice none (some "no papers")
      (with_driver VerificationStatus.assigned)).1

abbrev decided : Stored Driver
decided = record {
  id = "d";
  doc =
      with_verification (set_decided Decision.to_suspended alice none (some "no papers") 0)
        (driver VerificationStatus.assigned);
}

decide_run :
    decide_verification env "d" Decision.to_suspended alice none
      (some "no papers")
      (with_driver VerificationStatus.assigned)
    ≡ (ok decided, after_decide)
unfolding decide_verification find_driver decide_on lookup change
decide_run = refl

decide_verification-IsDecided_example :
    (old : Driver) × (decider : ObjectId) × (env.cast_id alice ≡ some decider)
    × IsStep env (with_driver VerificationStatus.assigned) "d" decided after_decide old
    × IsReasoned Decision.to_suspended (some "no papers")
    × IsDecided Decision.to_suspended decider none
        (some "no papers")
        0
        old.verification
        decided.doc.verification
decide_verification-IsDecided_example =
    decide_verification-IsDecided env "d" Decision.to_suspended alice none (some "no papers")
      (with_driver VerificationStatus.assigned) after_decide decided decide_run
