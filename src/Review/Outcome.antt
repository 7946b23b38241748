-- ===== src/Review/Outcome.antt =====
-- What a decision writes to the verification of a driver
-- (src/modules/verification/verification.service.ts).
use bus_booking_backend.Prelude.{
  ℕ, String, ◌≡◌, ◌≢◌, refl, sym, subst, true, ◌||◌, ◌⊎◌, inl, inr, Bool-cases, Option, none, some,
  str_eq, eq_iff, is_some,
}
use bus_booking_backend.Store.{ObjectId, Stored, ok}
use bus_booking_backend.Documents.{Driver, Verification, VerificationStatus}
use bus_booking_backend.World.{Env, State}
use bus_booking_backend.Review.{Decision, set_decided, given, is_approval, decide_verification}
use bus_booking_backend.Review.Decided.{IsStep, decide_verification_sets}

-- The status that a decision asks for.
abbrev pub IsOutcome : Decision → VerificationStatus → Type 0
IsOutcome Decision.to_active status = status ≡ VerificationStatus.active
IsOutcome Decision.to_rejected status = status ≡ VerificationStatus.rejected
IsOutcome Decision.to_suspended status = status ≡ VerificationStatus.suspended
IsOutcome Decision.to_inactive status = status ≡ VerificationStatus.inactive

-- A text that a request leaves out, or sends empty.
abbrev pub IsBlank : Option String → Type 0
IsBlank o = (o ≡ none) ⊎ (o ≡ some "")

-- Something that depends on whether a text is sent.
abbrev pub OnText : Option String → (left_out : Type 0) → (sent : String → Type 0) → Type 0
OnText o left_out sent = (IsBlank o × left_out) ⊎ ((t : String) × (o ≡ some t) × (t ≢ "") × sent t)

-- The verification after a decision.
pub record IsDecided (decision : Decision) (by : ObjectId) (notes reason : Option String) (now : ℕ)
    (old new : Verification) : Type 0 where
  pub status : IsOutcome decision new.status
  pub decided_by : new.decided_by ≡ some by
  pub decided_at : new.decided_at ≡ some now
  pub inspection :
      OnText notes
        ((new.inspection_notes ≡ old.inspection_notes) × (new.inspected_at ≡ old.inspected_at))
        (λ t. (new.inspection_notes ≡ some t) × (new.inspected_at ≡ some now))
  pub explanation :
      OnText reason (new.decision_reason ≡ old.decision_reason) (λ t. new.decision_reason ≡ some t)
  pub others : new ≡ record old {
    status = new.status;
    decided_by = new.decided_by;
    decided_at = new.decided_at;
    inspection_notes = new.inspection_notes;
    inspected_at = new.inspected_at;
    decision_reason = new.decision_reason;
  }

-- A decision that is an approval, or comes with a reason.
abbrev pub IsReasoned : Decision → Option String → Type 0
IsReasoned decision reason =
    (decision ≡ Decision.to_active) ⊎ ((t : String) × (reason ≡ some t) × (t ≢ ""))

given_cases : (o : Option String) → OnText o (given o ≡ none) (λ t. given o ≡ some t)
given_cases none = inl (inl refl, refl)
given_cases (some t) = elim (Bool-cases (str_eq t "")) [
  | inl blank ↦ inl (rw ((eq_iff t "").0 blank) (inr refl), rw blank refl)
  | inr sent ↦ inr (t, refl, (λ e. cc (rw e at sent)), rw sent refl)
]

outcome :
    (decision : Decision) (by : ObjectId) (notes reason : Option String) (now : ℕ)
    (v : Verification)
    → IsOutcome decision (set_decided decision by notes reason now v).status
outcome Decision.to_active by notes reason now v = refl
outcome Decision.to_rejected by notes reason now v = refl
outcome Decision.to_suspended by notes reason now v = refl
outcome Decision.to_inactive by notes reason now v = refl

set_decided-IsDecided :
    (decision : Decision) (by : ObjectId) (notes reason : Option String) (now : ℕ)
    (v : Verification)
    → IsDecided decision by notes reason now v (set_decided decision by notes reason now v)
set_decided-IsDecided decision by notes reason now v = record {
  status = outcome decision by notes reason now v;
  decided_by = refl;
  decided_at = refl;
  inspection = elim (given_cases notes) [
    | inl (blank, e) ↦ inl (blank, rw e (refl, refl))
    | inr (t, is, sent, e) ↦ inr (t, is, sent, rw e (refl, refl))
  ];
  explanation = elim (given_cases reason) [
    | inl (blank, e) ↦ inl (blank, rw e refl)
    | inr (t, is, sent, e) ↦ inr (t, is, sent, rw e refl)
  ];
  others = refl;
}

reasoned :
    (decision : Decision) (reason : Option String)
    → is_approval decision || is_some (given reason) ≡ true
    → IsReasoned decision reason
reasoned Decision.to_active reason h = inl refl
reasoned decision reason h = elim (given_cases reason) [
  | inl (blank, e) ↦ cc (rw e at h)
  | inr (t, is, sent, e) ↦ inr (t, is, sent)
]

module _ (env : Env) where
  -- A decision that returns was an approval or came with a reason that is not empty. The driver
  -- has the status that was decided, with the decider and the time; the notes, with the time of the
  -- inspection, and the reason are replaced where the request sends them, and otherwise kept.
  -- Nothing else of the driver and no other driver has changed.
  pub decide_verification-IsDecided :
      (id : String) (decision : Decision) (by : String) (notes reason : Option String)
      (s s' : State env) (d : Stored Driver)
      → decide_verification env id decision by notes reason s ≡ (ok d, s')
      → (old : Driver) × (decider : ObjectId) × (env.cast_id by ≡ some decider)
        × IsStep env s id d s' old
        × IsReasoned decision reason
        × IsDecided decision decider notes reason s.now old.verification d.doc.verification
  decide_verification-IsDecided id decision by notes reason s s' d h =
      let (old, decider, cast, k, r, v) =
        decide_verification_sets env id decision by notes reason s s' d h in
      (
        old,
        decider,
        cast,
        k,
        reasoned decision reason r,
        subst (IsDecided decision decider notes reason s.now old.verification) (sym v)
            (set_decided-IsDecided decision decider notes reason s.now old.verification),
      )
