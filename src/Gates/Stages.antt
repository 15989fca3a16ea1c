-- ===== src/Gates/Stages.antt =====
-- verification_gate.py: nine stages in order, up to the first that fails.
use autonomous_ai_scout.Base.{
  String, ◌≡◌, refl, Bool, true, false, not, Option, none, some, List, [], ◌∷◌, ◌++◌, map, any,
  if◌then◌else◌, is_empty, strip, is_blank, ◌+++◌, ◌↔◌, arith, Bool-cases, inl, inr, All, ap, subst,
}
use mathlib.Core.Bool.{false≢true}
use mathlib.Core.List.{append-nil, append_assoc}

pub data GateStage : Type 0 where
  proposal validation tests security policy approval execution post_tests : GateStage
  result_verification : GateStage

abbrev pub ordered_stages : List GateStage
ordered_stages =
    proposal ∷ validation ∷ tests ∷ security ∷ policy ∷ approval ∷ execution ∷ post_tests
    ∷ result_verification ∷ []

-- What a callback does: it returns a Boolean or a text, or it raises an exception of a class.
pub data Outcome : Type 0 where
  verdict : Bool → Outcome
  message : String → Outcome
  raised : String → Outcome

pub record GateCheck : Type 0 where
  pub stage : GateStage
  pub passed : Bool
  pub detail : String

pub record GateResult : Type 0 where
  pub passed : Bool
  pub checks : List GateCheck
  pub stopped_at : Option GateStage
  pub reason : String
  pub execution_attempted : Bool

-- `value or default` on texts
abbrev or_default : String → String → String
or_default s default = if is_empty s then default else s

-- `_check`
unfoldable pub check : GateStage → Outcome → GateCheck
check stage (raised class) = record {
  stage = stage;
  passed = false;
  detail = "gate callback failed: " +++ class;
}
check stage (message text) = record {
  stage = stage;
  passed = not (is_blank text);
  detail = or_default (strip text) "failed";
}
check stage (verdict b) = record {
  stage = stage;
  passed = b;
  detail = if b then "passed" else "failed";
}

abbrev pub is_execution : GateStage → Bool
is_execution execution = true
is_execution _ = false

-- The loop of `run_verification_gate` over the stages left, behind the checks made.
unfoldable pub run_stages : (GateStage → Outcome) → List GateCheck → List GateStage → GateResult
run_stages callbacks checks [] = record {
  passed = true;
  checks = checks;
  stopped_at = none;
  reason = "all verification stages passed";
  execution_attempted = true;
}
run_stages callbacks checks (stage ∷ stages) =
    let made = check stage (callbacks stage) in
    let done = checks ++ made ∷ [] in
    let rest = run_stages callbacks done stages in
    if made.passed then rest else record {
      passed = false;
      checks = done;
      stopped_at = some stage;
      reason = made.detail;
      execution_attempted = any (λ (item : GateCheck). is_execution item.stage) done;
    }

unfoldable pub run_verification_gate : (GateStage → Outcome) → GateResult
run_verification_gate callbacks = run_stages callbacks [] ordered_stages

abbrev pub Passes : (GateStage → Outcome) → GateStage → Type 0
Passes callbacks stage = (check stage (callbacks stage)).passed ≡ true

check-stage : (stage : GateStage) (outcome : Outcome) → (check stage outcome).stage ≡ stage
unfolding check
check-stage stage (raised class) = refl
check-stage stage (message text) = refl
check-stage stage (verdict b) = refl

run_stages-passed :
    (callbacks : GateStage → Outcome) (checks : List GateCheck) (stages : List GateStage)
    → (run_stages callbacks checks stages).passed ≡ true
    → All (Passes callbacks) stages
unfolding run_stages check
run_stages-passed callbacks checks [] h = tt
run_stages-passed callbacks checks (stage ∷ stages) h =
    elim (Bool-cases (check stage (callbacks stage)).passed) [
      | inl e ↦ (
        e,
        run_stages-passed callbacks (checks ++ check stage (callbacks stage) ∷ []) stages
            (rw e at h),
      )
      | inr e ↦ absurd (false≢true (rw e at h))
    ]

run_stages-of_Passes :
    (callbacks : GateStage → Outcome) (checks : List GateCheck) (stages : List GateStage)
    → All (Passes callbacks) stages
    → run_stages callbacks checks stages ≡ record {
      passed = true;
      checks = checks ++ map (λ s. check s (callbacks s)) stages;
      stopped_at = none;
      reason = "all verification stages passed";
      execution_attempted = true;
    }
unfolding run_stages check
run_stages-of_Passes callbacks checks [] h = rw append-nil
run_stages-of_Passes callbacks checks (stage ∷ stages) h = rw (
  h.0,
  run_stages-of_Passes callbacks (checks ++ check stage (callbacks stage) ∷ []) stages h.1,
  append_assoc,
)

-- What a run does at the first stage that fails, with the stages before it all passed.
run_stages-stops :
    (callbacks : GateStage → Outcome) (checks : List GateCheck) (before after : List GateStage)
    (stage : GateStage)
    → All (Passes callbacks) before
    → (check stage (callbacks stage)).passed ≡ false
    → (run_stages callbacks checks (before ++ stage ∷ after)).checks
      ≡ checks ++ map (λ s. check s (callbacks s)) (before ++ stage ∷ [])
unfolding run_stages check
run_stages-stops callbacks checks [] after stage h fails = rw fails
run_stages-stops callbacks checks (s ∷ before) after stage h fails = rw (
  h.0,
  run_stages-stops callbacks (checks ++ check s (callbacks s) ∷ []) before after stage h.1 fails,
  append_assoc,
)

-- The execution is attempted only if the proposal, the validation, the tests, the security check,
-- the policy and the approval have all passed.
pub execution-guarded :
    (callbacks : GateStage → Outcome)
    → (run_verification_gate callbacks).execution_attempted ≡ true
    → All (Passes callbacks) (proposal ∷ validation ∷ tests ∷ security ∷ policy ∷ approval ∷ [])
unfolding run_verification_gate run_stages
execution-guarded callbacks h = ground (
  arith,
  check-stage proposal (callbacks proposal),
  check-stage validation (callbacks validation),
  check-stage tests (callbacks tests),
  check-stage security (callbacks security),
  check-stage policy (callbacks policy),
  check-stage approval (callbacks approval),
)

-- A callback that succeeds: it returns true or a text that is not blank.
pub data Succeeds : Outcome → Type 0 where
  agreed : Succeeds (verdict true)
  explained : (s : String) → is_blank s ≡ false → Succeeds (message s)

check-Succeeds :
    (stage : GateStage) (outcome : Outcome) → (check stage outcome).passed ≡ true → Succeeds outcome
unfolding check
check-Succeeds stage (verdict true) h = agreed
check-Succeeds stage (verdict false) h = absurd (false≢true h)
check-Succeeds stage (message s) h = explained s (ground arith)
check-Succeeds stage (raised class) h = absurd (false≢true h)

Succeeds-check :
    (stage : GateStage) (outcome : Outcome) → Succeeds outcome → (check stage outcome).passed ≡ true
unfolding check
Succeeds-check stage (verdict false) h = elim h [ ]
Succeeds-check stage (raised class) h = elim h [ ]
Succeeds-check stage (verdict true) agreed = refl
Succeeds-check stage (message text) (explained s h) = ground arith

All-check-Succeeds :
    (callbacks : GateStage → Outcome) (stages : List GateStage)
    → All (Passes callbacks) stages ↔ All (λ s. Succeeds (callbacks s)) stages
All-check-Succeeds callbacks [] = (λ h. h, λ h. h)
All-check-Succeeds callbacks (stage ∷ stages) =
    let rest = All-check-Succeeds callbacks stages in
    (
      λ h. (check-Succeeds stage (callbacks stage) h.0, rest.0 h.1),
      λ h. (Succeeds-check stage (callbacks stage) h.0, rest.1 h.1),
    )

-- The gate passes exactly if each callback of the nine stages returns true or a text that is not
-- blank, and so none of them raises.
pub gate-passed_iff :
    (callbacks : GateStage → Outcome)
    → ((run_verification_gate callbacks).passed ≡ true)
      ↔ All
          (λ s. Succeeds (callbacks s))
          (proposal ∷ validation ∷ tests ∷ security ∷ policy ∷ approval ∷ execution ∷ post_tests
            ∷ result_verification ∷ [])
unfolding run_verification_gate
gate-passed_iff callbacks =
    let same = All-check-Succeeds callbacks ordered_stages in
    (
      λ h. same.0 (run_stages-passed callbacks [] ordered_stages h),
      λ h.
          ap (λ (r : GateResult). r.passed)
            (run_stages-of_Passes callbacks [] ordered_stages (same.1 h)),
    )

-- The checks that are made are those of the stages up to and with the first that fails, in order.
pub gate-stops :
    (callbacks : GateStage → Outcome) (before after : List GateStage) (stage : GateStage)
    → before ++ stage ∷ after ≡ ordered_stages
    → All (Passes callbacks) before
    → (check stage (callbacks stage)).passed ≡ false
    → (run_verification_gate callbacks).checks
      ≡ map (λ s. check s (callbacks s)) (before ++ stage ∷ [])
unfolding run_verification_gate
gate-stops callbacks before after stage same h fails =
    subst
      (λ l.
        (run_stages callbacks [] l).checks
        ≡ map (λ s. check s (callbacks s)) (before ++ stage ∷ []))
      same (run_stages-stops callbacks [] before after stage h fails)
