-- ===== src/Adaptive/Accounts.antt =====
-- adaptive_execution.py: what a verified execution has done.
use autonomous_ai_scout.Base.{
  ℕ, suc, ◌+◌, String, Bool, true, ◌||◌, ◌&&◌, Option, List, [], ◌∷◌, ◌++◌, ◌≡◌, refl, ℤ, contains,
  if◌then◌else◌, text_eq, arith, last?, subst, Result,
}
use autonomous_ai_scout.Policy.Tool.{ToolSpec}
use autonomous_ai_scout.Policy.Consequence.{TrustLevel}
use autonomous_ai_scout.Adaptive.Observation.{
  observed-id, success-verified, is_verified, ExecutionResult, TaskStep, StepObservation,
  safe_observation, Event, observed, replan, Progress, log, observe,
}
use autonomous_ai_scout.Adaptive.Run.{
  finished, step_ids, AdaptiveExecutionResult, execute_adaptive_plan, TaskPlan, Replanner,
}
use autonomous_ai_scout.Adaptive.Kept.{Keeps, Ends, execute_adaptive_plan-Ends}

-- The ids of the steps that were observed to be verified, and of those that were replaced.
unfoldable pub verified_ids : List StepObservation → List String
verified_ids [] = []
verified_ids (o ∷ observations) =
    let rest = verified_ids observations in
    if o.success && text_eq o.verification_status "verified" then o.step_id ∷ rest else rest

unfoldable pub replaced_ids : List Event → List String
replaced_ids [] = []
replaced_ids (replan failed_step replacement_steps replan_count ∷ trail) =
    failed_step ∷ replaced_ids trail
replaced_ids (_ ∷ trail) = replaced_ids trail

contains-append :
    (x : String) (xs ys : List String) → contains x (xs ++ ys) ≡ (contains x xs || contains x ys)
contains-append x [] ys = refl
contains-append x (y ∷ xs) ys = ground (arith, contains-append x xs ys)

contains-map :
    (x : String) (steps rest : List TaskStep)
    → contains x (step_ids (steps ++ rest))
      ≡ (contains x (step_ids steps) || contains x (step_ids rest))
contains-map x [] rest = refl
contains-map x (step ∷ steps) rest = ground (arith, contains-map x steps rest)

verified_ids-append :
    (x : String) (os more : List StepObservation)
    → contains x (verified_ids (os ++ more))
      ≡ (contains x (verified_ids os) || contains x (verified_ids more))
unfolding verified_ids
verified_ids-append x [] more = refl
verified_ids-append x (o ∷ os) more = ground (arith, verified_ids-append x os more)

replaced_ids-append :
    (x : String) (events more : List Event)
    → contains x (replaced_ids (events ++ more))
      ≡ (contains x (replaced_ids events) || contains x (replaced_ids more))
unfolding replaced_ids
replaced_ids-append x [] more = refl
replaced_ids-append x (e ∷ events) more = ground (arith, replaced_ids-append x events more)

found_verified :
    (id : String) (o : StepObservation)
    → o.success ≡ true
    → text_eq o.verification_status "verified" ≡ true
    → contains id (verified_ids (o ∷ [])) ≡ text_eq o.step_id id
unfolding verified_ids
found_verified id o good status = ground (arith, good, status)

found_replaced :
    (id failed : String) (ids : List String) (n : ℕ)
    → contains id (replaced_ids (replan failed ids n ∷ [])) ≡ text_eq failed id
unfolding replaced_ids
found_replaced id failed ids n = ground arith

-- A step with this id was verified, or was replaced.
unfoldable pub accounted : Progress → String → Bool
unfolding verified_ids replaced_ids
accounted p id = contains id (verified_ids p.observations) || contains id (replaced_ids p.trail)

none_left-accounted :
    (rest : List TaskStep) (p : Progress) (id : String)
    → rest ≡ []
    → (accounted p id || contains id (step_ids rest)) ≡ true
    → accounted p id ≡ true
none_left-accounted [] p id e h = ground (arith, h)
none_left-accounted (step ∷ rest) p id e h = cc

-- Each step of the plan is accounted for, or is among those that are left.
Accounts : List TaskStep → List TaskStep → Progress → Type 0
Accounts steps rest p =
    (id : String)
    → contains id (step_ids steps) ≡ true
    → (accounted p id || contains id (step_ids rest)) ≡ true

module _ (get : String → Option ToolSpec)
    (execute : ℕ → TrustLevel → TaskStep → Result ExecutionResult) (replanner : Option Replanner)
    (explicitly_approved : Bool) where
  Keeps-Accounts :
      (steps : List TaskStep) → Keeps get execute replanner explicitly_approved (Accounts steps)
  unfolding Accounts accounted log observe
  Keeps-Accounts steps = record {
    logging = λ rest p event h id inside.
        ground (arith, h id inside, replaced_ids-append id p.trail (event ∷ []));
    observing = λ step rest p attempt child h id inside. ground (
      arith,
      h id inside,
      verified_ids-append id p.observations (safe_observation step child ∷ []),
      replaced_ids-append id p.trail (observed (safe_observation step child) (attempt + 1) ∷ []),
    );
    finishing = λ step rest p attempt child good h id inside. ground (
      arith,
      h id inside,
      good,
      success-verified step child (last? child.results),
      observed-id step child (last? child.results),
      found_verified id (safe_observation step child),
      verified_ids-append id p.observations (safe_observation step child ∷ []),
      replaced_ids-append id p.trail (observed (safe_observation step child) (attempt + 1) ∷ []),
    );
    replacing = λ step rest replacement p existing_ids e h id inside. ground (
      arith,
      h id inside,
      replaced_ids-append id p.trail
          (replan step.step_id (step_ids replacement) (suc p.replan_count) ∷ []),
      found_replaced id step.step_id (step_ids replacement) (suc p.replan_count),
      contains-map id replacement rest,
    );
  }

  -- Where an adaptive execution ends verified, each step of the plan was observed to succeed and be
  -- verified, or was replaced.
  pub execute_adaptive_plan-accounted :
      (plan : TaskPlan) (execution_id : String) (audit_verified : Bool)
      (max_retries_per_step max_replans : ℤ) (result : AdaptiveExecutionResult)
      → execute_adaptive_plan get execute replanner explicitly_approved plan execution_id
          audit_verified max_retries_per_step max_replans
        ≡ finished result
      → is_verified result.state ≡ true
      → (id : String) → contains id (step_ids plan.steps) ≡ true
      → accounted result.progress id ≡ true
  unfolding Ends Accounts
  execute_adaptive_plan-accounted plan execution_id audit_verified max_retries_per_step max_replans
        result h good id inside =
      let kept =
        execute_adaptive_plan-Ends get execute replanner explicitly_approved (Accounts plan.steps)
          (Keeps-Accounts plan.steps) plan execution_id audit_verified max_retries_per_step
          max_replans (λ i here. ground (arith, here)) in
      let (rest, accounts, none_left) =
        subst (Ends get execute replanner explicitly_approved (Accounts plan.steps)) h kept in
      none_left-accounted rest result.progress id (none_left good) (accounts id inside)
