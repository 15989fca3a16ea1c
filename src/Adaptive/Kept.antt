-- ===== src/Adaptive/Kept.antt =====
-- adaptive_execution.py: what each attempt, each record and each replacement keeps holds of the
-- progress at the end.
use autonomous_ai_scout.Base.{
  ℕ, zero, suc, ◌+◌, String, Bool, true, false, ◌&&◌, Option, none, some, List, [], ◌∷◌, ◌++◌, ◌≡◌,
  refl, last?, leb, length, is_nil, inl, inr, Bool-cases, arith, ℤ, min, clamp_at_zero, is_blank,
  ◌*◌, Result, ok, err,
}
use autonomous_ai_scout.Policy.Tool.{ToolSpec}
use autonomous_ai_scout.Policy.Consequence.{TrustLevel}
use autonomous_ai_scout.Adaptive.Observation.{
  ExecutionState, is_verified, is_final, ExecutionResult, TaskStep, safe_observation, Event,
  execution_started, task_completed, replan, Progress, log, observe,
}
use autonomous_ai_scout.Adaptive.Run.{
  Execution, finished, out_of_fuel, Attempted, completed, stopped, exhausted, step_ids, trust_of,
  note_retry, attempt_step, check_replacement, check_tools, check_ids, replace_step, adapt,
  behind_step, run_steps, Refusal, TaskPlan, nothing_done, execute_adaptive_plan, Replanner, raised,
  interrupted, behind_call, offered,
}

module _ (get : String → Option ToolSpec)
    (execute : ℕ → TrustLevel → TaskStep → Result ExecutionResult) (replanner : Option Replanner)
    (explicitly_approved : Bool) where
  -- The steps that are left and the progress stay in a relation.
  pub record Keeps (Inv : List TaskStep → Progress → Type 0) : Type 0 where
    pub logging :
        (rest : List TaskStep) (p : Progress) (event : Event) → Inv rest p → Inv rest (log event p)
    pub observing :
        (step : TaskStep) (rest : List TaskStep) (p : Progress) (attempt : ℕ)
        (child : ExecutionResult)
        → Inv (step ∷ rest) p
        → Inv (step ∷ rest) (observe step attempt child p)
    pub finishing :
        (step : TaskStep) (rest : List TaskStep) (p : Progress) (attempt : ℕ)
        (child : ExecutionResult)
        → (safe_observation step child).success ≡ true
        → Inv (step ∷ rest) p
        → Inv rest (observe step attempt child p)
    pub replacing :
        (step : TaskStep) (rest replacement : List TaskStep) (p : Progress)
        (existing_ids : List String)
        → check_replacement get execute replanner explicitly_approved existing_ids step.step_id
            replacement
          ≡ none
        → Inv (step ∷ rest) p
        → Inv (replacement ++ rest) (
            log
              (replan step.step_id (step_ids replacement) (suc p.replan_count))
              (record p { replan_count = suc p.replan_count }))

  -- The relation at the end, where no step is left if the execution is verified.
  unfoldable pub Ends : (List TaskStep → Progress → Type 0) → Execution → Type 0
  Ends Inv (finished result) =
      (rest : List TaskStep) × Inv rest result.progress
      × (is_verified result.state ≡ true → rest ≡ [])
  Ends Inv (raised e p) = Unit
  Ends Inv out_of_fuel = Unit

  After : (List TaskStep → Progress → Type 0) → TaskStep → List TaskStep → Attempted → Type 0
  After Inv step rest (completed p) = Inv rest p
  After Inv step rest (stopped state reason p) = Inv (step ∷ rest) p × (is_verified state ≡ false)
  After Inv step rest (exhausted p) = Inv (step ∷ rest) p
  After Inv step rest (interrupted e p) = Unit

  tools-unverified :
      (candidates : List TaskStep) (state : ExecutionState) (reason audit_reason : String)
      → check_tools get execute replanner explicitly_approved candidates
        ≡ some (state, reason, audit_reason)
      → is_verified state ≡ false
  unfolding check_tools
  tools-unverified [] state reason audit_reason h = ground (arith, h)
  tools-unverified (candidate ∷ candidates) state reason audit_reason h =
      ground (arith, h, tools-unverified candidates state reason audit_reason)

  refusal-unverified :
      (existing_ids : List String) (step_id : String) (replacement : List TaskStep)
      (state : ExecutionState) (reason audit_reason : String)
      → check_replacement get execute replanner explicitly_approved existing_ids step_id replacement
        ≡ some (state, reason, audit_reason)
      → is_verified state ≡ false
  unfolding check_replacement check_ids
  refusal-unverified existing_ids step_id replacement state reason audit_reason h =
      ground (arith, h, tools-unverified replacement state reason audit_reason)

  module _ (Inv : List TaskStep → Progress → Type 0) (keeps : Keeps Inv) where
    noted :
        (left : ℕ) (step : TaskStep) (rest : List TaskStep) (attempt : ℕ) (p : Progress)
        → Inv (step ∷ rest) p
        → Inv (step ∷ rest) (note_retry left step attempt p)
    noted zero step rest attempt p h = h
    noted (suc left) step rest attempt p h = keeps.logging (step ∷ rest) p _ h

    attempts-keep :
        (left attempt : ℕ) (step : TaskStep) (rest : List TaskStep) (p : Progress)
        → Inv (step ∷ rest) p
        → After Inv step rest
            (attempt_step get execute replanner explicitly_approved left attempt step p)
    unfolding attempt_step After
    attempts-keep zero attempt step rest p h = h
    attempts-keep (suc left) attempt step rest p h =
        called (execute (length p.observations) (trust_of p.replan_count) step)
          (λ q k. attempts-keep left (suc attempt) step rest q k)
      where
        called :
            (answer : Result ExecutionResult)
            → ((q : Progress)
                → Inv (step ∷ rest) q
                → After Inv step rest (
                    attempt_step get execute replanner explicitly_approved left
                      (suc attempt)
                      step
                      q))
            → After Inv step rest (
                behind_call get execute replanner explicitly_approved
                  (attempt_step get execute replanner explicitly_approved left (suc attempt) step)
                  left
                  attempt
                  step
                  p
                  answer)
        called (err e) again = tt
        called (ok child) again =
            let seen = observe step attempt child p in
            elim (Bool-cases (is_verified child.state && (safe_observation step child).success)) [
              | inl e ↦ rw e (
                  keeps.logging rest seen _
                    (keeps.finishing step rest p attempt child (ground (arith, e)) h))
              | inr e ↦ rw e elim (Bool-cases (is_final child.state)) [
                | inl f ↦ rw f (
                  keeps.logging (step ∷ rest) seen _ (keeps.observing step rest p attempt child h),
                  ground (arith, f),
                )
                | inr f ↦ rw f (
                    again (note_retry left step attempt seen) (
                      noted left step rest attempt seen
                        (keeps.observing step rest p attempt child h)))
              ]
            ]

    abbrev check : List String → String → List TaskStep → Refusal
    check = check_replacement get execute replanner explicitly_approved

    replace-Ends :
        (again : List TaskStep → Progress → Execution) (replacement : List TaskStep)
        (step : TaskStep) (rest : List TaskStep) (p : Progress) (existing_ids : List String)
        (refusal : Refusal)
        → ((steps : List TaskStep) (p1 : Progress) → Inv steps p1 → Ends Inv (again steps p1))
        → check existing_ids step.step_id replacement ≡ refusal
        → Inv (step ∷ rest) p
        → Ends Inv (
            replace_step get execute replanner explicitly_approved again replacement step rest p
              refusal)
    unfolding replace_step Ends
    replace-Ends again replacement step rest p existing_ids (some (state, reason, audit_reason)) ih
          e h =
        (
          step ∷ rest,
          keeps.logging (step ∷ rest) p _ h,
          λ good. ground (
            arith,
            good,
            refusal-unverified existing_ids step.step_id replacement state reason audit_reason e,
          ),
        )
    replace-Ends again replacement step rest p existing_ids none ih e h =
        ih (replacement ++ rest) _ (keeps.replacing step rest replacement p existing_ids e h)

    offered-Ends :
        (again : List TaskStep → Progress → Execution) (existing_ids : List String)
        (step : TaskStep) (rest : List TaskStep) (p : Progress)
        (answer : Result (Option (List TaskStep)))
        → ((steps : List TaskStep) (p1 : Progress) → Inv steps p1 → Ends Inv (again steps p1))
        → Inv (step ∷ rest) p
        → Ends Inv (
            offered get execute replanner explicitly_approved again existing_ids step rest p answer)
    unfolding offered Ends
    offered-Ends again existing_ids step rest p (err e) ih h = tt
    offered-Ends again existing_ids step rest p (ok none) ih h = tt
    offered-Ends again existing_ids step rest p (ok (some replacement)) ih h =
        elim (Bool-cases (is_nil replacement)) [
          | inl f ↦ rw f (step ∷ rest, keeps.logging (step ∷ rest) p _ h, λ good. cc)
          | inr f ↦ rw f (
              replace-Ends again replacement step rest p existing_ids
                (check existing_ids step.step_id replacement) ih refl h)
        ]

    adapt-Ends :
        (again : List TaskStep → Progress → Execution) (replans : ℕ) (existing_ids : List String)
        (step : TaskStep) (rest : List TaskStep) (p : Progress) (asked : Option Replanner)
        → ((steps : List TaskStep) (p1 : Progress) → Inv steps p1 → Ends Inv (again steps p1))
        → Inv (step ∷ rest) p
        → Ends Inv (
            adapt get execute replanner explicitly_approved again replans existing_ids step rest p
              asked)
    unfolding adapt Ends
    adapt-Ends again replans existing_ids step rest p none ih h =
        (step ∷ rest, keeps.logging (step ∷ rest) p _ h, λ good. cc)
    adapt-Ends again replans existing_ids step rest p (some ask) ih h =
        let answer = ask p.replan_count (last? p.observations) rest in
        elim (Bool-cases (leb replans p.replan_count)) [
          | inl e ↦ rw e (step ∷ rest, keeps.logging (step ∷ rest) p _ h, λ good. cc)
          | inr e ↦ rw e (offered-Ends again existing_ids step rest p answer ih h)
        ]

    behind-Ends :
        (go_on : Progress → Execution) (again : List TaskStep → Progress → Execution) (replans : ℕ)
        (existing_ids : List String) (step : TaskStep) (rest : List TaskStep)
        (attempted : Attempted)
        → ((p1 : Progress) → Inv rest p1 → Ends Inv (go_on p1))
        → ((steps : List TaskStep) (p1 : Progress) → Inv steps p1 → Ends Inv (again steps p1))
        → After Inv step rest attempted
        → Ends Inv (
            behind_step get execute replanner explicitly_approved go_on again replans existing_ids
              step rest attempted)
    unfolding behind_step After Ends
    behind-Ends go_on again replans existing_ids step rest (completed p) next ih h =
        next _ (keeps.logging rest p _ h)
    behind-Ends go_on again replans existing_ids step rest (stopped state reason p) next ih h =
        (step ∷ rest, h.0, λ good. ground (arith, good, h.1))
    behind-Ends go_on again replans existing_ids step rest (exhausted p) next ih h =
        adapt-Ends again replans existing_ids step rest p replanner ih h
    behind-Ends go_on again replans existing_ids step rest (interrupted e p) next ih h = tt

    pub run_steps-Ends :
        (fuel retries replans : ℕ) (before rest : List TaskStep) (p : Progress)
        → Inv rest p
        → Ends Inv
            (run_steps get execute replanner explicitly_approved fuel retries replans before rest p)
    unfolding run_steps Ends
    run_steps-Ends fuel retries replans before [] p h =
        ([], keeps.logging [] p task_completed h, λ good. refl)
    run_steps-Ends zero retries replans before (step ∷ rest) p h = tt
    run_steps-Ends (suc fuel) retries replans before (step ∷ rest) p h =
        behind-Ends _ _ replans (step_ids (before ++ step ∷ rest)) step rest _
          (run_steps-Ends fuel retries replans (before ++ step ∷ []) rest)
          (run_steps-Ends fuel retries replans before) (attempts-keep (suc retries) 0 step rest p h)

    pub execute_adaptive_plan-Ends :
        (plan : TaskPlan) (execution_id : String) (audit_verified : Bool)
        (max_retries_per_step max_replans : ℤ)
        → Inv plan.steps nothing_done
        → Ends Inv (
            execute_adaptive_plan get execute replanner explicitly_approved plan execution_id
              audit_verified max_retries_per_step max_replans)
    unfolding execute_adaptive_plan Ends
    execute_adaptive_plan-Ends plan execution_id audit_verified max_retries_per_step max_replans h =
        let replans = min (clamp_at_zero max_replans) 2 in
        elim (Bool-cases (is_blank execution_id)) [
          | inl e ↦ rw e (plan.steps, h, λ good. cc)
          | inr e ↦ rw e elim (Bool-cases plan.executable) [
            | inr f ↦ rw f (plan.steps, h, λ good. cc)
            | inl f ↦ rw f elim (Bool-cases audit_verified) [
              | inr g ↦ rw g (plan.steps, h, λ good. cc)
              | inl g ↦ rw g (
                  run_steps-Ends (length plan.steps + 12 * replans)
                    (min (clamp_at_zero max_retries_per_step) 2) replans [] plan.steps
                    (log execution_started nothing_done)
                    (keeps.logging plan.steps nothing_done execution_started h))
            ]
          ]
        ]
