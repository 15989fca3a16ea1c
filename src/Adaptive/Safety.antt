-- ===== src/Adaptive/Safety.antt =====
-- adaptive_execution.py: which tools an execution runs.
use autonomous_ai_scout.Base.{
  ℕ, String, Bool, true, false, ◌||◌, ◌&&◌, Option, none, some, List, [], ◌∷◌, ◌++◌, ◌≡◌, refl, ℤ,
  map, all, contains, text_eq_iff, arith, last?, subst, ap, Result,
}
use autonomous_ai_scout.Policy.Tool.{ToolSpec, is_read_only}
use autonomous_ai_scout.Policy.Consequence.{TrustLevel}
use autonomous_ai_scout.Adaptive.Observation.{
  observed-id, ExecutionResult, TaskStep, StepObservation, safe_observation, Progress, log, observe,
}
use autonomous_ai_scout.Adaptive.Run.{
  finished, check_replacement, check_tools, AdaptiveExecutionResult, execute_adaptive_plan,
  TaskPlan, Replanner,
}
use autonomous_ai_scout.Adaptive.Kept.{Keeps, Ends, execute_adaptive_plan-Ends}

all-append :
    {A : Type 0} (p : A → Bool) (xs ys : List A) → all p (xs ++ ys) ≡ (all p xs && all p ys)
all-append p [] ys = refl
all-append p (x ∷ xs) ys = ground (arith, all-append p xs ys)

-- Whether a tool may be run: all may where the execution is approved, and else those of the plan and
-- those that the registry calls read-only.
abbrev reads_only : Option ToolSpec → Bool
reads_only none = false
reads_only (some tool) = is_read_only tool.read_write_mode

unfoldable pub permitted : (String → Option ToolSpec) → Bool → List TaskStep → String → Bool
permitted get explicitly_approved steps tool_name =
    explicitly_approved
    || contains tool_name (map (λ (step : TaskStep). step.tool_name) steps)
    || reads_only (get tool_name)

module _ (get : String → Option ToolSpec)
    (execute : ℕ → TrustLevel → TaskStep → Result ExecutionResult) (replanner : Option Replanner)
    (explicitly_approved : Bool) where
  Permits : List TaskStep → List TaskStep → Progress → Type 0
  Permits steps rest p =
      (all (λ (step : TaskStep). permitted get explicitly_approved steps step.tool_name) rest
        ≡ true)
      × (all (λ (o : StepObservation). permitted get explicitly_approved steps o.tool_name)
            p.observations
          ≡ true)

  check_tools-permitted :
      (steps candidates : List TaskStep)
      → check_tools get execute replanner explicitly_approved candidates ≡ none
      → all (λ (step : TaskStep). permitted get explicitly_approved steps step.tool_name) candidates
        ≡ true
  unfolding check_tools permitted
  check_tools-permitted steps [] h = refl
  check_tools-permitted steps (candidate ∷ candidates) h =
      ground (arith, h, check_tools-permitted steps candidates)

  observe-permitted :
      (steps : List TaskStep) (step : TaskStep) (attempt : ℕ) (child : ExecutionResult)
      (p : Progress)
      → permitted get explicitly_approved steps step.tool_name ≡ true
      → all
          (λ (o : StepObservation). permitted get explicitly_approved steps o.tool_name)
          p.observations
        ≡ true
      → all
          (λ (o : StepObservation). permitted get explicitly_approved steps o.tool_name)
          (observe step attempt child p).observations
        ≡ true
  unfolding observe
  observe-permitted steps step attempt child p may all_may =
      rw
        (all-append (λ (o : StepObservation). permitted get explicitly_approved steps o.tool_name)
          p.observations (safe_observation step child ∷ []))
        ground
        (
          arith,
          all_may,
          ap (permitted get explicitly_approved steps)
              (observed-id step child (last? child.results)).1,
          may,
        )

  Keeps-Permits :
      (steps : List TaskStep) → Keeps get execute replanner explicitly_approved (Permits steps)
  unfolding Permits log check_replacement
  Keeps-Permits steps = record {
    logging = λ rest p event h. h;
    observing = λ step rest p attempt child h.
        (h.0, observe-permitted steps step attempt child p (ground (arith, h.0)) h.1);
    finishing = λ step rest p attempt child good h. (
      ground (arith, h.0),
      observe-permitted steps step attempt child p (ground (arith, h.0)) h.1,
    );
    replacing = λ step rest replacement p existing_ids e h. (
      ground (
        arith,
        h.0,
        check_tools-permitted steps replacement (ground (arith, e)),
        all-append (λ (s : TaskStep). permitted get explicitly_approved steps s.tool_name)
            replacement rest,
      ),
      h.1,
    );
  }

  plan-permitted :
      (steps rest : List TaskStep)
      → ((name : String)
          → contains name (map (λ (step : TaskStep). step.tool_name) rest) ≡ true
          → contains name (map (λ (step : TaskStep). step.tool_name) steps) ≡ true)
      → all (λ (step : TaskStep). permitted get explicitly_approved steps step.tool_name) rest
        ≡ true
  unfolding permitted
  plan-permitted steps [] sub = refl
  plan-permitted steps (step ∷ rest) sub =
      let later = plan-permitted steps rest λ name inside. sub name (ground (arith, inside)) in
      ground (arith, later, sub step.tool_name, text_eq_iff step.tool_name step.tool_name)

  -- Without an explicit approval, an adaptive execution that returns a result has run only the tools of
  -- the plan and tools that the registry has as read-only, whatever the replanner answers.
  pub execute_adaptive_plan-permitted :
      (plan : TaskPlan) (execution_id : String) (audit_verified : Bool)
      (max_retries_per_step max_replans : ℤ) (result : AdaptiveExecutionResult)
      → execute_adaptive_plan get execute replanner explicitly_approved plan execution_id
          audit_verified max_retries_per_step max_replans
        ≡ finished result
      → all
          (λ (o : StepObservation). permitted get explicitly_approved plan.steps o.tool_name)
          result.progress.observations
        ≡ true
  unfolding Ends Permits
  execute_adaptive_plan-permitted plan execution_id audit_verified max_retries_per_step max_replans
        result h =
      let kept =
        execute_adaptive_plan-Ends get execute replanner explicitly_approved (Permits plan.steps)
          (Keeps-Permits plan.steps) plan execution_id audit_verified max_retries_per_step
          max_replans (plan-permitted plan.steps plan.steps (λ name inside. inside), refl) in
      (subst (Ends get execute replanner explicitly_approved (Permits plan.steps)) h kept).1.1
