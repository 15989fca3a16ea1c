-- ===== src/Adaptive/Bounds.antt =====
-- adaptive_execution.py: the loop ends, and how often it may run a step.
use autonomous_ai_scout.Base.{
  ℕ, ◌+◌, ◌*◌, ◌-◌, ◌≤◌, String, Bool, Option, some, List, ◌≡◌, length, Result, ok,
}
use autonomous_ai_scout.Policy.Tool.{ToolSpec}
use autonomous_ai_scout.Policy.Consequence.{TrustLevel}
use autonomous_ai_scout.Adaptive.Observation.{ExecutionResult, TaskStep, StepObservation, Progress}
use autonomous_ai_scout.Adaptive.Run.{
  Execution, finished, Attempted, completed, stopped, exhausted, AdaptiveExecutionResult, Replanner,
  interrupted,
}

-- A progress with no more replacements, and no more than some calls more.
unfoldable Within : ℕ → Progress → Progress → Type 0
Within more p after =
    (length after.observations ≤ length p.observations + more)
    × (after.replan_count ≡ p.replan_count)

WithinAttempts : ℕ → Progress → Attempted → Type 0
WithinAttempts more p (completed after) = Within more p after
WithinAttempts more p (stopped state reason after) = Within more p after
WithinAttempts more p (exhausted after) = Within more p after
WithinAttempts more p (interrupted e after) = ⊥

-- A run that ends within some calls and some replacements.
unfoldable pub EndsWithin : ℕ → ℕ → Execution → Type 0
EndsWithin calls replans execution =
    (result : AdaptiveExecutionResult) × (execution ≡ finished result)
    × (length result.progress.observations ≤ calls)
    × (result.progress.replan_count ≤ replans)

module _ (get : String → Option ToolSpec)
    (execute : ℕ → TrustLevel → TaskStep → Result ExecutionResult) (replanner : Option Replanner)
    (explicitly_approved : Bool)
    (returns : (n : ℕ) (trust : TrustLevel) (step : TaskStep)
      → (child : ExecutionResult) × (execute n trust step ≡ ok child))
    (answers : (ask : Replanner) (n : ℕ) (o : Option StepObservation) (rest : List TaskStep)
      → replanner ≡ some ask
      → (steps : List TaskStep) × (ask n o rest ≡ ok (some steps))) where
  -- How many rounds the loop may still make.
  abbrev rounds_left : ℕ → List TaskStep → Progress → ℕ
  rounds_left replans rest p = length rest + 12 * (replans - p.replan_count)

  module _ (fuel retries replans : ℕ) where
    -- What is known of the loop with less fuel.
    abbrev Loops : (List TaskStep → Progress → Execution) → Type 0
    Loops again =
        (rest : List TaskStep) (p : Progress)
        → rounds_left replans rest p ≤ fuel
        → p.replan_count ≤ replans
        → EndsWithin (length p.observations + 3 * rounds_left replans rest p) replans (again rest p)
