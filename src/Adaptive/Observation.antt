-- ===== src/Adaptive/Observation.antt =====
-- adaptive_execution.py: the results of a step, what is observed of them, and the audit events.
use autonomous_ai_scout.Base.{
  ◌≡◌, refl, arith, ℕ, ◌+◌, String, Bool, true, false, ◌&&◌, Option, none, some, List, [], ◌∷◌,
  ◌++◌, ℤ, last?, max, text_eq,
}

-- `ExecutionState` of execution_engine.py.
pub data ExecutionState : Type 0 where
  blocked running verified failed recovery_required : ExecutionState

abbrev pub is_verified : ExecutionState → Bool
is_verified verified = true
is_verified _ = false

-- `child.state in {ExecutionState.BLOCKED, ExecutionState.RECOVERY_REQUIRED}`
abbrev pub is_final : ExecutionState → Bool
is_final blocked = true
is_final recovery_required = true
is_final _ = false

-- The fields of a `SandboxResult` that are read here.
pub record SandboxResult : Type 0 where
  pub success : Bool
  pub verification_status : String
  pub exit_status : Option ℤ
  pub output_truncated : Bool

-- `ExecutionResult` of execution_engine.py.
pub record ExecutionResult : Type 0 where
  pub state : ExecutionState
  pub reason : String
  pub attempts : ℕ
  pub results : List SandboxResult

-- The fields of a `TaskStep` that are read here.
pub record TaskStep : Type 0 where
  pub step_id : String
  pub tool_name : String

pub record StepObservation : Type 0 where
  pub step_id : String
  pub tool_name : String
  pub state : ExecutionState
  pub success : Bool
  pub verification_status : String
  pub attempts : ℕ
  pub exit_status : Option ℤ
  pub output_truncated : Bool

-- `_safe_observation`, from the last result of the sandbox if there is one
unfoldable pub observation_of : TaskStep → ExecutionResult → Option SandboxResult → StepObservation
observation_of step result none = record {
  step_id = step.step_id;
  tool_name = step.tool_name;
  state = result.state;
  success = false;
  verification_status = "none";
  attempts = max 1 result.attempts;
  exit_status = none;
  output_truncated = false;
}
observation_of step result (some sandbox_result) = record {
  step_id = step.step_id;
  tool_name = step.tool_name;
  state = result.state;
  success = sandbox_result.success && text_eq sandbox_result.verification_status "verified";
  verification_status = sandbox_result.verification_status;
  attempts = max 1 result.attempts;
  exit_status = sandbox_result.exit_status;
  output_truncated = sandbox_result.output_truncated;
}

abbrev pub safe_observation : TaskStep → ExecutionResult → StepObservation
safe_observation step result = observation_of step result (last? result.results)

-- The records of `_audit`, by their event.
pub data Event : Type 0 where
  execution_started task_completed : Event
  observed : StepObservation → ℕ → Event
  verification step_completed : (step_id : String) → Event
  adaptation_blocked task_failed : (step_id : String) → (reason : String) → Event
  retry : (step_id : String) → (next_attempt : ℕ) → Event
  replan : (failed_step : String) → (replacement_steps : List String) → (replan_count : ℕ) → Event

-- The local variables of the loop, and the audit.
pub record Progress : Type 0 where
  pub total_attempts : ℕ
  pub replan_count : ℕ
  pub results : List SandboxResult
  pub observations : List StepObservation
  pub trail : List Event

unfoldable pub log : Event → Progress → Progress
log event p = record p { trail = p.trail ++ event ∷ [] }

-- What an attempt adds before its state is looked at.
unfoldable pub observe : TaskStep → ℕ → ExecutionResult → Progress → Progress
observe step attempt result p =
    let observation = safe_observation step result in
    record {
      total_attempts = p.total_attempts + max 1 result.attempts;
      replan_count = p.replan_count;
      results = p.results ++ result.results;
      observations = p.observations ++ observation ∷ [];
      trail = p.trail ++ observed observation (attempt + 1) ∷ [];
    }

-- What is observed carries the names of the step, and a success the word for it.
pub observed-id :
    (step : TaskStep) (result : ExecutionResult) (last : Option SandboxResult)
    → ((observation_of step result last).step_id ≡ step.step_id)
      × ((observation_of step result last).tool_name ≡ step.tool_name)
unfolding observation_of
observed-id step result none = (refl, refl)
observed-id step result (some sandbox_result) = (refl, refl)

pub success-verified :
    (step : TaskStep) (result : ExecutionResult) (last : Option SandboxResult)
    → (observation_of step result last).success ≡ true
    → text_eq (observation_of step result last).verification_status "verified" ≡ true
unfolding observation_of
success-verified step result none h = cc
success-verified step result (some sandbox_result) h = ground (arith, h)
