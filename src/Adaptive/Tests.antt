-- ===== src/Adaptive/Tests.antt =====
-- Concrete adaptive executions.
use autonomous_ai_scout.Base.{
  strip, ℕ, String, ◌≡◌, refl, true, false, none, some, Option, [], ◌∷◌, pos, text_eq,
  if◌then◌else◌, contains, all, length, Result, ok,
}
use autonomous_ai_scout.Storage.{Json, object, text, field, end}
use autonomous_ai_scout.Policy.Tool.{
  ToolSpec, low, read_only, no_network, no_auth, no_approval, required,
}
use autonomous_ai_scout.Policy.Consequence.{TrustLevel}
use autonomous_ai_scout.Adaptive.Observation.{
  verified, failed, ExecutionResult, TaskStep, StepObservation, is_verified,
}
use autonomous_ai_scout.Adaptive.Run.{
  Execution, finished, AdaptiveExecutionResult, TaskPlan, execute_adaptive_plan, step_ids,
  Replanner,
}
use autonomous_ai_scout.Adaptive.Accounts.{accounted, execute_adaptive_plan-accounted}
use autonomous_ai_scout.Adaptive.Safety.{permitted, execute_adaptive_plan-permitted}

abbrev schema : Json
schema = object (field "type" (text "object") end)

abbrev reader : ToolSpec
reader = record {
  name = "files.read";
  description = "Read a file.";
  category = "files";
  risk_level = low;
  read_write_mode = read_only;
  network_requirement = no_network;
  authentication_requirement = no_auth;
  approval_requirement = no_approval;
  sandbox_requirement = required;
  audit_requirement = required;
  input_schema = schema;
  output_schema = schema;
  capability = "read_file";
  safe_autonomous = true;
}

abbrev get : String → Option ToolSpec
get name = if text_eq name "files.read" then some reader else none

-- Tests fail, and all else is verified.
abbrev run_one : TaskStep → ExecutionResult
run_one step =
    if text_eq step.tool_name "tests.run"
    then record { state = failed; reason = "failed"; attempts = 1; results = [] }
    else record {
      state = verified;
      reason = "verified";
      attempts = 1;
      results =
          record {
            success = true;
            verification_status = "verified";
            exit_status = some (pos 0);
            output_truncated = false;
          }
          ∷ [];
    }

abbrev execute : ℕ → TrustLevel → TaskStep → Result ExecutionResult
execute n trust step = ok (run_one step)

abbrev step : String → String → TaskStep
step step_id tool_name = record { step_id = step_id; tool_name = tool_name }

-- A failed step is replaced by one that reads.
abbrev replanner : Option Replanner
replanner = some (λ n o rest. ok (some (step "r" "files.read" ∷ [])))

abbrev two_steps : TaskPlan
two_steps = record { steps = step "a" "tests.run" ∷ step "b" "metrics" ∷ []; executable = true }

abbrev run_two : Execution
run_two = execute_adaptive_plan get execute replanner false two_steps "x" true (pos 1) (pos 1)

abbrev result_of : Execution → AdaptiveExecutionResult
result_of (finished result) = result
result_of _ = record {
  state = failed;
  reason = "";
  progress = record {
    total_attempts = 0;
    replan_count = 0;
    results = [];
    observations = [];
    trail = [];
  };
}

run_two-finished : run_two ≡ finished (result_of run_two)
unfolding execute_adaptive_plan strip
run_two-finished = refl

run_two-verified : is_verified (result_of run_two).state ≡ true
unfolding execute_adaptive_plan strip
run_two-verified = refl

-- The first step twice, then its replacement, then the second one.
run_two-calls : length (result_of run_two).progress.observations ≡ 4
unfolding execute_adaptive_plan strip
run_two-calls = refl

first_step : contains "a" (step_ids two_steps.steps) ≡ true
first_step = refl

execute_adaptive_plan-accounted_example : accounted (result_of run_two).progress "a" ≡ true
execute_adaptive_plan-accounted_example =
    execute_adaptive_plan-accounted get execute replanner false two_steps "x" true (pos 1) (pos 1)
      (result_of run_two) run_two-finished run_two-verified "a" first_step

execute_adaptive_plan-permitted_example :
    all
      (λ (o : StepObservation). permitted get false two_steps.steps o.tool_name)
      (result_of run_two).progress.observations
    ≡ true
execute_adaptive_plan-permitted_example =
    execute_adaptive_plan-permitted get execute replanner false two_steps "x" true (pos 1) (pos 1)
      (result_of run_two) run_two-finished
