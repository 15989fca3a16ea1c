-- ===== src/Adaptive/Run.antt =====
-- adaptive_execution.py: `execute_adaptive_plan`, its two loops and the checks of replacement steps.
use autonomous_ai_scout.Base.{
  ℕ, zero, suc, ◌+◌, ◌*◌, String, Bool, not, ◌&&◌, Option, none, some, Result, ok, err, Error,
  type_error, List, [], ◌∷◌, ◌++◌, map, ℤ, clamp_at_zero, min, leb, ltb, last?, length, any, is_nil,
  is_blank, contains, distinct, if◌then◌else◌, text_eq, ◌+++◌,
}
use autonomous_ai_scout.Policy.Tool.{ToolSpec, is_read_only}
use autonomous_ai_scout.Policy.Consequence.{TrustLevel, user, tool_result}
use autonomous_ai_scout.Adaptive.Observation.{
  ExecutionState, blocked, verified, failed, is_verified, is_final, ExecutionResult, TaskStep,
  StepObservation, observation_of, safe_observation, Event, execution_started, task_completed,
  verification, step_completed, adaptation_blocked, task_failed, retry, replan, Progress, log,
  observe,
}

abbrev pub max_adaptive_retries : ℕ
max_adaptive_retries = 2

abbrev pub max_adaptive_replans : ℕ
max_adaptive_replans = 2

abbrev pub max_replacement_steps : ℕ
max_replacement_steps = 12

-- The fields of a `TaskPlan` that are read here.
pub record TaskPlan : Type 0 where
  pub steps : List TaskStep
  pub executable : Bool

pub record AdaptiveExecutionResult : Type 0 where
  pub state : ExecutionState
  pub reason : String
  pub progress : Progress

pub data Execution : Type 0 where
  finished : AdaptiveExecutionResult → Execution
  raised : Error → Progress → Execution
  out_of_fuel : Execution

abbrev pub finish : ExecutionState → String → Progress → Execution
finish state reason p = finished (record { state = state; reason = reason; progress = p })

-- How the attempts at one step end.
pub data Attempted : Type 0 where
  completed : Progress → Attempted
  stopped : ExecutionState → String → Progress → Attempted
  exhausted : Progress → Attempted
  interrupted : Error → Progress → Attempted

-- The caller's replanner: it raises, returns None, or returns a finite series of steps.
abbrev pub Replanner : Type 0
Replanner = ℕ → Option StepObservation → List TaskStep → Result (Option (List TaskStep))

-- `if attempt < retries: _audit(..., "RETRY", ...)`, by the attempts that are left
abbrev pub note_retry : ℕ → TaskStep → ℕ → Progress → Progress
note_retry zero step attempt p = p
note_retry (suc left) step attempt p = log (retry step.step_id (attempt + 2)) p

abbrev pub step_ids : List TaskStep → List String
step_ids steps = map (λ (step : TaskStep). step.step_id) steps

-- `TrustLevel.TOOL_RESULT if replan_count > 0 else TrustLevel.USER`
abbrev pub trust_of : ℕ → TrustLevel
trust_of zero = user
trust_of (suc n) = tool_result

-- `any(candidate.step_id in existing_ids and candidate.step_id != step.step_id for ...)`
abbrev pub collides : List String → String → List TaskStep → Bool
collides existing_ids step_id replacement =
    any
      (λ (candidate : TaskStep).
        contains candidate.step_id existing_ids && not (text_eq candidate.step_id step_id))
      replacement

-- What refuses a replacement: the state and the reason of the result, and the reason in the audit.
abbrev pub Refusal : Type 0
Refusal = Option (ExecutionState × String × String)

abbrev pub fails : String → Refusal
fails reason = some (failed, reason, reason)

-- The tests of the number and the identifiers of the replacement steps.
unfoldable pub check_ids : List String → String → List TaskStep → Refusal
check_ids existing_ids step_id replacement =
    if ltb max_replacement_steps (length replacement)
    then fails "replanner replacement exceeds bounded step limit"
    else if not (distinct (step_ids replacement))
    then fails "replanner produced duplicate replacement step ids"
    else if collides existing_ids step_id replacement
    then fails "replanner produced colliding step ids"
    else none

-- The record in the audit of a refused replacement.
abbrev pub refusal_event : ExecutionState → String → String → Event
refusal_event blocked step_id reason = adaptation_blocked step_id reason
refusal_event _ step_id reason = task_failed step_id reason

abbrev pub nothing_done : Progress
nothing_done = record {
  total_attempts = 0;
  replan_count = 0;
  results = [];
  observations = [];
  trail = [];
}

-- The first refusal of two tests.
abbrev pub or_else : Refusal → Refusal → Refusal
or_else (some refusal) later = some refusal
or_else none later = later

-- `get` finds a tool of the registry. `execute` is `execute_plan` of execution_engine.py for the plan
-- of one step: what it returns or raises at its n-th call, for the trust that it is given.
-- `replanner` is the caller's, where it gives one; it is asked at most once for each count of replacements.
module _ (get : String → Option ToolSpec)
    (execute : ℕ → TrustLevel → TaskStep → Result ExecutionResult) (replanner : Option Replanner)
    (explicitly_approved : Bool) where
  -- Behind the call of `execute_plan`; `again` makes the attempts that are left.
  abbrev pub behind_call :
      (Progress → Attempted) → ℕ → ℕ → TaskStep → Progress → Result ExecutionResult → Attempted
  behind_call again left attempt step p (err e) = interrupted e p
  behind_call again left attempt step p (ok child) =
      let seen = observe step attempt child p in
      let rest = again (note_retry left step attempt seen) in
      if is_verified child.state && (safe_observation step child).success
      then completed (log (verification step.step_id) seen)
      else if is_final child.state
      then stopped child.state child.reason
          (log (adaptation_blocked step.step_id child.reason) seen)
      else rest

  -- `for attempt in range(retries + 1)`, by the attempts that are left
  unfoldable pub attempt_step : ℕ → ℕ → TaskStep → Progress → Attempted
  unfolding observe observation_of log
  attempt_step zero attempt step p = exhausted p
  attempt_step (suc left) attempt step p =
      behind_call (attempt_step left (suc attempt) step) left attempt step p
        (execute (length p.observations) (trust_of p.replan_count) step)

  -- Whether a replacement step may be run: none where the tool is known, and reads only or is approved.
  abbrev pub check_tool : String → Option ToolSpec → Refusal
  check_tool name none = some (
    blocked,
    "replanner selected unknown tool: " +++ name,
    "replacement tool is unknown: " +++ name,
  )
  check_tool name (some tool) =
      if not (is_read_only tool.read_write_mode) && not explicitly_approved
      then some (
        blocked, "replanner cannot introduce write side effects without explicit approval",
        "replanner cannot introduce write side effects without explicit approval",
      )
      else none

  -- `for candidate in replacement`
  unfoldable pub check_tools : List TaskStep → Refusal
  check_tools [] = none
  check_tools (candidate ∷ candidates) =
      or_else (check_tool candidate.tool_name (get candidate.tool_name)) (check_tools candidates)

  unfoldable pub check_replacement : List String → String → List TaskStep → Refusal
  unfolding check_tools check_ids
  check_replacement existing_ids step_id replacement =
      or_else (check_tools replacement) (check_ids existing_ids step_id replacement)

  -- `steps[index:index + 1] = list(replacement)`, unless it is refused: `again` is the loop behind it.
  unfoldable pub replace_step :
      (List TaskStep → Progress → Execution)
      → List TaskStep
      → TaskStep
      → List TaskStep
      → Progress
      → Refusal
      → Execution
  unfolding log
  replace_step again replacement step rest p (some (state, reason, audit_reason)) =
      finish state reason (log (refusal_event state step.step_id audit_reason) p)
  replace_step again replacement step rest p none = again (replacement ++ rest) (
      log (replan step.step_id (step_ids replacement) (suc p.replan_count))
        (record p { replan_count = suc p.replan_count }))

  -- `tuple(replanner(...))` and what follows on it; a None is no series.
  unfoldable pub offered :
      (List TaskStep → Progress → Execution)
      → List String
      → TaskStep
      → List TaskStep
      → Progress
      → Result (Option (List TaskStep))
      → Execution
  unfolding replace_step log check_replacement
  offered again existing_ids step rest p (err e) = raised e p
  offered again existing_ids step rest p (ok none) =
      raised (type_error "'NoneType' object is not iterable") p
  offered again existing_ids step rest p (ok (some replacement)) =
      if is_nil replacement
      then finish failed ("replanner produced no safe replacement for " +++ step.tool_name)
          (log (task_failed step.step_id "replanner produced no replacement steps") p)
      else replace_step again replacement step rest p
          (check_replacement existing_ids step.step_id replacement)

  -- Behind the attempts that failed.
  unfoldable pub adapt :
      (List TaskStep → Progress → Execution)
      → ℕ
      → List String
      → TaskStep
      → List TaskStep
      → Progress
      → Option Replanner
      → Execution
  unfolding offered log
  adapt again replans existing_ids step rest p none =
      finish failed ("adaptive recovery exhausted for " +++ step.tool_name)
        (log (task_failed step.step_id "retry budget exhausted and no adaptive replan available") p)
  adapt again replans existing_ids step rest p (some ask) =
      let answer = ask p.replan_count (last? p.observations) rest in
      if leb replans p.replan_count
      then finish failed ("adaptive recovery exhausted for " +++ step.tool_name) (
          log (task_failed step.step_id "retry budget exhausted and no adaptive replan available")
            p)
      else offered again existing_ids step rest p answer

  -- How the loop goes on behind the attempts at a step.
  unfoldable pub behind_step :
      (Progress → Execution)
      → (List TaskStep → Progress → Execution)
      → ℕ
      → List String
      → TaskStep
      → List TaskStep
      → Attempted
      → Execution
  unfolding adapt log
  behind_step go_on again replans existing_ids step rest (completed p) =
      go_on (log (step_completed step.step_id) p)
  behind_step go_on again replans existing_ids step rest (stopped state reason p) =
      finish state reason p
  behind_step go_on again replans existing_ids step rest (exhausted p) =
      adapt again replans existing_ids step rest p replanner
  behind_step go_on again replans existing_ids step rest (interrupted e p) = raised e p

  -- `while index < len(steps)`: the steps before the index, and those from it on.
  unfoldable pub run_steps : ℕ → ℕ → ℕ → List TaskStep → List TaskStep → Progress → Execution
  unfolding behind_step attempt_step log
  run_steps fuel retries replans before [] p =
      finish verified
        "all adaptive steps executed and verified through the existing execution boundary"
        (log task_completed p)
  run_steps zero retries replans before (step ∷ rest) p = out_of_fuel
  run_steps (suc fuel) retries replans before (step ∷ rest) p =
      behind_step (run_steps fuel retries replans (before ++ step ∷ []) rest)
        (run_steps fuel retries replans before) replans (step_ids (before ++ step ∷ rest)) step rest
        (attempt_step (suc retries) 0 step p)

  -- A round is a step that is completed or one that is replaced by 12 at most.
  unfoldable pub execute_adaptive_plan : TaskPlan → String → Bool → ℤ → ℤ → Execution
  unfolding run_steps log
  execute_adaptive_plan plan execution_id audit_verified max_retries_per_step max_replans =
      let retries = min (clamp_at_zero max_retries_per_step) max_adaptive_retries in
      let replans = min (clamp_at_zero max_replans) max_adaptive_replans in
      if is_blank execution_id
      then finish blocked "execution identity is required" nothing_done
      else if not plan.executable
      then finish blocked "task plan is not executable" nothing_done
      else if not audit_verified
      then finish blocked "execution audit chain is invalid" nothing_done
      else run_steps (length plan.steps + max_replacement_steps * replans) retries replans []
          plan.steps (log execution_started nothing_done)
