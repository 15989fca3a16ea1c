-- ===== src/Lifecycle/Recovery.antt =====
-- lifecycle_recovery.py: an action whose execution was interrupted is blocked, never resumed.
use autonomous_ai_scout.Base.{
  String, Bool, true, false, not, Option, none, some, Result, ok, err, Error, if◌then◌else◌,
  value_error, key_error, type_error, permission_error, runtime_error, os_error, ◌+++◌,
}
use autonomous_ai_scout.Lifecycle.State.{
  LifecycleState, claimed, executed, blocked, member, is_terminal,
}
use autonomous_ai_scout.Lifecycle.Ledger.{
  Event, LedgerFile, missing, Outside, verify_ledger, action_state,
}
use autonomous_ai_scout.Lifecycle.Append.{append_transition}

pub record RecoveryDecision : Type 0 where
  pub recoverable : Bool
  pub reason : String
  pub state : LifecycleState

abbrev pub is_interrupted : LifecycleState → Bool
is_interrupted claimed = true
is_interrupted executed = true
is_interrupted _ = false

abbrev pub missing_file : LedgerFile → Bool
missing_file missing = true
missing_file _ = false

-- The decision on the state of the action.
abbrev pub inspect_state : Option LifecycleState → RecoveryDecision
inspect_state none = record {
  recoverable = false;
  reason = "lifecycle history for action is missing";
  state = blocked;
}
inspect_state (some state) =
    if is_terminal state
    then record {
      recoverable = false;
      reason = "lifecycle is terminal; recovery is not allowed";
      state = state;
    }
    else if is_interrupted state
    then record {
      recoverable = true;
      reason = "execution may have been interrupted; recovery must block";
      state = state;
    }
    else record {
      recoverable = false;
      reason = "lifecycle is not in an interrupted execution state";
      state = state;
    }

abbrev pub inspect_found : Result (Option LifecycleState) → Result RecoveryDecision
inspect_found (ok found) = ok (inspect_state found)
inspect_found (err e) = err e

-- The text of an exception.
abbrev pub error_text : Error → String
error_text (value_error s) = s
error_text (key_error s) = s
error_text (type_error s) = s
error_text (permission_error s) = s
error_text (runtime_error s) = s
error_text (os_error s) = s

-- `except (OSError, TypeError, ValueError)`; a `KeyError` is raised further.
abbrev pub recovered : Result Event × LedgerFile → Result RecoveryDecision × LedgerFile
recovered (ok event, file) = (
  ok (record {
    recoverable = false;
    reason = "interrupted execution was terminally blocked";
    state = blocked;
  }),
  file,
)
recovered (err (key_error k), file) = (err (key_error k), file)
recovered (err e, file) = (
  ok (record {
    recoverable = false;
    reason = "recovery transition was not persisted: " +++ error_text e;
    state = blocked;
  }),
  file,
)

module _ (outside : Outside) where
  -- `inspect_recovery`
  unfoldable pub inspect_recovery : LedgerFile → String → Result RecoveryDecision
  unfolding verify_ledger action_state
  inspect_recovery file action_id =
      if missing_file file
      then ok (record {
        recoverable = false;
        reason = "lifecycle ledger is required for recovery";
        state = blocked;
      })
      else if not (verify_ledger outside file)
      then ok
          (record { recoverable = false; reason = "lifecycle ledger is invalid"; state = blocked })
      else inspect_found (action_state outside file action_id)

  unfoldable pub recover_inspected :
      LedgerFile → String → String → Result RecoveryDecision → Result RecoveryDecision × LedgerFile
  unfolding append_transition
  recover_inspected file action_id now (err e) = (err e, file)
  recover_inspected file action_id now (ok decision) =
      if not decision.recoverable
      then (ok decision, file)
      else recovered
          (append_transition outside action_id (member decision.state) (member blocked) now file)

  -- `recover_stale_execution`
  unfoldable pub recover_stale_execution :
      String → String → LedgerFile → Result RecoveryDecision × LedgerFile
  unfolding inspect_recovery recover_inspected
  recover_stale_execution now action_id file =
      recover_inspected file action_id now (inspect_recovery file action_id)
