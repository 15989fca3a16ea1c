-- ===== src/Queue/Command.antt =====
-- The calls that change the queue's file, as data, and runs of such calls.
use autonomous_ai_scout.Base.{ℕ, String, Bool, Option, List, [], ◌∷◌}
use autonomous_ai_scout.Storage.{File}
use autonomous_ai_scout.Queue.Store.{
  Outside, enqueue, recover_running, confirm_recovery, claim_next, complete, cancel,
}

-- A call with the times that it reads.
pub data Command : Type 0 where
  enqueue_task : String → String → String → Option String → String → String → Command
  recover : (ℕ → String) → Command
  confirm : String → String → Command
  claim : ℕ → String → Command
  finish : String → Bool → String → String → Command
  withdraw : String → String → Command

module _ (outside : Outside) where
  -- The file after the call, whether it returns or raises.
  unfoldable pub step : Command → File → File
  step (enqueue_task task task_id execution_id available_at arrival now) file =
      (enqueue outside task task_id execution_id available_at arrival now file).1
  step (recover clock) file = (recover_running outside clock file).1
  step (confirm task_id now) file = (confirm_recovery outside task_id now file).1
  step (claim instant now) file = (claim_next outside instant now file).1
  step (finish task_id success error now) file = (complete outside task_id success error now file).1
  step (withdraw task_id now) file = (cancel outside task_id now file).1

  unfoldable pub run : List Command → File → File
  run [] file = file
  run (c ∷ cs) file = run cs (step c file)
