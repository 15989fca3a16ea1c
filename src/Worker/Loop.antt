-- ===== src/Worker/Loop.antt =====
-- background_worker.py: `BackgroundTaskWorker`, on the file of the queue and that of the leases.
use autonomous_ai_scout.Base.{
  ℕ, zero, suc, String, Bool, true, false, Option, none, some, Result, ok, err, ◌>>=◌, Error,
  value_error, key_error, type_error, permission_error, runtime_error, os_error, List, [], ◌∷◌,
  text_eq, if◌then◌else◌, ◌+++◌,
}
use autonomous_ai_scout.Storage.{File}
use autonomous_ai_scout.Queue.Item.{QueueItem, QueueState, succeeded}
use autonomous_ai_scout.Queue.Store.{Outside, list_items, recover_running, claim_next, complete}
use autonomous_ai_scout.Leases.Store.{Floats, ExecutionLease, Limits, acquire, release}

-- What the handler does with an item: it returns, or raises an exception of some type.
pub data Handled : Type 0 where
  answered : Bool → Handled
  raised : String → Handled

pub record WorkerResult : Type 0 where
  pub processed : ℕ
  pub succeeded_count : ℕ
  pub failed_count : ℕ

-- `type(exc).__name__` of what the stores raise.
unfoldable pub error_name : Error → String
error_name (value_error _) = "ValueError"
error_name (key_error _) = "KeyError"
error_name (type_error _) = "TypeError"
error_name (permission_error _) = "PermissionError"
error_name (runtime_error _) = "RuntimeError"
error_name (os_error _) = "OSError"

-- The times and the identifier that one round reads.
pub record Times (Float : Type 0) : Type 0 where
  pub instant : ℕ
  pub claimed_at : String
  pub completed_at : String
  pub failed_at : String
  pub lease_now : Float
  pub lease_later : Float
  pub lease_id : String
  pub release_now : Float

pub record World : Type 0 where
  pub queue : File
  pub leases : File

abbrev pub is_succeeded : QueueState → Bool
is_succeeded succeeded = true
is_succeeded _ = false

-- `next(candidate for candidate in items if candidate.task_id == task_id)`
unfoldable pub find_item : String → List QueueItem → Result QueueItem
find_item task_id [] = err (runtime_error "StopIteration")
find_item task_id (item ∷ items) =
    if text_eq item.task_id task_id then ok item else find_item task_id items

-- `lease_store` is none or the store's limits; `handler` is the caller's.
module _ {Float : Type 0} (outside : Outside) (floats : Floats Float) (lease_store : Option Limits)
    (handler : QueueItem → Handled) where
  -- What a round returns, and what it leaves.
  abbrev pub Round : Type 0
  Round = Result (Option QueueItem) × World

  unfoldable pub reload : String → World → Round
  unfolding list_items find_item
  reload task_id world =
      ((list_items outside world.queue).0 >>= find_item task_id >>= λ item. ok (some item), world)

  -- Behind the last call of `complete`: the item as it is in the queue, or what was raised.
  abbrev pub reload_after : String → Result QueueItem × File → File → Round
  reload_after task_id (ok item, queue) leases =
      reload task_id (record { queue = queue; leases = leases })
  reload_after task_id (err e, queue) leases = (err e, record { queue = queue; leases = leases })

  -- `complete(..., error=f"handler failed: {type(exc).__name__}")`
  unfoldable pub fail_handled : Times Float → QueueItem → String → File → Result QueueItem × File
  unfolding complete
  fail_handled times item name queue =
      complete outside item.task_id false ("handler failed: " +++ name) times.failed_at queue

  -- A `complete` that raises inside of the `try` is caught, and the item is failed.
  abbrev pub catch : Times Float → QueueItem → Result QueueItem × File → Result QueueItem × File
  catch times item (ok found, queue) = (ok found, queue)
  catch times item (err e, queue) = fail_handled times item (error_name e) queue

  -- The `try` statement, less its `finally`.
  unfoldable pub handle : Times Float → QueueItem → Handled → File → Result QueueItem × File
  unfolding complete fail_handled error_name
  handle times item (answered success) queue = catch times item (
      complete outside item.task_id success (if success then "" else "handler returned false")
        times.completed_at queue)
  handle times item (raised name) queue = fail_handled times item name queue

  -- `finally: self.lease_store.release(lease.lease_id)`; what it raises replaces what was raised before.
  abbrev pub released : String → Result QueueItem × File → Result Bool × File → Round
  released task_id completed (ok _, leases) = reload_after task_id completed leases
  released task_id (_, queue) (err e, leases) = (err e, record { queue = queue; leases = leases })

  -- Behind the lease that was asked for.
  unfoldable pub with_lease :
      Times Float → QueueItem → File → Result (Option (ExecutionLease Float)) × File → Round
  unfolding handle release complete
  with_lease times item queue (err e, leases) = (err e, record { queue = queue; leases = leases })
  with_lease times item queue (ok none, leases) =
      reload_after item.task_id
        (complete outside item.task_id false "concurrency lease unavailable" times.completed_at
          queue)
        leases
  with_lease times item queue (ok (some lease), leases) =
      released item.task_id (handle times item (handler item) queue)
        (release floats outside.convert times.release_now lease.lease_id leases)

  unfoldable pub with_item : Times Float → QueueItem → World → Option Limits → Round
  unfolding with_lease handle acquire
  with_item times item world none =
      reload_after item.task_id (handle times item (handler item) world.queue) world.leases
  with_item times item world (some limits) = with_lease times item world.queue (
      acquire floats outside.convert limits times.lease_id times.lease_now times.lease_later
        ("task:" +++ item.task_id) item.execution_id world.leases)

  abbrev pub with_claim : Times Float → File → Result (Option QueueItem) × File → Round
  with_claim times leases (ok (some item), queue) =
      with_item times item (record { queue = queue; leases = leases }) lease_store
  with_claim times leases (ok none, queue) = (ok none, record { queue = queue; leases = leases })
  with_claim times leases (err e, queue) = (err e, record { queue = queue; leases = leases })

  -- `run_once`
  unfoldable pub run_once : Times Float → World → Round
  unfolding with_item claim_next
  run_once times world =
      with_claim times world.leases (claim_next outside times.instant times.claimed_at world.queue)

  unfoldable pub count_item : QueueItem → WorkerResult → WorkerResult
  count_item item counts =
      if is_succeeded item.state
      then record {
        processed = suc counts.processed;
        succeeded_count = suc counts.succeeded_count;
        failed_count = counts.failed_count;
      }
      else record {
        processed = suc counts.processed;
        succeeded_count = counts.succeeded_count;
        failed_count = suc counts.failed_count;
      }

  abbrev pub behind_round :
      (WorkerResult → World → Result WorkerResult × World)
      → WorkerResult
      → Round
      → Result WorkerResult × World
  behind_round again counts (ok (some item), world) = again (count_item item counts) world
  behind_round again counts (ok none, world) = (ok counts, world)
  behind_round again counts (err e, world) = (err e, world)

  -- `while processed < max_items`, by the rounds that are left
  unfoldable pub work : ℕ → (ℕ → Times Float) → WorkerResult → World → Result WorkerResult × World
  unfolding run_once count_item
  work zero times counts world = (ok counts, world)
  work (suc left) times counts world =
      behind_round (work left times) counts (run_once (times counts.processed) world)

  abbrev pub nothing_counted : WorkerResult
  nothing_counted = record { processed = 0; succeeded_count = 0; failed_count = 0 }

  abbrev pub behind_recovery :
      ℕ → (ℕ → Times Float) → File → Result (List QueueItem) × File → Result WorkerResult × World
  behind_recovery max_items times leases (ok _, queue) =
      work max_items times nothing_counted (record { queue = queue; leases = leases })
  behind_recovery max_items times leases (err e, queue) =
      (err e, record { queue = queue; leases = leases })

  -- `run_until_empty`, of a number that is not negative
  unfoldable pub run_until_empty :
      ℕ → (ℕ → String) → (ℕ → Times Float) → World → Result WorkerResult × World
  unfolding work recover_running
  run_until_empty max_items clock times world =
      behind_recovery max_items times world.leases (recover_running outside clock world.queue)
