-- ===== src/Queue/Store.antt =====
-- The operations of `TaskQueueStore` (task_queue.py). Each holds the lock from its load to its
-- save, so it is one step on the file; an operation that raises has not written.
use autonomous_ai_scout.Base.{
  ℕ, suc, String, Bool, not, ◌||◌, Option, none, some, Result, ok, err, ◌>>=◌, ◌>>◌, raise_if,
  value_error, key_error, pos, next_int, List, [], ◌∷◌, ◌++◌, any, keep, text_eq, if◌then◌else◌,
  ltb, is_empty, strip, text_length, text_take,
}
use autonomous_ai_scout.Storage.{File, Conversions}
use autonomous_ai_scout.Clock.{Calendar}
use autonomous_ai_scout.Queue.Item.{
  pending, running, recovery_required, succeeded, failed, cancelled, is_pending, is_running,
  is_recovery_required, QueueItem, safe_task, ready, validate_timestamp, validate_item,
}
use autonomous_ai_scout.Queue.Disk.{load, save}

-- What the store takes from outside: the calendar, the conversions of JSON values, and the
-- redaction of secrets in a task's text.
pub record Outside : Type 0 where
  pub calendar : Calendar
  pub convert : Conversions
  pub redact : String → String

-- The result of an operation on the loaded items, with the items to save if it saves.
abbrev pub Change : Type 0 → Type 0
Change A = Result (A × Option (List QueueItem))

abbrev pub settle : {A : Type 0} → File → Change A → Result A × File
settle file (ok (a, none)) = (ok a, file)
settle file (ok (a, some items)) = (ok a, save items)
settle file (err e) = (err e, file)

abbrev pub with_loaded :
    {A : Type 0} → File → (List QueueItem → Change A) → Result (List QueueItem) → Result A × File
with_loaded file f (ok items) = settle file (f items)
with_loaded file f (err e) = (err e, file)

-- `for index, item in enumerate(items): if item.task_id == task_id: ...`, then `raise KeyError`.
unfoldable pub update_first :
    String → (QueueItem → Result QueueItem) → List QueueItem → Result (QueueItem × List QueueItem)
update_first task_id f [] = err (key_error task_id)
update_first task_id f (item ∷ items) =
    let rest = update_first task_id f items in
    if text_eq item.task_id task_id
    then (do updated ← f item; ok (updated, updated ∷ items))
    else (do found ← rest; ok (found.0, item ∷ found.1))

abbrev pub saved : Result (QueueItem × List QueueItem) → Change QueueItem
saved r = do found ← r; ok (found.0, some found.1)

-- The items that the three operations below write for the item that they found.
unfoldable pub confirmed : String → QueueItem → Result QueueItem
confirmed now item =
    if not (is_recovery_required item.state)
    then err (value_error "task is not awaiting recovery")
    else ok (record item {
      state = pending;
      updated_at = now;
      last_error = "recovery explicitly confirmed";
    })

unfoldable pub completed : String → Bool → String → QueueItem → Result QueueItem
completed now success error item =
    if not (is_running item.state)
    then err (value_error "only a running task can be completed")
    else ok (record item {
      state = if success then succeeded else failed;
      updated_at = now;
      last_error = text_take 500 error;
    })

unfoldable pub withdrawn : String → QueueItem → Result QueueItem
withdrawn now item =
    if not (is_pending item.state || is_recovery_required item.state)
    then err (value_error "only pending or recovery-required tasks can be cancelled")
    else ok (record item { state = cancelled; updated_at = now })

unfoldable pub claimed : String → QueueItem → QueueItem
claimed now item = record item {
  state = running;
  updated_at = now;
  attempts = next_int item.attempts;
  last_error = "";
}

-- What the loop of `claim_next` found behind an item that it passed over.
abbrev pub pass_over :
    QueueItem → Option (QueueItem × List QueueItem) → Option (QueueItem × List QueueItem)
pass_over item none = none
pass_over item (some (found, after)) = some (found, item ∷ after)

-- The end of `claim_next`: save and return the claimed item, or return none.
abbrev pub claim_change : Option (QueueItem × List QueueItem) → Change (Option QueueItem)
claim_change none = ok (none, none)
claim_change (some (item, after)) = ok (some item, some after)

-- One round of the loop of `recover_running`.
unfoldable pub recovered : String → QueueItem → QueueItem
recovered now item =
    if is_running item.state
    then record item {
      state = recovery_required;
      updated_at = now;
      last_error =
          "worker restarted while task was running; explicit recovery confirmation required";
    }
    else item

-- `clock n` is the text of the time at the n-th item.
unfoldable pub recover_all : (ℕ → String) → ℕ → List QueueItem → List QueueItem
unfolding recovered
recover_all clock n [] = []
recover_all clock n (item ∷ items) = recovered (clock n) item ∷ recover_all clock (suc n) items

module _ (outside : Outside) where
  abbrev pub transact : {A : Type 0} → (List QueueItem → Change A) → File → Result A × File
  transact f file = with_loaded file f (load outside.calendar outside.convert file)

  -- `list`
  unfoldable pub list_items : File → Result (List QueueItem) × File
  list_items = transact (λ items. ok (items, none))

  unfoldable pub new_item : String → String → String → String → String → QueueItem
  new_item task_id task execution_id now scheduled = record {
    task_id = task_id;
    task = task;
    execution_id = execution_id;
    state = pending;
    created_at = now;
    updated_at = now;
    available_at = scheduled;
    attempts = pos 0;
    last_error = "";
  }

  -- The part of `enqueue` under the lock.
  unfoldable pub enqueue_item : QueueItem → List QueueItem → Change QueueItem
  enqueue_item item items =
      if any (λ (other : QueueItem). text_eq other.task_id item.task_id) items
      then err (value_error "task_id already exists")
      else do validate_item outside.calendar item; ok (item, some (items ++ item ∷ []))

  -- `available_at or _now()`
  abbrev pub or_now : Option String → String → String
  or_now none now = now
  or_now (some s) now = if is_empty s then now else s

  -- The part of `enqueue` before the lock; `now` is what the later `_now()` gives.
  unfoldable pub prepare :
      String → String → String → Option String → String → String → Result QueueItem
  unfolding new_item
  prepare task task_id execution_id available_at arrival now = do
    normalized ← safe_task outside.redact task
    let task_id' = strip task_id
    let execution_id' = strip execution_id
    raise_if
        (is_empty task_id'
          || is_empty execution_id'
          || ltb 128 (text_length task_id')
          || ltb 128 (text_length execution_id'))
        (value_error "task_id and execution_id are required and bounded")
    let scheduled = or_now available_at arrival
    validate_timestamp outside.calendar scheduled "available_at"
    ok (new_item task_id' normalized execution_id' now scheduled)

  abbrev pub transact_prepared : Result QueueItem → File → Result QueueItem × File
  transact_prepared (ok item) file = transact (enqueue_item item) file
  transact_prepared (err e) file = (err e, file)

  -- `arrival` is the first call of `_now()`, `now` the one under the lock.
  unfoldable pub enqueue :
      String → String → String → Option String → String → String → File → Result QueueItem × File
  unfolding enqueue_item prepare
  enqueue task task_id execution_id available_at arrival now file =
      transact_prepared (prepare task task_id execution_id available_at arrival now) file

  unfoldable pub recover_items : (ℕ → String) → List QueueItem → Change (List QueueItem)
  recover_items clock items =
      let recovered_items = recover_all clock 0 items in
      ok (
        keep (λ item. is_recovery_required item.state) recovered_items,
        if any (λ (item : QueueItem). is_running item.state) items
            then some recovered_items
            else none,
      )

  unfoldable pub recover_running : (ℕ → String) → File → Result (List QueueItem) × File
  unfolding recover_items
  recover_running clock = transact (recover_items clock)

  unfoldable pub confirm_recovery : String → String → File → Result QueueItem × File
  confirm_recovery task_id now =
      transact (λ items. saved (update_first task_id (confirmed now) items))

  -- The loop of `claim_next`; `instant` is the time that `ready` reads.
  unfoldable pub claim_first :
      ℕ → String → List QueueItem → Result (Option (QueueItem × List QueueItem))
  claim_first instant now [] = ok none
  claim_first instant now (item ∷ items) =
      let later = claim_first instant now items >>= λ rest. ok (pass_over item rest) in
      if is_pending item.state
      then (do
        due ← ready outside.calendar instant item
        if due then ok (some (claimed now item, claimed now item ∷ items)) else later)
      else later

  unfoldable pub claim_items : ℕ → String → List QueueItem → Change (Option QueueItem)
  unfolding claim_first
  claim_items instant now items = claim_first instant now items >>= claim_change

  unfoldable pub claim_next : ℕ → String → File → Result (Option QueueItem) × File
  unfolding claim_items
  claim_next instant now = transact (claim_items instant now)

  unfoldable pub complete : String → Bool → String → String → File → Result QueueItem × File
  complete task_id success error now =
      transact (λ items. saved (update_first task_id (completed now success error) items))

  unfoldable pub cancel : String → String → File → Result QueueItem × File
  cancel task_id now = transact (λ items. saved (update_first task_id (withdrawn now) items))
