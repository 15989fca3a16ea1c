-- ===== src/Queue/Item.antt =====
-- `QueueState`, `QueueItem`, `_safe_task` and the validation of an item (task_queue.py).
use autonomous_ai_scout.Base.{
  ℕ, String, ◌≡◌, refl, Bool, true, false, not, ◌||◌, none, some, Result, ok, err, ◌>>=◌, ◌>>◌,
  raise_if, value_error, ℤ, int_within, text_eq, if◌then◌else◌, ltb, leb, is_blank, is_empty,
  text_length, text_take, squeeze, ◌+++◌,
}
use autonomous_ai_scout.Clock.{Calendar, replace_z}

pub data QueueState : Type 0 where
  pending running recovery_required succeeded failed cancelled : QueueState

-- `state.value`
unfoldable pub state_text : QueueState → String
state_text pending = "pending"
state_text running = "running"
state_text recovery_required = "recovery_required"
state_text succeeded = "succeeded"
state_text failed = "failed"
state_text cancelled = "cancelled"

-- `QueueState(value)`
unfoldable pub parse_state : String → Result QueueState
parse_state s =
    if text_eq s "pending"
    then ok pending
    else if text_eq s "running"
    then ok running
    else if text_eq s "recovery_required"
    then ok recovery_required
    else if text_eq s "succeeded"
    then ok succeeded
    else if text_eq s "failed"
    then ok failed
    else if text_eq s "cancelled"
    then ok cancelled
    else err (value_error ("'" +++ s +++ "' is not a valid QueueState"))

abbrev pub is_pending : QueueState → Bool
is_pending pending = true
is_pending _ = false

abbrev pub is_running : QueueState → Bool
is_running running = true
is_running _ = false

abbrev pub is_recovery_required : QueueState → Bool
is_recovery_required recovery_required = true
is_recovery_required _ = false

pub record QueueItem : Type 0 where
  pub task_id : String
  pub task : String
  pub execution_id : String
  pub state : QueueState
  pub created_at : String
  pub updated_at : String
  pub available_at : String
  pub attempts : ℤ
  pub last_error : String

-- `_safe_task`; `redact` stands for the substitutions of `_TASK_SECRET_PATTERNS`.
unfoldable pub safe_task : (String → String) → String → Result String
safe_task redact value =
    let normalized = squeeze (redact value) in
    if is_empty normalized
    then err (value_error "queued task must be non-empty")
    else ok (text_take 4000 normalized)

module _ (calendar : Calendar) where
  -- `_parse_time`: a timestamp without a timezone is read as UTC.
  unfoldable pub parse_time : String → Result ℕ
  parse_time value = elim (calendar.from_iso value) [
    | none ↦ err (value_error "Invalid isoformat string")
    | some stamp ↦ ok stamp.instant
  ]

  -- `QueueItem.ready`, at the instant `now`
  unfoldable pub ready : ℕ → QueueItem → Result Bool
  unfolding parse_time
  ready now item = do at ← parse_time item.available_at; ok (leb at now)

  unfoldable pub validate_timestamp : String → String → Result (Unit {0})
  validate_timestamp value label = elim (calendar.from_iso (replace_z value)) [
    | none ↦ err (value_error (label +++ " is invalid"))
    | some stamp ↦
        if stamp.aware then ok tt else err (value_error (label +++ " must include a timezone"))
  ]

  unfoldable pub validate_item : QueueItem → Result (Unit {0})
  validate_item item = do
    raise_if (is_blank item.task_id || ltb 128 (text_length item.task_id))
        (value_error "task_id is invalid")
    raise_if (is_blank item.execution_id || ltb 128 (text_length item.execution_id))
        (value_error "execution_id is invalid")
    raise_if (is_empty item.task || ltb 4000 (text_length item.task))
        (value_error "queued task exceeds the size limit")
    raise_if (not (int_within 1000 item.attempts)) (value_error "queue attempt count is invalid")
    raise_if (ltb 500 (text_length item.last_error)) (value_error "queue error is too large")
    validate_timestamp item.created_at "created_at"
    validate_timestamp item.updated_at "updated_at"
    validate_timestamp item.available_at "available_at"

  abbrev pub IsValidItem : QueueItem → Type 0
  IsValidItem item = validate_item item ≡ ok tt

pub parse_state-state_text : (s : QueueState) → parse_state (state_text s) ≡ ok s
unfolding parse_state state_text
parse_state-state_text pending = refl
parse_state-state_text _ = refl
