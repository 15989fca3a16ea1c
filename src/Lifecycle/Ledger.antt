-- ===== src/Lifecycle/Ledger.antt =====
-- lifecycle_ledger.py: the ledger of transitions, one JSON object to a line, each chained to the last
-- one of its action by a hash. The lock makes each call one step on the file.
use autonomous_ai_scout.Base.{
  ℕ, String, Bool, true, false, not, ◌&&◌, Option, none, some, Result, ok, err, ◌>>=◌, ◌>>◌,
  raise_if, value_error, key_error, List, [], ◌∷◌, ◌++◌, all, keep, last?, is_nil, text_eq, text_le,
  if◌then◌else◌, is_blank, Dict, lookup, insert, erase, ℤ, pos, next_int, ◌==◌,
}
use autonomous_ai_scout.Lifecycle.State.{
  StateInput, read_state, same_state, LifecycleState, named, can_transition, parse_state,
}

abbrev pub Event : Type 0
Event = Dict String

-- A line of the ledger: whitespace, a text that is no JSON object, or an object, with `str` applied to
-- its keys and values.
pub data Line : Type 0 where
  blank broken : Line
  entry : Event → Line

-- The text behind the last line break of a file: the whitespace that JSON allows, or a line.
pub data Tail : Type 0 where
  spaces : Tail
  text : Line → Tail

abbrev pub tail_line : Tail → Line
tail_line spaces = blank
tail_line (text line) = line

-- The lines of a file whose last line ends with a line break, or an empty file, and those of a file
-- with a text behind the last line break.
pub data LedgerFile : Type 0 where
  missing unreadable : LedgerFile
  lines_of : List Line → LedgerFile
  unended : List Line → Tail → LedgerFile

-- `int(text)`; `str(int)`; and the hash of the compact JSON text of an object.
pub record Outside : Type 0 where
  pub parse_int : String → Result ℤ
  pub show_int : ℕ → String
  pub sha256 : Event → String

pub record LifecycleEvent : Type 0 where
  pub action_id : String
  pub sequence : ℤ
  pub from_state : String
  pub to_state : String
  pub timestamp : String
  pub previous_hash : String
  pub event_hash : String

-- `d.get(k, default)`
abbrev pub get_or {ℓ} : {A : Type ℓ} → A → Option A → A
get_or default none = default
get_or default (some a) = a

-- `sort_keys=True`
unfoldable pub insert_field : String × String → Event → Event
insert_field e [] = e ∷ []
insert_field e (f ∷ d) =
    let rest = insert_field e d in if text_le e.0 f.0 then e ∷ f ∷ d else f ∷ rest

unfoldable pub sort_fields : Event → Event
unfolding insert_field
sort_fields [] = []
sort_fields (e ∷ d) = insert_field e (sort_fields d)

-- The object of `_canonical_payload`.
unfoldable pub canonical_payload : Event → Event
unfolding sort_fields erase
canonical_payload event = sort_fields (erase "event_hash" event)

abbrev pub cons_event : Event → Option (List Event) → Option (List Event)
cons_event event none = none
cons_event event (some events) = some (event ∷ events)

-- The loop of `_read_events`, none where it returns no events for a line that is broken.
unfoldable pub read_lines : List Line → Option (List Event)
read_lines [] = some []
read_lines (blank ∷ lines) = read_lines lines
read_lines (broken ∷ lines) = none
read_lines (entry event ∷ lines) = cons_event event (read_lines lines)

-- `_read_events`
unfoldable pub read_events : LedgerFile → List Event
unfolding read_lines
read_events missing = []
read_events unreadable = []
read_events (lines_of lines) = get_or [] (read_lines lines)
read_events (unended lines tail) = get_or [] (read_lines (lines ++ tail_line tail ∷ []))

abbrev pub is_blank_line : Line → Bool
is_blank_line blank = true
is_blank_line _ = false

-- What the loop of `_verify_ledger_unlocked` keeps for each action.
pub record Seen : Type 0 where
  pub previous_by_action : Dict String
  pub sequence_by_action : Dict ℤ
  pub state_by_action : Dict String

abbrev pub nothing_seen : Seen
nothing_seen = record { previous_by_action = []; sequence_by_action = []; state_by_action = [] }

abbrev pub same_int : ℤ → ℤ → Bool
same_int (pos m) (pos n) = m == n
same_int (ℤ.negsuc m) (ℤ.negsuc n) = m == n
same_int _ _ = false

abbrev pub is_some {ℓ} : {A : Type ℓ} → Option A → Bool
is_some none = false
is_some (some a) = true

-- The state from which the next transition of an action starts.
abbrev pub expected_from : Option String → String
expected_from none = "proposed"
expected_from (some state) = state

-- `event[k]`
abbrev pub require_found : String → Option String → Result String
require_found k none = err (key_error k)
require_found k (some s) = ok s

unfoldable pub require : String → Event → Result String
unfolding lookup
require k event = require_found k (lookup k event)

abbrev pub require_state : Option LifecycleState → Result LifecycleState
require_state none = err (value_error "not a valid LifecycleState")
require_state (some state) = ok state

-- The text is the one that the hash of the event must be.
abbrev pub stop_unless : Bool → Result (Unit {0})
stop_unless b = raise_if (not b) (value_error "the ledger is invalid")

module _ (outside : Outside) where
  abbrev pub parse_sequence : String → Result ℤ
  parse_sequence s = outside.parse_int s

  -- `LifecycleEvent(...)` of an event.
  unfoldable pub read_event : Event → Result LifecycleEvent
  unfolding require
  read_event event = do
    action_id ← require "action_id" event
    sequence ← require "sequence" event
    number ← parse_sequence sequence
    from_state ← require "from_state" event
    to_state ← require "to_state" event
    timestamp ← require "timestamp" event
    previous_hash ← require "previous_hash" event
    event_hash ← require "event_hash" event
    ok (record {
      action_id = action_id;
      sequence = number;
      from_state = from_state;
      to_state = to_state;
      timestamp = timestamp;
      previous_hash = previous_hash;
      event_hash = event_hash;
    })

  -- The checks of one event behind its reading, against what the events before it left. An error
  -- stands for `return False`. A hash with a character outside ASCII, for which `compare_digest` raises,
  -- counts as one that differs.
  unfoldable pub check_event : Seen → Event → LifecycleEvent → Result (Unit {0})
  unfolding lookup parse_state can_transition canonical_payload
  check_event seen event item = do
    stop_unless (not (is_blank item.action_id))
    from ← require_state (parse_state item.from_state)
    to ← require_state (parse_state item.to_state)
    stop_unless (
        same_int item.sequence
          (next_int (get_or (pos 0) (lookup item.action_id seen.sequence_by_action))))
    stop_unless
        (text_eq item.previous_hash (get_or "" (lookup item.action_id seen.previous_by_action)))
    stop_unless
        (text_eq item.from_state (expected_from (lookup item.action_id seen.state_by_action)))
    stop_unless (can_transition (named item.from_state) (named item.to_state)).allowed
    stop_unless (text_eq item.event_hash (outside.sha256 (canonical_payload event)))

  unfoldable pub see : LifecycleEvent → Seen → Seen
  unfolding insert
  see item seen = record {
    previous_by_action = insert item.action_id item.event_hash seen.previous_by_action;
    sequence_by_action = insert item.action_id item.sequence seen.sequence_by_action;
    state_by_action = insert item.action_id item.to_state seen.state_by_action;
  }

  -- The loop of `_verify_ledger_unlocked`: what it has seen behind all the events.
  unfoldable pub verify_events : Seen → List Event → Result Seen
  unfolding read_event check_event see
  verify_events seen [] = ok seen
  verify_events seen (event ∷ events) = do
    item ← read_event event
    check_event seen event item
    verify_events (see item seen) events

  abbrev pub is_ok {ℓ} : {A : Type ℓ} → Result A → Bool
  is_ok (ok a) = true
  is_ok (err e) = false

  -- The part of `_verify_ledger_unlocked` on the lines of a file.
  unfoldable pub verify_lines : List Line → Bool
  unfolding verify_events read_lines
  verify_lines lines =
      let events = get_or [] (read_lines lines) in
      not (not (all is_blank_line lines) && is_nil events)
      && is_ok (verify_events nothing_seen events)

  -- `_verify_ledger_unlocked`
  unfoldable pub verify_ledger : LedgerFile → Bool
  unfolding verify_lines
  verify_ledger missing = true
  verify_ledger unreadable = false
  verify_ledger (lines_of lines) = verify_lines lines
  verify_ledger (unended lines tail) = verify_lines (lines ++ tail_line tail ∷ [])

  -- `[event for event in events if event.get("action_id") == action_id]`
  unfoldable pub is_of : String → Event → Bool
  unfolding lookup
  is_of action_id event =
      is_some (lookup "action_id" event) && text_eq (get_or "" (lookup "action_id" event)) action_id

  unfoldable pub read_all : List Event → Result (List LifecycleEvent)
  unfolding read_event
  read_all [] = ok []
  read_all (event ∷ events) = do item ← read_event event; items ← read_all events; ok (item ∷ items)

  -- `load_action_events`
  unfoldable pub load_action_events : LedgerFile → String → Result (List LifecycleEvent)
  unfolding verify_ledger read_all keep is_of
  load_action_events file action_id =
      let events = read_all (keep (is_of action_id) (read_events file)) in
      if not (verify_ledger file) then ok [] else events

  unfoldable pub state_of_last : Option LifecycleEvent → Option LifecycleState
  unfolding parse_state
  state_of_last none = none
  state_of_last (some event) = parse_state event.to_state

  -- `action_state`, of a text
  unfoldable pub action_state : LedgerFile → String → Result (Option LifecycleState)
  unfolding load_action_events state_of_last
  action_state file action_id =
      let found =
        load_action_events file action_id >>= λ events. ok (state_of_last (last? events)) in
      if is_blank action_id then ok none else found

  abbrev pub is_state : Option LifecycleState → LifecycleState → Bool
  is_state none wanted = false
  is_state (some state) wanted = same_state state wanted

  -- `verify_action_state`
  unfoldable pub verify_action_state : LedgerFile → String → StateInput → Result Bool
  unfolding action_state read_state
  verify_action_state file action_id wanted =
      let found = action_state file action_id in
      elim (read_state wanted) [
        | none ↦ ok false
        | some state ↦ found >>= λ o. ok (is_state o state)
      ]
