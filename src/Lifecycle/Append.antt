-- ===== src/Lifecycle/Append.antt =====
-- lifecycle_ledger.py: `append_transition`.
use autonomous_ai_scout.Base.{
  ◌+◌, String, not, ◌&&◌, Option, none, some, Result, ok, err, ◌>>=◌, ◌>>◌, raise_if, value_error,
  os_error, [], ◌∷◌, ◌++◌, List, all, length, keep, last?, is_nil, text_eq, is_empty, strip, insert,
}
use autonomous_ai_scout.Lifecycle.State.{
  LifecycleState, value, StateInput, can_transition, read_state,
}
use autonomous_ai_scout.Lifecycle.Ledger.{
  Event, entry, LedgerFile, missing, unreadable, lines_of, unended, Tail, spaces, text, tail_line,
  Line, Outside, get_or, sort_fields, canonical_payload, read_events, read_lines, is_blank_line,
  require, require_state, is_of,
}

module _ (outside : Outside) where
  -- The event that `append_transition` writes, behind its hash.
  unfoldable pub draft : String → String → String → String → String → String → Event
  draft action_id sequence from_state to_state timestamp previous_hash =
      ("action_id", action_id)
      ∷ ("sequence", sequence)
      ∷ ("from_state", from_state)
      ∷ ("to_state", to_state)
      ∷ ("timestamp", timestamp)
      ∷ ("previous_hash", previous_hash)
      ∷ []

  -- `event["event_hash"] = ...`, written with its keys sorted.
  unfoldable pub sealed : Event → Event
  unfolding canonical_payload insert sort_fields
  sealed event = sort_fields (insert "event_hash" (outside.sha256 (canonical_payload event)) event)

  -- The line that an object makes with the text before it on its line.
  abbrev pub joined : Tail → Event → Line
  joined spaces event = entry event
  joined (text line) event = Line.broken

  -- `handle.write(json.dumps(event) + "\n")` at the end of the file.
  abbrev pub add_line : LedgerFile → Event → LedgerFile
  add_line missing event = lines_of (entry event ∷ [])
  add_line unreadable event = unreadable
  add_line (lines_of lines) event = lines_of (lines ++ entry event ∷ [])
  add_line (unended lines tail) event = lines_of (lines ++ joined tail event ∷ [])

  abbrev pub check_lines : List Line → Result (Unit {0})
  check_lines lines =
      raise_if (is_nil (get_or [] (read_lines lines)) && not (all is_blank_line lines))
        (value_error "lifecycle ledger is unreadable")

  -- `if path.exists() and not existing and path.read_text().strip()`
  unfoldable pub check_readable : LedgerFile → Result (Unit {0})
  unfolding read_lines
  check_readable missing = ok tt
  check_readable unreadable = err (os_error "the ledger cannot be read")
  check_readable (lines_of lines) = check_lines lines
  check_readable (unended lines tail) = check_lines (lines ++ tail_line tail ∷ [])

  -- `action_events[-1][k]`, none where the action has no events.
  abbrev pub last_field : String → Option Event → Result (Option String)
  last_field k none = ok none
  last_field k (some event) = require k event >>= λ s. ok (some s)

  abbrev pub check_start : Option String → String → Result (Unit {0})
  check_start none current =
      raise_if (not (text_eq current "proposed"))
        (value_error "first ledger transition must begin at proposed state")
  check_start (some last) current =
      raise_if (not (text_eq last current))
        (value_error "ledger current state does not match requested transition")

  -- The part of `append_transition` under the lock: the event that is appended.
  unfoldable pub next_event : String → String → String → String → LedgerFile → Result Event
  unfolding read_events keep draft sealed require is_of check_readable
  next_event action_id current target now file =
      let events = keep (is_of outside action_id) (read_events file) in
      do
        check_readable file
        start ← last_field "to_state" (last? events)
        check_start start current
        previous ← last_field "event_hash" (last? events)
        ok (
            sealed (
              draft action_id (outside.show_int (length events + 1)) current target now
                (get_or "" previous)))

  abbrev pub written : LedgerFile → Result Event → Result Event × LedgerFile
  written file (ok event) = (ok event, add_line file event)
  written file (err e) = (err e, file)

  unfoldable pub state_value : Option LifecycleState → Result String
  unfolding value
  state_value o = require_state o >>= λ state. ok (value state)

  -- `append_transition`, of a text: the event that it appended, and the ledger.
  unfoldable pub append_transition :
      String → StateInput → StateInput → String → LedgerFile → Result Event × LedgerFile
  unfolding can_transition read_state next_event state_value
  append_transition action_id current target now file = written file (do
    raise_if (is_empty (strip action_id)) (value_error "action_id must not be empty")
    raise_if (not (can_transition current target).allowed)
        (value_error (can_transition current target).reason)
    from ← state_value (read_state current)
    to ← state_value (read_state target)
    next_event (strip action_id) from to now file)
