-- ===== src/Lifecycle/Blocked.antt =====
-- lifecycle_recovery.py: what a recovery does to the ledger.
use autonomous_ai_scout.Base.{
  ℕ, ◌+◌, String, ◌≡◌, refl, ap, subst, sym, ◌∙◌, Bool, true, false, not, some, Result, ok,
  >>=-eq-ok, strip, pos, ◌⊎◌, inl, inr, arith, ok-injective, if◌then◌else◌, keep, List, [], ◌∷◌,
  last?, length, lookup, some-ne-none, is_empty, is_blank, Bool-cases, text_eq_iff,
}
use mathlib.Core.Bool.{false≢true}
use autonomous_ai_scout.Lifecycle.State.{
  LifecycleState, value, all_states, parse_state, claimed, executed, blocked, member,
  can_transition, read_state,
}
use autonomous_ai_scout.Lifecycle.Ledger.{
  Event, LedgerFile, missing, unreadable, lines_of, unended, Outside, LifecycleEvent, verify_lines,
  verify_ledger, action_state, load_action_events, read_event, read_all, read_events, state_of_last,
  is_of, require,
}
use autonomous_ai_scout.Lifecycle.Append.{
  append_transition, next_event, check_readable, sealed, draft, add_line, state_value,
}
use autonomous_ai_scout.Lifecycle.History.{find_state-value, action_state-last, history-Follows}
use autonomous_ai_scout.Lifecycle.Tracks.{read_event-fields}
use autonomous_ai_scout.Lifecycle.Appended.{ends_line, append_transition-moves}
use autonomous_ai_scout.Lifecycle.Recovery.{
  RecoveryDecision, missing_file, inspect_state, inspect_found, inspect_recovery, recover_inspected,
  recover_stale_execution,
}

-- What a recovery returns where it has blocked the action.
abbrev pub stopped : RecoveryDecision
stopped = record {
  recoverable = false;
  reason = "interrupted execution was terminally blocked";
  state = blocked;
}

module _ (outside : Outside) where
  -- The last of the events that are read.
  read_all-last :
      (events : List Event) (items : List LifecycleEvent) (s : LifecycleState)
      → read_all outside events ≡ ok items
      → state_of_last outside (last? items) ≡ some s
      → (event : Event) × (last? events ≡ some event)
        × (lookup "to_state" event ≡ some (value s))
        × ((hash : String) × (lookup "event_hash" event ≡ some hash))
  unfolding read_all state_of_last parse_state
  read_all-last [] items s h k = absurd (
      some-ne-none
        (sym (subst (λ l. state_of_last outside (last? l) ≡ some s) (sym (ok-injective h)) k)))
  read_all-last (x ∷ []) items s h k =
      let (item, read, h1) = >>=-eq-ok (read_event outside x) _ h in
      let fields = read_event-fields outside x item read in
      let to =
        find_state-value item.to_state all_states s
          (subst (λ l. state_of_last outside (last? l) ≡ some s) (sym (ok-injective h1)) k) in
      (x, refl, fields.1 ∙ ap some to, (item.event_hash, fields.0))
  read_all-last (x ∷ y ∷ events) items s h k =
      let (item, _, h1) = >>=-eq-ok (read_event outside x) _ h in
      let (rest, read, h2) = >>=-eq-ok (read_all outside (y ∷ events)) _ h1 in
      let (second, _, h3) = >>=-eq-ok (read_event outside y) _ read in
      let (others, _, h4) = >>=-eq-ok (read_all outside events) _ h3 in
      let two : items ≡ item ∷ second ∷ others =
        sym (ok-injective h2) ∙ ap (λ l. item ∷ l) (sym (ok-injective h4)) in
      read_all-last (y ∷ events) (second ∷ others) s (read ∙ sym h4)
        (subst (λ l. state_of_last outside (last? l) ≡ some s) two k)

  check_readable-verified :
      (file : LedgerFile) → verify_ledger outside file ≡ true → check_readable outside file ≡ ok tt
  unfolding check_readable verify_ledger verify_lines
  check_readable-verified missing h = refl
  check_readable-verified unreadable h = absurd (false≢true h)
  check_readable-verified (lines_of lines) h = ground (arith, h)
  check_readable-verified (unended lines tail) h = ground (arith, h)

  -- The event that blocks an action in some state.
  next_event-found :
      (a now : String) (s : LifecycleState) (file : LedgerFile)
      → verify_ledger outside file ≡ true
      → action_state outside file a ≡ ok (some s)
      → (event : Event) × (next_event outside a (value s) (value blocked) now file ≡ ok event)
  unfolding next_event require load_action_events
  next_event-found a now s file valid found =
      let (items, loaded, _) = history-Follows outside file a s valid found in
      let events = keep (is_of outside a) (read_events file) in
      let read : read_all outside events ≡ ok items = rw valid at loaded in
      let (event, last, to, (hash, hashed)) =
        read_all-last events items s read (action_state-last outside file a items s loaded found) in
      (
        sealed outside (
            draft outside a (outside.show_int (length events + 1)) (value s) (value blocked) now
              hash),
        rw
            (
              check_readable-verified file valid,
              last,
              to,
              (text_eq_iff (value s) (value s)).1 refl,
              hashed,
            )
            refl,
      )

  append_transition-writes :
      (a now : String) (s : LifecycleState) (file : LedgerFile) (event : Event)
      → is_empty (strip a) ≡ false
      → (can_transition (member s) (member blocked)).allowed ≡ true
      → next_event outside (strip a) (value s) (value blocked) now file ≡ ok event
      → append_transition outside a (member s) (member blocked) now file
        ≡ (ok event, add_line outside file event)
  unfolding append_transition state_value read_state
  append_transition-writes a now s file event filled legal next = rw (filled, legal, next) refl

  action_state-named :
      (file : LedgerFile) (a : String) (s : LifecycleState)
      → action_state outside file a ≡ ok (some s)
      → is_blank a ≡ false
  unfolding action_state
  action_state-named file a s found = elim (Bool-cases (is_blank a)) [
    | inl e ↦ absurd (some-ne-none (sym (ok-injective (rw e at found))))
    | inr e ↦ e
  ]

  present :
      (file : LedgerFile) (action_id : String) (s : LifecycleState)
      → action_state outside file action_id ≡ ok (some s)
      → missing_file file ≡ false
  unfolding action_state load_action_events verify_ledger read_all keep read_events state_of_last
  present missing action_id s h = ground (arith, h)
  present unreadable action_id s h = refl
  present (lines_of lines) action_id s h = refl
  present (unended lines tail) action_id s h = refl

  opened :
      (a b c : Result RecoveryDecision) (absent verifies : Bool)
      → absent ≡ false
      → verifies ≡ true
      → (if absent then a else if not verifies then b else c) ≡ c
  opened a b c absent verifies e f = rw (e, f) refl

  inspect_recovery-found :
      (file : LedgerFile) (action_id : String) (s : LifecycleState)
      → verify_ledger outside file ≡ true
      → action_state outside file action_id ≡ ok (some s)
      → inspect_recovery outside file action_id ≡ ok (inspect_state (some s))
  unfolding inspect_recovery
  inspect_recovery-found file action_id s valid found =
      opened _ _ _ (missing_file file) (verify_ledger outside file) (present file action_id s found)
        valid
      ∙ ap inspect_found found

  inspect_state-interrupted :
      (s : LifecycleState)
      → (s ≡ claimed) ⊎ (s ≡ executed)
      → ((inspect_state (some s)).recoverable ≡ true)
        × ((inspect_state (some s)).state ≡ s)
        × ((can_transition (member s) (member blocked)).allowed ≡ true)
  unfolding can_transition read_state
  inspect_state-interrupted s (inl e) = rw e (refl, refl, refl)
  inspect_state-interrupted s (inr e) = rw e (refl, refl, refl)

  recover_inspected-writes :
      (file after : LedgerFile) (a now : String) (d : RecoveryDecision) (s : LifecycleState)
      (event : Event)
      → d.recoverable ≡ true
      → d.state ≡ s
      → append_transition outside a (member s) (member blocked) now file ≡ (ok event, after)
      → recover_inspected outside file a now (ok d) ≡ (ok stopped, after)
  unfolding recover_inspected
  recover_inspected-writes file after a now d s event may same appended =
      rw (may, same, appended) refl

  -- In a ledger that verifies and ends with a line break, a recovery of an action that is claimed or
  -- executed, and whose name has no space around it, never resumes it: it appends to the ledger, which
  -- verifies afterwards and has the action as blocked, and it reports the action as blocked and not as
  -- recoverable. It is assumed that `int` reads back what `str` writes of a number.
  pub recover-blocks :
      (parse_int-show_int : (n : ℕ) → outside.parse_int (outside.show_int n) ≡ ok (pos n))
      (now action_id : String) (file : LedgerFile) (s : LifecycleState)
      → strip action_id ≡ action_id
      → ends_line file ≡ true
      → verify_ledger outside file ≡ true
      → action_state outside file action_id ≡ ok (some s)
      → (s ≡ claimed) ⊎ (s ≡ executed)
      → (after : LedgerFile) × (recover_stale_execution outside now action_id file
          ≡ (ok stopped, after))
        × (verify_ledger outside after ≡ true)
        × (ends_line after ≡ true)
        × (action_state outside after action_id ≡ ok (some blocked))
  unfolding recover_stale_execution read_state
  recover-blocks parse_int-show_int now action_id file s trimmed ended valid found interrupted =
      let (recoverable, same, legal) = inspect_state-interrupted s interrupted in
      let (event, next) = next_event-found action_id now s file valid found in
      let filled = action_state-named file action_id s found in
      let appended = append_transition-writes action_id now s file event filled legal (
        subst (λ a. next_event outside a (value s) (value blocked) now file ≡ ok event)
          (sym trimmed) next) in
      let after = add_line outside file event in
      let (still, ended', moved) =
        append_transition-moves outside parse_int-show_int action_id (member s) (member blocked) now
          file after event ended valid appended in
      (
        after,
        ap (recover_inspected outside file action_id now)
              (inspect_recovery-found file action_id s valid found)
            ∙ recover_inspected-writes file after action_id now (inspect_state (some s)) s event
                recoverable same appended,
        still,
        ended',
        subst (λ a. action_state outside after a ≡ ok (some blocked)) trimmed moved,
      )
