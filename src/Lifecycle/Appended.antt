-- ===== src/Lifecycle/Appended.antt =====
-- lifecycle_ledger.py: what `append_transition` leaves behind.
use autonomous_ai_scout.Base.{
  ℕ, ◌+◌, String, ◌≡◌, refl, sym, ◌∙◌, ap, Bool, true, false, not, ◌&&◌, Option, none, some, Result,
  ok, err, ◌>>=◌, >>=-eq-ok, >>-eq-ok, err-ne-ok, raise_if-eq-ok, List, [], ◌∷◌, ◌++◌, all, keep,
  last?, is_nil, length, arith, text_eq_iff, lookup, ℤ, pos, ok-injective, is_blank, is_empty,
  strip, raise_if, value_error, strip-is_blank, last?-snoc, keep-append, is_nil-snoc,
}
use mathlib.Core.Bool.{false≢true}
use autonomous_ai_scout.Lifecycle.State.{
  LifecycleState, value, parse_state, can_transition, read_state, StateInput, decide_read, proposed,
}
use autonomous_ai_scout.Lifecycle.Spine.{parse_state-value}
use autonomous_ai_scout.Lifecycle.Ledger.{
  Event, entry, Line, LedgerFile, missing, unreadable, lines_of, unended, Outside, LifecycleEvent,
  get_or, Seen, nothing_seen, expected_from, require, read_lines, read_events, is_blank_line,
  read_event, check_event, see, verify_events, verify_ledger, verify_lines, is_of, is_ok, read_all,
  load_action_events, state_of_last, action_state,
}
use autonomous_ai_scout.Lifecycle.Append.{
  add_line, last_field, check_start, check_readable, next_event, written, state_value,
  append_transition,
}
use autonomous_ai_scout.Lifecycle.History.{events-verified, Follows-verified}
use autonomous_ai_scout.Lifecycle.Tracks.{Known, Tracks, Tracks-next, Tracks-verified}
use autonomous_ai_scout.Lifecycle.Sealed.{
  read_lines-snoc, event, item_of, read-sealed, is_of-sealed, check_event-sealed,
}

-- What is read off the last event is what the check keeps.
Known-hash :
    (outside : Outside) (number : Option ℤ) (hash state : Option String) (n : ℕ)
    (last : Option Event) (found : Option String)
    → Known number hash state n last
    → last_field outside "event_hash" last ≡ ok found
    → found ≡ hash
unfolding require
Known-hash outside number hash state n none found k h = ground (arith, k, h)
Known-hash outside number hash state n (some e) found k h = ground (arith, k, h)

Known-state :
    (outside : Outside) (number : Option ℤ) (hash state : Option String) (n : ℕ)
    (last : Option Event) (found : Option String)
    → Known number hash state n last
    → last_field outside "to_state" last ≡ ok found
    → found ≡ state
unfolding require
Known-state outside number hash state n none found k h = ground (arith, k, h)
Known-state outside number hash state n (some e) found k h = ground (arith, k, h)

check_start-from :
    (outside : Outside) (start : Option String) (from : String)
    → check_start outside start from ≡ ok tt
    → from ≡ expected_from start
check_start-from outside none from h = ground (arith, h, text_eq_iff from "proposed")
check_start-from outside (some last) from h = ground (arith, h, text_eq_iff last from)

-- The file is missing, or empty, or its last line ends with a line break.
abbrev pub ends_line : LedgerFile → Bool
ends_line (unended lines tail) = false
ends_line _ = true

blank-lines : (lines : List Line) → all is_blank_line lines ≡ true → read_lines lines ≡ some []
unfolding read_lines
blank-lines [] h = refl
blank-lines (Line.blank ∷ lines) h = blank-lines lines h
blank-lines (Line.broken ∷ lines) h = cc
blank-lines (entry e ∷ lines) h = cc

module _ (outside : Outside) where
  verify_events-snoc :
      (seen : Seen) (events : List Event) (event : Event) (final : Seen)
      → verify_events outside seen events ≡ ok final
      → verify_events outside seen (events ++ event ∷ []) ≡ verify_events outside final (event ∷ [])
  unfolding verify_events
  verify_events-snoc seen [] event final h = rw (ok-injective h) refl
  verify_events-snoc seen (e ∷ events) event final h =
      let (item, read, h1) = >>=-eq-ok (read_event outside e) _ h in
      let (checked, h2) = >>-eq-ok (check_event outside seen e item) _ h1 in
      rw read rw checked (verify_events-snoc (see outside item seen) events event final h2)

  read_all-snoc :
      (events : List Event) (event : Event) (items : List LifecycleEvent) (item : LifecycleEvent)
      → read_all outside events ≡ ok items
      → read_event outside event ≡ ok item
      → read_all outside (events ++ event ∷ []) ≡ ok (items ++ item ∷ [])
  unfolding read_all
  read_all-snoc [] event items item h e = rw e rw (← ok-injective h) refl
  read_all-snoc (x ∷ events) event items item h e =
      let (first, read, h1) = >>=-eq-ok (read_event outside x) _ h in
      let (rest, others, h2) = >>=-eq-ok (read_all outside events) _ h1 in
      rw read rw (read_all-snoc events event rest item others e) rw (← ok-injective h2) refl

  ends_line-add_line :
      (file : LedgerFile) (event : Event)
      → ends_line file ≡ true
      → ends_line (add_line outside file event) ≡ true
  ends_line-add_line missing e ended = refl
  ends_line-add_line unreadable e ended = refl
  ends_line-add_line (lines_of lines) e ended = refl
  ends_line-add_line (unended lines tail) e ended = refl

  -- A ledger that verifies can be read, and an event that is added to it on a line of its own is the
  -- last one of it.
  read_events-add_line :
      (file : LedgerFile) (event : Event)
      → ends_line file ≡ true
      → verify_ledger outside file ≡ true
      → read_events (add_line outside file event) ≡ read_events file ++ event ∷ []
  unfolding verify_ledger verify_lines read_events read_lines
  read_events-add_line missing event ended h = refl
  read_events-add_line unreadable event ended h = absurd (false≢true h)
  read_events-add_line (unended lines tail) event ended h = absurd (false≢true ended)
  read_events-add_line (lines_of lines) event ended h = added (read_lines lines) refl h
    where
      added :
          (found : Option (List Event))
          → read_lines lines ≡ found
          → (not (not (all is_blank_line lines) && is_nil (get_or [] found))
              && is_ok outside (verify_events outside nothing_seen (get_or [] found)))
            ≡ true
          → get_or [] (read_lines (lines ++ entry event ∷ []))
            ≡ get_or [] (read_lines lines) ++ event ∷ []
      added none same k = ground (arith, same, k, blank-lines lines)
      added (some events) same k = rw (read_lines-snoc lines event events same) rw same refl

  written-ok :
      (file : LedgerFile) (r : Result Event) (after : LedgerFile) (added : Event)
      → written outside file r ≡ (ok added, after)
      → (r ≡ ok added) × (after ≡ add_line outside file added)
  written-ok file (ok e) after added h = ground (arith, h)
  written-ok file (err e) after added h = absurd (err-ne-ok (ap (λ p. p.0) h))

  state_value-then :
      (o : Option LifecycleState) (next : String → Result Event) (added : Event)
      → (state_value outside o >>= next) ≡ ok added
      → (u : LifecycleState) × (o ≡ some u) × (next (value u) ≡ ok added)
  unfolding state_value
  state_value-then none next added h = absurd (err-ne-ok h)
  state_value-then (some u) next added h = (u, refl, h)

  -- What `append_transition` has found where it returns an event.
  append-parts :
      (action_id : String) (current target : StateInput) (now : String) (file after : LedgerFile)
      (added : Event)
      → append_transition outside action_id current target now file ≡ (ok added, after)
      → (s : LifecycleState) × (t : LifecycleState) × (is_empty (strip action_id) ≡ false)
        × ((can_transition current target).allowed ≡ true)
        × (read_state current ≡ some s)
        × (read_state target ≡ some t)
        × (next_event outside (strip action_id) (value s) (value t) now file ≡ ok added)
        × (after ≡ add_line outside file added)
  unfolding append_transition
  append-parts action_id current target now file after added h =
      let whole = written-ok file _ after added h in
      let (filled, h1) =
        >>-eq-ok (raise_if (is_empty (strip action_id)) (value_error "action_id must not be empty"))
          _ whole.0 in
      let (legal, h2) =
        >>-eq-ok
          (raise_if (not (can_transition current target).allowed)
            (value_error (can_transition current target).reason))
          _ h1 in
      let (s, first, h3) = state_value-then (read_state current) _ added h2 in
      let (t, second, h4) = state_value-then (read_state target) _ added h3 in
      (
        s,
        t,
        raise_if-eq-ok (is_empty (strip action_id)) _ filled,
        ground (arith, raise_if-eq-ok (not (can_transition current target).allowed) _ legal),
        first,
        second,
        h4,
        whole.1,
      )

  -- The parts of the event: its hash and its start are those of the last event of the action.
  next_event-parts :
      (a from to now : String) (file : LedgerFile) (added : Event)
      → next_event outside a from to now file ≡ ok added
      → (start : Option String) × (previous : Option String) × (last_field outside "to_state"
            (last? (keep (is_of outside a) (read_events file)))
          ≡ ok start)
        × (check_start outside start from ≡ ok tt)
        × (last_field outside "event_hash" (last? (keep (is_of outside a) (read_events file)))
            ≡ ok previous)
        × (added
            ≡ event outside a
                (outside.show_int (length (keep (is_of outside a) (read_events file)) + 1))
                from
                to
                now
                (get_or "" previous))
  unfolding next_event event
  next_event-parts a from to now file added h =
      let events = keep (is_of outside a) (read_events file) in
      let (_, h1) = >>-eq-ok (check_readable outside file) _ h in
      let (start, e1, h2) = >>=-eq-ok (last_field outside "to_state" (last? events)) _ h1 in
      let (good, h3) = >>-eq-ok (check_start outside start from) _ h2 in
      let (previous, e2, h4) = >>=-eq-ok (last_field outside "event_hash" (last? events)) _ h3 in
      (start, previous, e1, good, e2, sym (ok-injective h4))

  verify_ledger-of_events :
      (file : LedgerFile) (final : Seen)
      → is_nil (read_events file) ≡ false
      → verify_events outside nothing_seen (read_events file) ≡ ok final
      → verify_ledger outside file ≡ true
  unfolding verify_ledger verify_lines read_events
  verify_ledger-of_events missing final some_event h = refl
  verify_ledger-of_events unreadable final some_event h = cc
  verify_ledger-of_events (lines_of lines) final some_event h = rw some_event rw h (ground arith)
  verify_ledger-of_events (unended lines tail) final some_event h =
      rw some_event rw h (ground arith)

  action_state-of_last :
      (file : LedgerFile) (a : String) (items : List LifecycleEvent) (item : LifecycleEvent)
      → is_blank a ≡ false
      → verify_ledger outside file ≡ true
      → read_all outside (keep (is_of outside a) (read_events file)) ≡ ok (items ++ item ∷ [])
      → action_state outside file a ≡ ok (parse_state item.to_state)
  unfolding action_state load_action_events state_of_last
  action_state-of_last file a items item filled valid h =
      rw filled rw valid rw h rw (last?-snoc items item) refl

  module _
      (parse_int-show_int : (n : ℕ) → outside.parse_int (outside.show_int n) ≡ ok (pos n)) where
    -- The event that is appended can be read, belongs to its action, and passes the check behind the
    -- events that are there.
    appended-checked :
        (file : LedgerFile) (a now : String) (s t : LifecycleState) (added : Event) (seen : Seen)
        → is_blank a ≡ false
        → (decide_read (some s) (some t)).allowed ≡ true
        → verify_events outside nothing_seen (read_events file) ≡ ok seen
        → next_event outside a (value s) (value t) now file ≡ ok added
        → (item : LifecycleEvent) × (read_event outside added ≡ ok item)
          × (item.to_state ≡ value t)
          × (is_of outside a added ≡ true)
          × (check_event outside seen added item ≡ ok tt)
    unfolding Tracks item_of
    appended-checked file a now s t added seen filled legal checked h =
        let es = keep (is_of outside a) (read_events file) in
        let (start, previous, e1, good, e2, same) =
          next_event-parts a (value s) (value t) now file added h in
        let tracks : Tracks a seen es =
          Tracks-verified outside a nothing_seen [] (read_events file) (refl, refl, refl, refl)
            checked in
        let number = lookup a seen.sequence_by_action in
        let hash = lookup a seen.previous_by_action in
        let state = lookup a seen.state_by_action in
        let hashed =
          Known-hash outside number hash state (length es) (last? es) previous tracks e2 in
        let moved = Known-state outside number hash state (length es) (last? es) start tracks e1 in
        let sequence = outside.show_int (length es + 1) in
        rw same (
          item_of outside a sequence (value s) (value t) now (get_or "" previous)
              (pos (length es + 1)),
          read-sealed outside a sequence (value s) (value t) now (get_or "" previous)
              (pos (length es + 1)) (parse_int-show_int (length es + 1)),
          refl,
          is_of-sealed outside a sequence (value s) (value t) now (get_or "" previous),
          check_event-sealed outside seen a sequence now s t (get_or "" previous)
              (pos (length es + 1)) filled (sym (Tracks-next outside seen a es tracks))
              (ap (get_or "") hashed)
              (check_start-from outside start (value s) good ∙ ap expected_from moved) legal,
        )

    -- On a ledger that verifies and ends with a line break, or has no text, a transition that
    -- `append_transition` accepts leaves a ledger that verifies and ends with a line break, in which
    -- the action is in the state that was asked for. It is assumed that `int` reads back what `str`
    -- writes of a number.
    pub append_transition-moves :
        (action_id : String) (current target : StateInput) (now : String) (file after : LedgerFile)
        (added : Event)
        → ends_line file ≡ true
        → verify_ledger outside file ≡ true
        → append_transition outside action_id current target now file ≡ (ok added, after)
        → (verify_ledger outside after ≡ true)
          × (ends_line after ≡ true)
          × (action_state outside after (strip action_id) ≡ ok (read_state target))
    unfolding verify_events keep can_transition
    append_transition-moves action_id current target now file after added ended valid h =
        let a = strip action_id in
        let (s, t, filled, legal, first, second, next, same) =
          append-parts action_id current target now file after added h in
        let (seen, checked) = events-verified outside file valid in
        let named_well = strip-is_blank action_id filled in
        let allowed : (decide_read (some s) (some t)).allowed ≡ true =
          rw (first, second) at legal in
        let (item, read, to, own, passes) =
          appended-checked file a now s t added seen named_well allowed checked next in
        let events : read_events after ≡ read_events file ++ added ∷ [] =
          rw same (read_events-add_line file added ended valid) in
        let last : verify_events outside seen (added ∷ []) ≡ ok (see outside item seen) =
          rw read rw passes refl in
        let final : verify_events outside nothing_seen (read_events after)
            ≡ ok (see outside item seen) =
          rw events
            (verify_events-snoc nothing_seen (read_events file) added seen checked ∙ last) in
        let still =
          verify_ledger-of_events after (see outside item seen)
            (rw events (is_nil-snoc (read_events file) added)) final in
        let (items, u, before, _) =
          Follows-verified outside a proposed nothing_seen (read_events file) refl checked in
        let kept : keep (is_of outside a) (read_events after)
            ≡ keep (is_of outside a) (read_events file) ++ added ∷ [] =
          rw events (
            keep-append (is_of outside a) (read_events file) (added ∷ [])
            ∙ ap (λ l. keep (is_of outside a) (read_events file) ++ l) (rw own refl)) in
        let all_read : read_all outside (keep (is_of outside a) (read_events after))
            ≡ ok (items ++ item ∷ []) =
          rw kept (
            read_all-snoc (keep (is_of outside a) (read_events file)) added items item before
              read) in
        (
          still,
          rw same (ends_line-add_line file added ended),
          action_state-of_last after a items item named_well still all_read
              ∙ ap ok (ap parse_state to ∙ parse_state-value t ∙ sym second),
        )
