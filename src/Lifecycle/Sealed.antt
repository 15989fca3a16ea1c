-- ===== src/Lifecycle/Sealed.antt =====
-- lifecycle_ledger.py: the event that `append_transition` seals, as the check of the ledger reads it.
use autonomous_ai_scout.Base.{
  String, ◌≡◌, refl, true, false, Option, none, some, ok, List, [], ◌∷◌, ◌++◌, arith, text_eq_refl,
  lookup, insert, ℤ, pos, next_int, is_blank,
}
use autonomous_ai_scout.Lifecycle.State.{
  LifecycleState, value, can_transition, read_state, decide_read,
}
use autonomous_ai_scout.Lifecycle.Spine.{parse_state-value}
use autonomous_ai_scout.Lifecycle.Ledger.{
  Event, entry, Line, Outside, LifecycleEvent, get_or, same_int, Seen, expected_from, require,
  read_lines, read_event, check_event, is_of, canonical_payload, sort_fields, cons_event,
}
use autonomous_ai_scout.Lifecycle.Append.{draft, sealed}

pub read_lines-snoc :
    (lines : List Line) (event : Event) (events : List Event)
    → read_lines lines ≡ some events
    → read_lines (lines ++ entry event ∷ []) ≡ some (events ++ event ∷ [])
unfolding read_lines
read_lines-snoc [] event events h = ground (arith, h)
read_lines-snoc (Line.blank ∷ lines) event events h = read_lines-snoc lines event events h
read_lines-snoc (Line.broken ∷ lines) event events h = cc
read_lines-snoc (entry e ∷ lines) event events h =
    read_on (read_lines lines) refl (λ es. read_lines-snoc lines event es) h
  where
    read_on :
        (found : Option (List Event))
        → read_lines lines ≡ found
        → ((es : List Event)
            → read_lines lines ≡ some es
            → read_lines (lines ++ entry event ∷ []) ≡ some (es ++ event ∷ []))
        → cons_event e found ≡ some events
        → cons_event e (read_lines (lines ++ entry event ∷ [])) ≡ some (events ++ event ∷ [])
    read_on none same ih k = cc
    read_on (some later) same ih k = ground (arith, ih later same, k)

same_int_refl : (n : ℤ) → same_int n n ≡ true
same_int_refl n = ground arith

module _ (outside : Outside) where
  module _ (a sequence from to now previous : String) where
    unfoldable pub event : Event
    event = sealed outside (draft outside a sequence from to now previous)

    unfoldable pub item_of : ℤ → LifecycleEvent
    item_of number = record {
      action_id = a;
      sequence = number;
      from_state = from;
      to_state = to;
      timestamp = now;
      previous_hash = previous;
      event_hash =
          outside.sha256 (canonical_payload (draft outside a sequence from to now previous));
    }

    pub read-sealed :
        (number : ℤ)
        → outside.parse_int sequence ≡ ok number
        → read_event outside event ≡ ok (item_of number)
    unfolding event item_of read_event require lookup sealed draft sort_fields insert
        canonical_payload
    read-sealed number h = rw h refl

    pub canonical_payload-sealed :
        canonical_payload event ≡ canonical_payload (draft outside a sequence from to now previous)
    unfolding event sealed draft sort_fields insert canonical_payload
    canonical_payload-sealed = refl

    pub is_of-sealed : is_of outside a event ≡ true
    unfolding event is_of sealed draft sort_fields insert canonical_payload lookup
    is_of-sealed = text_eq_refl a

  -- The event of the next sequence number, hash and state passes the check.
  pub check_event-sealed :
      (seen : Seen) (a : String) (sequence now : String) (s t : LifecycleState) (previous : String)
      (number : ℤ)
      → is_blank a ≡ false
      → number ≡ next_int (get_or (pos 0) (lookup a seen.sequence_by_action))
      → previous ≡ get_or "" (lookup a seen.previous_by_action)
      → value s ≡ expected_from (lookup a seen.state_by_action)
      → (decide_read (some s) (some t)).allowed ≡ true
      → check_event outside seen
          (event a sequence (value s) (value t) now previous)
          (item_of a sequence (value s) (value t) now previous number)
        ≡ ok tt
  unfolding check_event item_of can_transition read_state
  check_event-sealed seen a sequence now s t previous number filled next hash from legal =
      rw filled rw (parse_state-value s) rw (parse_state-value t) rw (← next) rw
        (same_int_refl number) rw (← hash) rw (text_eq_refl previous) rw (← from) rw
        (text_eq_refl (value s)) rw legal rw
        (canonical_payload-sealed a sequence (value s) (value t) now previous) rw
        (text_eq_refl (
          outside.sha256
            (canonical_payload (draft outside a sequence (value s) (value t) now previous))))
        refl
