-- ===== src/Lifecycle/Tracks.antt =====
-- lifecycle_ledger.py: what the check of a ledger keeps of an action is what `append_transition` reads
-- off its last event.
use autonomous_ai_scout.Base.{
  ℕ, ◌+◌, String, ◌≡◌, ◌∙◌, ap, subst, true, false, Option, none, some, ok, >>=-eq-ok, >>-eq-ok,
  List, [], ◌∷◌, ◌++◌, keep, last?, length, Bool-cases, inl, inr, arith, text_eq, text_eq_iff,
  lookup, lookup-insert, is_blank, ℤ, pos, next_int, length-append, not, append-nil, append-cons,
  last?-snoc, ok-injective,
}
use autonomous_ai_scout.Lifecycle.State.{parse_state}
use autonomous_ai_scout.Lifecycle.Ledger.{
  Event, Outside, LifecycleEvent, get_or, same_int, Seen, require, require_state, stop_unless,
  read_event, check_event, see, verify_events, is_of,
}
use autonomous_ai_scout.Lifecycle.History.{is_of-eq, stop_unless-eq-ok}

-- The sequence number, hash and state that are kept, from the number of events and the last of them.
abbrev pub Known : Option ℤ → Option String → Option String → ℕ → Option Event → Type 0
Known number hash state n none = (number ≡ none) × (hash ≡ none) × (state ≡ none) × (n ≡ 0)
Known number hash state n (some event) =
    (number ≡ some (pos n))
    × ((h : String) × (s : String) × (hash ≡ some h)
        × (lookup "event_hash" event ≡ some h)
        × (state ≡ some s)
        × (lookup "to_state" event ≡ some s))

unfoldable pub Tracks : String → Seen → List Event → Type 0
unfolding lookup
Tracks a seen events =
    Known (lookup a seen.sequence_by_action) (lookup a seen.previous_by_action)
      (lookup a seen.state_by_action) (length events) (last? events)

same_int-eq : (m n : ℤ) → same_int m n ≡ true → m ≡ n
same_int-eq m n h = ground arith

module _ (outside : Outside) where
  pub read_event-fields :
      (event : Event) (item : LifecycleEvent)
      → read_event outside event ≡ ok item
      → (lookup "event_hash" event ≡ some item.event_hash)
        × (lookup "to_state" event ≡ some item.to_state)
  unfolding read_event require
  read_event-fields event item h = ground arith

  check_event-sequence :
      (seen : Seen) (event : Event) (item : LifecycleEvent)
      → check_event outside seen event item ≡ ok tt
      → item.sequence ≡ next_int (get_or (pos 0) (lookup item.action_id seen.sequence_by_action))
  unfolding check_event
  check_event-sequence seen event item h =
      let (_, h1) = >>-eq-ok (stop_unless (not (is_blank item.action_id))) _ h in
      let (_, _, h2) = >>=-eq-ok (require_state (parse_state item.from_state)) _ h1 in
      let (_, _, h3) = >>=-eq-ok (require_state (parse_state item.to_state)) _ h2 in
      let next = next_int (get_or (pos 0) (lookup item.action_id seen.sequence_by_action)) in
      let (same, _) = >>-eq-ok (stop_unless (same_int item.sequence next)) _ h3 in
      same_int-eq item.sequence next (stop_unless-eq-ok outside (same_int item.sequence next) same)

  Known-next :
      (number : Option ℤ) (hash state : Option String) (n : ℕ) (last : Option Event)
      → Known number hash state n last
      → next_int (get_or (pos 0) number) ≡ pos (n + 1)
  Known-next number hash state n none k = ground (arith, k)
  Known-next number hash state n (some event) k = rw k.0 (ground arith)

  pub Tracks-next :
      (seen : Seen) (a : String) (events : List Event)
      → Tracks a seen events
      → next_int (get_or (pos 0) (lookup a seen.sequence_by_action)) ≡ pos (length events + 1)
  unfolding Tracks
  Tracks-next seen a events h =
      Known-next (lookup a seen.sequence_by_action) (lookup a seen.previous_by_action)
        (lookup a seen.state_by_action) (length events) (last? events) h

  Tracks-see :
      (a : String) (seen : Seen) (event : Event) (item : LifecycleEvent) (events : List Event)
      → Tracks a seen events
      → read_event outside event ≡ ok item
      → check_event outside seen event item ≡ ok tt
      → text_eq item.action_id a ≡ true
      → Tracks a (see outside item seen) (events ++ event ∷ [])
  unfolding Tracks see
  Tracks-see a seen event item events h read checked same =
      let name = (text_eq_iff item.action_id a).0 same in
      let fields = read_event-fields event item read in
      let number : item.sequence ≡ pos (length (events ++ event ∷ [])) = ground (
        arith,
        check_event-sequence seen event item checked,
        name,
        Tracks-next seen a events h,
        length-append events (event ∷ []),
      ) in
      let numbered = lookup-insert item.action_id a item.sequence seen.sequence_by_action in
      let hashed = lookup-insert item.action_id a item.event_hash seen.previous_by_action in
      let moved = lookup-insert item.action_id a item.to_state seen.state_by_action in
      rw (last?-snoc events event) (
        (rw same at numbered) ∙ ap some number,
        (item.event_hash, item.to_state, rw same at hashed, fields.0, rw same at moved, fields.1),
      )

  Tracks-other :
      (a : String) (seen : Seen) (item : LifecycleEvent) (events : List Event)
      → Tracks a seen events
      → text_eq item.action_id a ≡ false
      → Tracks a (see outside item seen) events
  unfolding Tracks see
  Tracks-other a seen item events h differ =
      rw (lookup-insert item.action_id a item.sequence seen.sequence_by_action) rw
        (lookup-insert item.action_id a item.event_hash seen.previous_by_action) rw
        (lookup-insert item.action_id a item.to_state seen.state_by_action) rw differ h

  pub Tracks-verified :
      (a : String) (seen : Seen) (before events : List Event) {final : Seen}
      → Tracks a seen before
      → verify_events outside seen events ≡ ok final
      → Tracks a final (before ++ keep (is_of outside a) events)
  unfolding verify_events keep
  Tracks-verified a seen before [] h v =
      subst (λ s. Tracks a s (before ++ [])) (ok-injective v) (rw (append-nil before) h)
  Tracks-verified a seen before (event ∷ events) h v =
      let (item, read, h1) = >>=-eq-ok (read_event outside event) _ v in
      let (checked, h2) = >>-eq-ok (check_event outside seen event item) _ h1 in
      let own = is_of-eq outside a event item read in
      elim (Bool-cases (text_eq item.action_id a)) [
        | inl same ↦
            rw own rw same rw (← append-cons before event (keep (is_of outside a) events)) (
              Tracks-verified a (see outside item seen) (before ++ event ∷ []) events
                (Tracks-see a seen event item before h read checked same) h2)
        | inr differ ↦ rw own rw differ (
            Tracks-verified a (see outside item seen) before events
              (Tracks-other a seen item before h differ) h2)
      ]
