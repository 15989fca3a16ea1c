-- ===== src/Lifecycle/History.antt =====
-- What a ledger (lifecycle_ledger.py) that verifies says of an action.
use autonomous_ai_scout.Base.{
  String, ◌≡◌, refl, sym, ◌∙◌, ap, subst, Bool, true, false, not, Option, none, some, Result, ok,
  err, >>=-eq-ok, >>-eq-ok, ok-injective, err-ne-ok, List, [], ◌∷◌, ◌++◌, map, keep, last?,
  Bool-cases, inl, inr, arith, text_eq, text_eq_iff, lookup, lookup-insert, some_injective,
  some-ne-none, is_blank, pos, next_int,
}
use mathlib.Core.Bool.{false≢true}
use autonomous_ai_scout.Lifecycle.State.{
  LifecycleState, proposed, validated, tested, secured, policy_checked, approved, claimed, executed,
  verified, blocked, completed, value, named, parse_state, read_state, is_transition, decide,
  decide_read, can_transition, find_state, all_states,
}
use autonomous_ai_scout.Lifecycle.Spine.{spine, spine-step, parse_state-value}
use autonomous_ai_scout.Lifecycle.Ledger.{
  Event, LedgerFile, missing, unreadable, lines_of, unended, tail_line, Line, verify_lines,
  read_lines, Outside, LifecycleEvent, get_or, same_int, Seen, nothing_seen, expected_from, require,
  require_state, stop_unless, read_event, check_event, see, verify_events, is_ok, verify_ledger,
  is_of, read_all, load_action_events, state_of_last, action_state, read_events,
}

-- The events lead from one state to another by transitions, each from where the last one ended.
abbrev pub Follows : LifecycleState → List LifecycleEvent → LifecycleState → Type 0
Follows s [] t = s ≡ t
Follows s (item ∷ items) t =
    (item.from_state ≡ value s)
    × ((u : LifecycleState) × (item.to_state ≡ value u)
        × (is_transition s u ≡ true)
        × Follows u items t)

pub find_state-value :
    (s : String) (states : List LifecycleState) (u : LifecycleState)
    → find_state s states ≡ some u
    → s ≡ value u
unfolding find_state
find_state-value s [] u h = cc
find_state-value s (v ∷ states) u h =
    ground (arith, find_state-value s states u, text_eq_iff (value v) s)

blocked-step : (v : LifecycleState) → is_transition blocked v ≡ true → ⊥
unfolding is_transition
blocked-step v h = cc

module _ (outside : Outside) where
  read_event-action_id :
      (event : Event) (item : LifecycleEvent)
      → read_event outside event ≡ ok item
      → lookup "action_id" event ≡ some item.action_id
  unfolding read_event require
  read_event-action_id event item h = ground arith

  pub stop_unless-eq-ok : (b : Bool) → stop_unless b ≡ ok tt → b ≡ true
  stop_unless-eq-ok true h = refl
  stop_unless-eq-ok false h = absurd (err-ne-ok h)

  -- What the checks of an event establish of its two states.
  check_event-states :
      (seen : Seen) (event : Event) (item : LifecycleEvent)
      → check_event outside seen event item ≡ ok tt
      → (item.from_state ≡ expected_from (lookup item.action_id seen.state_by_action))
        × ((can_transition (named item.from_state) (named item.to_state)).allowed ≡ true)
  unfolding check_event
  check_event-states seen event item h =
      let start = expected_from (lookup item.action_id seen.state_by_action) in
      let allowed = (can_transition (named item.from_state) (named item.to_state)).allowed in
      let (_, h1) = >>-eq-ok (stop_unless (not (is_blank item.action_id))) _ h in
      let (_, _, h2) = >>=-eq-ok (require_state (parse_state item.from_state)) _ h1 in
      let (_, _, h3) = >>=-eq-ok (require_state (parse_state item.to_state)) _ h2 in
      let (_, h4) =
        >>-eq-ok
          (stop_unless (
            same_int item.sequence
              (next_int (get_or (pos 0) (lookup item.action_id seen.sequence_by_action)))))
          _ h3 in
      let (_, h5) =
        >>-eq-ok
          (stop_unless (
            text_eq item.previous_hash (get_or "" (lookup item.action_id seen.previous_by_action))))
          _ h4 in
      let (same, h6) = >>-eq-ok (stop_unless (text_eq item.from_state start)) _ h5 in
      let (legal, _) = >>-eq-ok (stop_unless allowed) _ h6 in
      (
        (text_eq_iff item.from_state start).0
            (stop_unless-eq-ok (text_eq item.from_state start) same),
        stop_unless-eq-ok allowed legal,
      )

  decide-allowed : (s u : LifecycleState) → (decide s u).allowed ≡ true → is_transition s u ≡ true
  unfolding decide
  decide-allowed s u h = ground arith

  allowed-transition :
      (s : LifecycleState) (from to : String)
      → from ≡ value s
      → (can_transition (named from) (named to)).allowed ≡ true
      → (u : LifecycleState) × (to ≡ value u) × (is_transition s u ≡ true)
  unfolding can_transition read_state
  allowed-transition s from to same h = go (parse_state to) refl (
      subst (λ o. (decide_read o (parse_state to)).allowed ≡ true)
        (ap parse_state same ∙ parse_state-value s) h)
    where
      go :
          (o : Option LifecycleState)
          → parse_state to ≡ o
          → (decide_read (some s) o).allowed ≡ true
          → (u : LifecycleState) × (to ≡ value u) × (is_transition s u ≡ true)
      go none e k = absurd (false≢true k)
      go (some u) e k = (u, find_state-value to all_states u e, decide-allowed s u k)

  pub is_of-eq :
      (a : String) (event : Event) (item : LifecycleEvent)
      → read_event outside event ≡ ok item
      → is_of outside a event ≡ text_eq item.action_id a
  unfolding is_of
  is_of-eq a event item h = rw (read_event-action_id event item h) refl

  read-kept :
      (a : String) (event : Event) (events : List Event) {item : LifecycleEvent}
      {items : List LifecycleEvent}
      → is_of outside a event ≡ true
      → read_event outside event ≡ ok item
      → read_all outside (keep (is_of outside a) events) ≡ ok items
      → read_all outside (keep (is_of outside a) (event ∷ events)) ≡ ok (item ∷ items)
  unfolding keep read_all
  read-kept a event events mine read rest = rw (mine, read, rest) refl

  read-dropped :
      (a : String) (event : Event) (events : List Event) {items : List LifecycleEvent}
      → is_of outside a event ≡ false
      → read_all outside (keep (is_of outside a) events) ≡ ok items
      → read_all outside (keep (is_of outside a) (event ∷ events)) ≡ ok items
  unfolding keep
  read-dropped a event events other rest = rw (other, rest) refl

  -- The events of an action behind a point at which it is in a state.
  pub Follows-verified :
      (a : String) (s : LifecycleState) (seen : Seen) (events : List Event) {final : Seen}
      → expected_from (lookup a seen.state_by_action) ≡ value s
      → verify_events outside seen events ≡ ok final
      → (items : List LifecycleEvent) × (t : LifecycleState) × (read_all outside
            (keep (is_of outside a) events)
          ≡ ok items)
        × Follows s items t
  unfolding verify_events read_all keep see
  Follows-verified a s seen [] start h = ([], s, refl, refl)
  Follows-verified a s seen (event ∷ events) start h =
      let (item, read, h1) = >>=-eq-ok (read_event outside event) _ h in
      let (checked, h2) = >>-eq-ok (check_event outside seen event item) _ h1 in
      let (from, legal) = check_event-states seen event item checked in
      let next = see outside item seen in
      let moved = lookup-insert item.action_id a item.to_state seen.state_by_action in
      let own = is_of-eq a event item read in
      elim (Bool-cases (text_eq item.action_id a)) [
        | inl same ↦
            let name = (text_eq_iff item.action_id a).0 same in
            let from_s : item.from_state ≡ value s =
              subst (λ k. item.from_state ≡ expected_from (lookup k seen.state_by_action)) name from
              ∙ start in
            let (u, to, step) = allowed-transition s item.from_state item.to_state from_s legal in
            let start' : expected_from (lookup a next.state_by_action) ≡ value u =
              ap expected_from (rw same at moved) ∙ to in
            let (items, t, rest, follows) = Follows-verified a u next events start' h2 in
            (
              item ∷ items,
              t,
              read-kept a event events (own ∙ same) read rest,
              (from_s, (u, to, step, follows)),
            )
        | inr differ ↦
            let start' : expected_from (lookup a next.state_by_action) ≡ value s =
              ap expected_from (rw differ at moved) ∙ start in
            let (items, t, rest, follows) = Follows-verified a s next events start' h2 in
            (items, t, read-dropped a event events (own ∙ differ) rest, follows)
      ]

  lines-verified :
      (lines : List Line)
      → verify_lines outside lines ≡ true
      → (final : Seen) × (verify_events outside nothing_seen (get_or [] (read_lines lines))
          ≡ ok final)
  unfolding verify_lines
  lines-verified lines h =
      is_ok-eq (verify_events outside nothing_seen (get_or [] (read_lines lines))) (ground arith)
    where
      is_ok-eq : (r : Result Seen) → is_ok outside r ≡ true → (final : Seen) × (r ≡ ok final)
      is_ok-eq (ok final) e = (final, refl)
      is_ok-eq (err x) e = absurd (false≢true e)

  pub events-verified :
      (file : LedgerFile)
      → verify_ledger outside file ≡ true
      → (final : Seen) × (verify_events outside nothing_seen (read_events file) ≡ ok final)
  unfolding verify_ledger verify_events read_events
  events-verified missing h = (nothing_seen, refl)
  events-verified unreadable h = absurd (false≢true h)
  events-verified (lines_of lines) h = lines-verified lines h
  events-verified (unended lines tail) h = lines-verified (lines ++ tail_line tail ∷ []) h

  -- The state that `action_state` reads off is the one to which the events lead.
  Follows-last :
      (s : LifecycleState) (items : List LifecycleEvent) (t v : LifecycleState)
      → Follows s items t
      → state_of_last outside (last? items) ≡ some v
      → t ≡ v
  unfolding state_of_last
  Follows-last s [] t v f e = absurd (some-ne-none (sym e))
  Follows-last s (item ∷ []) t v (_, (u, to, _, same)) e =
      sym same ∙ some_injective (sym (parse_state-value u) ∙ ap parse_state (sym to) ∙ e)
  Follows-last s (item ∷ x ∷ items) t v (_, (u, _, _, f)) e = Follows-last u (x ∷ items) t v f e

  Follows-spine :
      (s : LifecycleState) (items : List LifecycleEvent)
      → Follows s items completed
      → map (λ (item : LifecycleEvent). item.to_state) items ≡ map value (spine s)
  Follows-spine s [] same = subst (λ v. [] ≡ map value (spine v)) (sym same) refl
  Follows-spine s (item ∷ items) (_, (u, to, step, f)) = elim (spine-step s u step) [
    | inl stuck ↦ absurd (blocked-stays items (subst (λ v. Follows v items completed) stuck f))
    | inr longer ↦
        ap (λ (x : String). x ∷ map (λ (i : LifecycleEvent). i.to_state) items) to
        ∙ ap (λ (l : List String). value u ∷ l) (Follows-spine u items f)
        ∙ ap (map value) (sym longer)
  ]
    where
      blocked-stays : (rest : List LifecycleEvent) → Follows blocked rest completed → ⊥
      blocked-stays [] same' = cc
      blocked-stays (x ∷ rest) (_, (v, _, step', _)) = blocked-step v step'

  pub action_state-last :
      (file : LedgerFile) (action_id : String) (items : List LifecycleEvent)
      (state : LifecycleState)
      → load_action_events outside file action_id ≡ ok items
      → action_state outside file action_id ≡ ok (some state)
      → state_of_last outside (last? items) ≡ some state
  unfolding action_state
  action_state-last file action_id items state loaded h = elim (Bool-cases (is_blank action_id)) [
    | inl e ↦ absurd (some-ne-none (sym (ok-injective (rw e at h))))
    | inr e ↦ ok-injective (rw (e, loaded) at h)
  ]

  -- In a ledger that verifies, the events of an action lead from proposed to the state that
  -- `action_state` reports by allowed transitions, each from the state in which the last one ended.
  pub history-Follows :
      (file : LedgerFile) (action_id : String) (state : LifecycleState)
      → verify_ledger outside file ≡ true
      → action_state outside file action_id ≡ ok (some state)
      → (items : List LifecycleEvent) × (load_action_events outside file action_id ≡ ok items)
        × Follows proposed items state
  unfolding action_state load_action_events
  history-Follows file action_id state valid h =
      let (final, verified') = events-verified file valid in
      let (items, t, read, follows) =
        Follows-verified action_id proposed nothing_seen (read_events file) start verified' in
      let loaded = loads items read in
      let same =
        Follows-last proposed items t state follows
          (action_state-last file action_id items state loaded h) in
      (items, loaded, subst (λ v. Follows proposed items v) same follows)
    where
      start : expected_from (lookup action_id nothing_seen.state_by_action) ≡ value proposed
      start = refl

      loads :
          (items : List LifecycleEvent)
          → read_all outside (keep (is_of outside action_id) (read_events file)) ≡ ok items
          → load_action_events outside file action_id ≡ ok items
      loads items read = rw (valid, read) refl

  -- In a ledger that verifies, an action in the state completed has been moved to validated, tested,
  -- secured, policy checked, approved, claimed, executed, verified and completed, in this order and
  -- to nothing else.
  pub history-completed :
      (file : LedgerFile) (action_id : String)
      → verify_ledger outside file ≡ true
      → action_state outside file action_id ≡ ok (some completed)
      → (items : List LifecycleEvent) × (load_action_events outside file action_id ≡ ok items)
        × (map (λ (item : LifecycleEvent). item.to_state) items
            ≡ map value (
                validated ∷ tested ∷ secured ∷ policy_checked ∷ approved ∷ claimed ∷ executed
                ∷ verified ∷ completed ∷ []))
  history-completed file action_id valid h =
      let (items, loaded, follows) = history-Follows file action_id completed valid h in
      (items, loaded, Follows-spine proposed items follows)
