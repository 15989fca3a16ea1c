-- ===== src/Session/Bounds.antt =====
-- What holds of every session: its bounds, and that a verified step has completed.
use autonomous_ai_scout.Base.{
  keys, ◌≤◌, String, ◌≡◌, refl, subst, true, not, Result, ok, err, raise_if, >>=-eq-ok, >>-eq-ok,
  raise_if-eq-ok, ok-injective, List, [], ◌∷◌, ◌++◌, length, if◌then◌else◌, ltb, contains, insert,
  ℤ, pos, negsuc, arith, distinct, text_take, ◌+++◌,
}
use autonomous_ai_scout.Session.Model.{
  ActionBudget, make_budget, consume, validate_workflow_id, validate_step_id, take_last, Session,
  add_once, Outside, max_history, max_depth, max_action_budget,
}
use autonomous_ai_scout.Session.Steps.{
  new_session, optional_workflow_id, ensure_open, note, bind, close, suspend, resume,
  consume_action, enter_step, exit_step, record_completed, record_verified, record_handoff,
  record_mutation, record_artifact, grant_approval, Command, bind_to, enter, verify_step,
  add_mutation, approve, add_note, complete_with, hand_over, add_artifact, close_it, suspend_it,
  resume_it, exit_it, consume_count, after, call, run,
}
use autonomous_ai_scout.Session.Progress.{
  length-take_last, add_once-distinct, are_in, are_in-insert, are_in-add_once,
}

-- The bounds of a session, and what it says of its steps.
pub record IsSound {Metadata : Type 0} (session : Session Metadata) : Type 0 where
  pub limit_bounded : session.action_budget.limit ≤ max_action_budget
  pub budget_kept : session.action_budget.used ≤ session.action_budget.limit
  pub depth_bounded : session.execution_depth ≤ max_depth
  pub history_bounded : length session.history ≤ max_history
  pub verified_completed : are_in session.verified (keys session.completed) ≡ true
  pub verified_once : distinct session.verified ≡ true
  pub mutations_once : distinct session.mutations ≡ true
  pub approved_once : distinct session.approved ≡ true

module _ {Metadata : Type 0} (outside : Outside Metadata) where
  note-IsSound :
      (entry : String) (s : Session Metadata) → IsSound s → IsSound (note outside entry s)
  unfolding note
  note-IsSound entry s h = record {
    limit_bounded = h.limit_bounded;
    budget_kept = h.budget_kept;
    depth_bounded = h.depth_bounded;
    history_bounded = bounded;
    verified_completed = h.verified_completed;
    verified_once = h.verified_once;
    mutations_once = h.mutations_once;
    approved_once = h.approved_once;
  }
    where
      history : List String
      history = s.history ++ text_take 200 (outside.redact entry) ∷ []

      bounded :
          length
            (if ltb max_history (length history) then take_last max_history history else history)
          ≤ max_history
      bounded = ground (arith, length-take_last max_history history)

  bind-IsSound :
      (w : String) (s : Session Metadata) {next : Session Metadata}
      → IsSound s
      → bind outside w s ≡ ok next
      → IsSound next
  unfolding bind
  bind-IsSound w s h e =
      let (_, e') = >>-eq-ok (ensure_open outside s) _ e in
      let (r, _, e'') = >>=-eq-ok (validate_workflow_id w) _ e' in ground arith

  consume-bounded :
      (count : ℤ) (budget : ActionBudget) {next : ActionBudget}
      → budget.used ≤ budget.limit
      → consume count budget ≡ ok next
      → (next.limit ≡ budget.limit) × (next.used ≤ next.limit) × (budget.used ≤ next.used)
  unfolding consume
  consume-bounded (pos n) budget h e = ground arith
  consume-bounded (negsuc n) budget h e = ground arith

  enter-IsSound :
      (step : String) (s : Session Metadata) {next : Session Metadata}
      → IsSound s
      → enter_step outside step s ≡ ok next
      → IsSound next
  unfolding enter_step
  enter-IsSound step s h e =
      let (_, e') = >>-eq-ok (ensure_open outside s) _ e in
      let (r, _, e'') = >>=-eq-ok (validate_step_id step) _ e' in ground arith

  exit-IsSound : (s : Session Metadata) → IsSound s → IsSound (exit_step outside s)
  unfolding exit_step
  exit-IsSound s h = ground arith

  close-IsSound : (s : Session Metadata) → IsSound s → IsSound (close outside s)
  unfolding close
  close-IsSound s h = ground arith

  suspend-IsSound : (s : Session Metadata) → IsSound s → IsSound (suspend outside s)
  unfolding suspend
  suspend-IsSound s h = ground arith

  resume-IsSound :
      (s : Session Metadata) {next : Session Metadata}
      → IsSound s
      → resume outside s ≡ ok next
      → IsSound next
  unfolding resume
  resume-IsSound s h e = ground arith

  consume-IsSound :
      (count : ℤ) (s : Session Metadata) {next : Session Metadata}
      → IsSound s
      → consume_action outside count s ≡ ok next
      → IsSound next
  unfolding consume_action
  consume-IsSound count s h e =
      let (_, e1) = >>-eq-ok (ensure_open outside s) _ e in
      let (b, f, e2) = >>=-eq-ok (consume count s.action_budget) _ e1 in
      let (same, kept, _) = consume-bounded count s.action_budget h.budget_kept f in ground arith

  complete-IsSound :
      (step digest : String) (s : Session Metadata) {next : Session Metadata}
      → IsSound s
      → record_completed outside step digest s ≡ ok next
      → IsSound next
  unfolding record_completed
  complete-IsSound step digest s h e =
      let (_, e1) = >>-eq-ok (ensure_open outside s) _ e in
      let (r, _, e2) = >>=-eq-ok (validate_step_id step) _ e1 in
      let s1 = record s { completed = insert r digest s.completed } in
      let kept = are_in-insert r digest s.completed s.verified h.verified_completed in
      subst IsSound (ok-injective e2) (note-IsSound ("completed:" +++ r) s1 (ground arith))

  verify-IsSound :
      (step : String) (s : Session Metadata) {next : Session Metadata}
      → IsSound s
      → record_verified outside step s ≡ ok next
      → IsSound next
  unfolding record_verified
  verify-IsSound step s h e =
      let (_, e1) = >>-eq-ok (ensure_open outside s) _ e in
      let (r, _, e2) = >>=-eq-ok (validate_step_id step) _ e1 in
      let (done, e3) = >>-eq-ok (raise_if (not (contains r (keys s.completed))) _) _ e2 in
      let s1 = record s { verified = add_once r s.verified } in
      let completed = raise_if-eq-ok (not (contains r (keys s.completed))) _ done in
      let in_all =
        are_in-add_once r s.verified (keys s.completed) h.verified_completed (ground arith) in
      let once = add_once-distinct r s.verified h.verified_once in
      subst IsSound (ok-injective e3) (note-IsSound ("verified:" +++ r) s1 (ground arith))

  hand_over-IsSound :
      (handoff digest : String) (s : Session Metadata) {next : Session Metadata}
      → IsSound s
      → record_handoff outside handoff digest s ≡ ok next
      → IsSound next
  unfolding record_handoff
  hand_over-IsSound handoff digest s h e =
      let (_, e1) = >>-eq-ok (ensure_open outside s) _ e in
      let s1 = record s { handoffs = insert handoff digest s.handoffs } in
      subst IsSound (ok-injective e1) (note-IsSound ("handoff:" +++ handoff) s1 (ground arith))

  mutation-IsSound :
      (digest : String) (s : Session Metadata) {next : Session Metadata}
      → IsSound s
      → record_mutation outside digest s ≡ ok next
      → IsSound next
  unfolding record_mutation
  mutation-IsSound digest s h e =
      let (_, e1) = >>-eq-ok (ensure_open outside s) _ e in
      let s1 = record s { mutations = add_once digest s.mutations } in
      let once = add_once-distinct digest s.mutations h.mutations_once in
      subst IsSound (ok-injective e1)
        (note-IsSound ("mutation:" +++ text_take 16 digest) s1 (ground arith))

  artifact-IsSound :
      (key digest : String) (s : Session Metadata) {next : Session Metadata}
      → IsSound s
      → record_artifact outside key digest s ≡ ok next
      → IsSound next
  unfolding record_artifact
  artifact-IsSound key digest s h e =
      let (_, e1) = >>-eq-ok (ensure_open outside s) _ e in
      let s1 = record s { artifacts = insert key digest s.artifacts } in
      let kept : IsSound s1 = ground arith in subst IsSound (ok-injective e1) kept

  approve-IsSound :
      (step : String) (s : Session Metadata) {next : Session Metadata}
      → IsSound s
      → grant_approval outside step s ≡ ok next
      → IsSound next
  unfolding grant_approval
  approve-IsSound step s h e =
      let (r, _, e1) = >>=-eq-ok (validate_step_id step) _ e in
      let s1 = record s { approved = add_once r s.approved } in
      let once = add_once-distinct r s.approved h.approved_once in
      subst IsSound (ok-injective e1) (note-IsSound ("approved:" +++ r) s1 (ground arith))

  call-IsSound :
      (c : Command) (s : Session Metadata) {next : Session Metadata}
      → IsSound s
      → call outside c s ≡ ok next
      → IsSound next
  unfolding call
  call-IsSound (bind_to w) s h e = bind-IsSound w s h e
  call-IsSound (enter step) s h e = enter-IsSound step s h e
  call-IsSound (verify_step step) s h e = verify-IsSound step s h e
  call-IsSound (add_mutation digest) s h e = mutation-IsSound digest s h e
  call-IsSound (approve step) s h e = approve-IsSound step s h e
  call-IsSound (add_note entry) s h e = subst IsSound (ok-injective e) (note-IsSound entry s h)
  call-IsSound (complete_with step digest) s h e = complete-IsSound step digest s h e
  call-IsSound (hand_over handoff digest) s h e = hand_over-IsSound handoff digest s h e
  call-IsSound (add_artifact key digest) s h e = artifact-IsSound key digest s h e
  call-IsSound close_it s h e = subst IsSound (ok-injective e) (close-IsSound s h)
  call-IsSound suspend_it s h e = subst IsSound (ok-injective e) (suspend-IsSound s h)
  call-IsSound resume_it s h e = resume-IsSound s h e
  call-IsSound exit_it s h e = subst IsSound (ok-injective e) (exit-IsSound s h)
  call-IsSound (consume_count count) s h e = consume-IsSound count s h e

  after-IsSound :
      (s : Session Metadata) (r : Result (Session Metadata))
      → IsSound s
      → ((next : Session Metadata) → r ≡ ok next → IsSound next)
      → IsSound (after outside s r)
  after-IsSound s (ok next) h f = f next refl
  after-IsSound s (err e) h f = h

  pub run-IsSound :
      (cs : List Command) (s : Session Metadata) → IsSound s → IsSound (run outside cs s)
  unfolding run
  run-IsSound [] s h = h
  run-IsSound (c ∷ cs) s h =
      run-IsSound cs (after outside s (call outside c s))
        (after-IsSound s (call outside c s) h (λ next e. call-IsSound c s h e))

  new-IsSound :
      (id w : String) (budget : ActionBudget) (m : Metadata) {s : Session Metadata}
      → budget.limit ≤ max_action_budget
      → budget.used ≤ budget.limit
      → new_session outside id w budget m ≡ ok s
      → IsSound s
  unfolding new_session are_in
  new-IsSound id w budget m bounded kept e =
      let (x, _, e1) = >>=-eq-ok (optional_workflow_id outside w) _ e in
      let (y, _, e2) = >>=-eq-ok (outside.validate_metadata m) _ e1 in ground arith

  budget-bounded :
      (n : ℤ) {budget : ActionBudget}
      → make_budget n ≡ ok budget
      → (budget.limit ≤ max_action_budget) × (budget.used ≤ budget.limit)
  unfolding make_budget
  budget-bounded (pos n) e = ground arith
  budget-bounded (negsuc n) e = ground arith

  -- After any calls on a new session, refused ones included: the action budget is at most 100 and not
  -- exceeded, at most 8 steps are nested, the history has at most 100 entries, each verified step has
  -- completed, and no step is verified or approved twice and no mutation stored twice.
  pub session-IsSound :
      (n : ℤ) (budget : ActionBudget) (id w : String) (m : Metadata) (s : Session Metadata)
      (cs : List Command)
      → make_budget n ≡ ok budget
      → new_session outside id w budget m ≡ ok s
      → IsSound (run outside cs s)
  session-IsSound n budget id w m s cs made created =
      let (bounded, kept) = budget-bounded n made in
      run-IsSound cs s (new-IsSound id w budget m bounded kept created)
