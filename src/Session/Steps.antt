-- ===== src/Session/Steps.antt =====
-- The operations of `WorkflowSession` (workflow/session.py). An operation that raises has not changed
-- the session.
use autonomous_ai_scout.Base.{
  keys, suc, ◌+◌, ◌-◌, String, not, ◌&&◌, Result, ok, err, ◌>>=◌, ◌>>◌, raise_if, runtime_error,
  List, [], ◌∷◌, ◌++◌, length, if◌then◌else◌, ltb, is_empty, strip, text_take, text_eq, ◌+++◌,
  insert, ℤ, contains,
}
use autonomous_ai_scout.Session.Model.{
  SessionState, opened, closed, suspended, resumed, state_text, is_active, ActionBudget, consume,
  validate_workflow_id, validate_step_id, take_last, Session, add_once, Outside, max_history,
  max_depth,
}

module _ {Metadata : Type 0} (outside : Outside Metadata) where
  -- `session_id or default` behind `strip`
  abbrev pub session_name : String → String
  session_name s = if is_empty s then "workflow-session" else s

  abbrev pub optional_workflow_id : String → Result String
  optional_workflow_id workflow_id =
      if is_empty workflow_id then ok "" else validate_workflow_id workflow_id

  -- `WorkflowSession(...)` with an action budget that is given.
  unfoldable pub new_session : String → String → ActionBudget → Metadata → Result (Session Metadata)
  new_session session_id workflow_id budget metadata = do
    workflow ← optional_workflow_id workflow_id
    accepted ← outside.validate_metadata metadata
    ok (record {
      session_id = session_name (strip session_id);
      workflow_id = workflow;
      state = opened;
      current_step = "";
      epoch = 0;
      execution_depth = 0;
      history = [];
      metadata = accepted;
      action_budget = budget;
      completed = [];
      verified = [];
      handoffs = [];
      mutations = [];
      approved = [];
      artifacts = [];
    })

  abbrev pub ensure_open : Session Metadata → Result (Unit {0})
  ensure_open session =
      raise_if (not (is_active session.state)) (
        runtime_error ("workflow session is not open (state=" +++ state_text session.state +++ ")"))

  -- `note`
  unfoldable pub note : String → Session Metadata → Session Metadata
  note entry session =
      let history = session.history ++ text_take 200 (outside.redact entry) ∷ [] in
      record session {
        history =
            if ltb max_history (length history) then take_last max_history history else history;
        epoch = suc session.epoch;
      }

  unfoldable pub bind : String → Session Metadata → Result (Session Metadata)
  bind workflow_id session = do
    ensure_open session
    resolved ← validate_workflow_id workflow_id
    raise_if (not (is_empty session.workflow_id) && not (text_eq session.workflow_id resolved)) (
        runtime_error (
          "session is bound to workflow '" +++ session.workflow_id +++ "' and cannot switch to '"
          +++ resolved +++ "'"))
    ok (record session { workflow_id = resolved; epoch = suc session.epoch })

  unfoldable pub close : Session Metadata → Session Metadata
  close session = record session { state = closed; current_step = ""; epoch = suc session.epoch }

  unfoldable pub suspend : Session Metadata → Session Metadata
  suspend session =
      if is_active session.state
      then record session { state = suspended; epoch = suc session.epoch }
      else session

  abbrev pub resume_state : SessionState → Session Metadata → Result (Session Metadata)
  resume_state closed session = err (runtime_error "a closed workflow session cannot be resumed")
  resume_state suspended session =
      ok (record session { state = resumed; epoch = suc session.epoch })
  resume_state _ session = ok session

  unfoldable pub resume : Session Metadata → Result (Session Metadata)
  resume session = resume_state session.state session

  unfoldable pub consume_action : ℤ → Session Metadata → Result (Session Metadata)
  consume_action count session = do
    ensure_open session
    budget ← consume count session.action_budget
    ok (record session { action_budget = budget })

  unfoldable pub enter_step : String → Session Metadata → Result (Session Metadata)
  enter_step step_id session = do
    ensure_open session
    resolved ← validate_step_id step_id
    raise_if (ltb max_depth (session.execution_depth + 1))
        (runtime_error "workflow execution depth exceeds the bound")
    ok (record session { execution_depth = session.execution_depth + 1; current_step = resolved })

  -- Subtraction stops at 0, as the test on the depth does.
  unfoldable pub exit_step : Session Metadata → Session Metadata
  exit_step session = record session { execution_depth = session.execution_depth - 1 }

  unfoldable pub record_completed : String → String → Session Metadata → Result (Session Metadata)
  unfolding note insert
  record_completed step_id digest session = do
    ensure_open session
    resolved ← validate_step_id step_id
    ok (
        note ("completed:" +++ resolved)
          (record session { completed = insert resolved digest session.completed }))

  unfoldable pub record_verified : String → Session Metadata → Result (Session Metadata)
  unfolding note
  record_verified step_id session = do
    ensure_open session
    resolved ← validate_step_id step_id
    raise_if (not (contains resolved (keys session.completed)))
        (runtime_error ("cannot verify a step that has not completed: " +++ resolved))
    ok (
        note ("verified:" +++ resolved)
          (record session { verified = add_once resolved session.verified }))

  unfoldable pub record_handoff : String → String → Session Metadata → Result (Session Metadata)
  unfolding note insert
  record_handoff handoff_id digest session = do
    ensure_open session
    ok (
        note ("handoff:" +++ handoff_id)
          (record session { handoffs = insert handoff_id digest session.handoffs }))

  unfoldable pub record_mutation : String → Session Metadata → Result (Session Metadata)
  unfolding note
  record_mutation digest session = do
    ensure_open session
    ok (
        note ("mutation:" +++ text_take 16 digest)
          (record session { mutations = add_once digest session.mutations }))

  unfoldable pub record_artifact : String → String → Session Metadata → Result (Session Metadata)
  unfolding insert
  record_artifact artifact_key digest session = do
    ensure_open session
    ok (record session { artifacts = insert artifact_key digest session.artifacts })

  unfoldable pub grant_approval : String → Session Metadata → Result (Session Metadata)
  unfolding note
  grant_approval step_id session = do
    resolved ← validate_step_id step_id
    ok (
        note ("approved:" +++ resolved)
          (record session { approved = add_once resolved session.approved }))

-- A call of one operation of a session.
pub data Command : Type 0 where
  bind_to enter verify_step add_mutation approve add_note : String → Command
  complete_with hand_over add_artifact : String → String → Command
  close_it suspend_it resume_it exit_it : Command
  consume_count : ℤ → Command

module _ {Metadata : Type 0} (outside : Outside Metadata) where
  -- The session behind a call; a call that raises leaves it as it was.
  abbrev pub after : Session Metadata → Result (Session Metadata) → Session Metadata
  after session (ok next) = next
  after session (err e) = session

  unfoldable pub call : Command → Session Metadata → Result (Session Metadata)
  call (bind_to workflow_id) session = bind outside workflow_id session
  call (enter step_id) session = enter_step outside step_id session
  call (verify_step step_id) session = record_verified outside step_id session
  call (add_mutation digest) session = record_mutation outside digest session
  call (approve step_id) session = grant_approval outside step_id session
  call (add_note entry) session = ok (note outside entry session)
  call (complete_with step_id digest) session = record_completed outside step_id digest session
  call (hand_over handoff_id digest) session = record_handoff outside handoff_id digest session
  call (add_artifact artifact_key digest) session =
      record_artifact outside artifact_key digest session
  call close_it session = ok (close outside session)
  call suspend_it session = ok (suspend outside session)
  call resume_it session = resume outside session
  call exit_it session = ok (exit_step outside session)
  call (consume_count count) session = consume_action outside count session

  unfoldable pub run : List Command → Session Metadata → Session Metadata
  unfolding call
  run [] session = session
  run (c ∷ cs) session = run cs (after session (call c session))
