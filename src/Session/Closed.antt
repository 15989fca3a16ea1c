-- ===== src/Session/Closed.antt =====
-- What a closed session (workflow/session.py) keeps through any calls.
use autonomous_ai_scout.Base.{
  String, ◌≡◌, ◌∙◌, Result, ok, err, ◌>>=◌, ◌>>◌, List, [], ◌∷◌, arith, ◌+++◌,
}
use autonomous_ai_scout.Session.Model.{closed, Session, Outside, validate_step_id, add_once}
use autonomous_ai_scout.Session.Steps.{
  ensure_open, note, bind, close, suspend, resume, consume_action, enter_step, exit_step,
  record_completed, record_verified, record_handoff, record_mutation, record_artifact,
  grant_approval, Command, bind_to, enter, verify_step, add_mutation, approve, add_note,
  complete_with, hand_over, add_artifact, close_it, suspend_it, resume_it, exit_it, consume_count,
  after, call, run,
}

-- What no call changes in a closed session: its state, its workflow, its budget and the progress that
-- it records.
pub record IsFrozen {Metadata : Type 0} (before behind : Session Metadata) : Type 0 where
  pub state : behind.state ≡ closed
  pub workflow_id : behind.workflow_id ≡ before.workflow_id
  pub action_budget : behind.action_budget ≡ before.action_budget
  pub completed : behind.completed ≡ before.completed
  pub verified : behind.verified ≡ before.verified
  pub handoffs : behind.handoffs ≡ before.handoffs
  pub mutations : behind.mutations ≡ before.mutations
  pub artifacts : behind.artifacts ≡ before.artifacts

module _ {Metadata : Type 0} (outside : Outside Metadata) where
  IsFrozen-refl : (s : Session Metadata) → s.state ≡ closed → IsFrozen s s
  IsFrozen-refl s h = ground arith

  IsFrozen-trans : (r s t : Session Metadata) → IsFrozen r s → IsFrozen s t → IsFrozen r t
  IsFrozen-trans r s t f g = record {
    state = g.state;
    workflow_id = g.workflow_id ∙ f.workflow_id;
    action_budget = g.action_budget ∙ f.action_budget;
    completed = g.completed ∙ f.completed;
    verified = g.verified ∙ f.verified;
    handoffs = g.handoffs ∙ f.handoffs;
    mutations = g.mutations ∙ f.mutations;
    artifacts = g.artifacts ∙ f.artifacts;
  }

  note-IsFrozen :
      (entry : String) (s : Session Metadata) → s.state ≡ closed → IsFrozen s (note outside entry s)
  unfolding note
  note-IsFrozen entry s h = ground arith

  approve-IsFrozen :
      (step : String) (s : Session Metadata)
      → s.state ≡ closed
      → IsFrozen s (after outside s (grant_approval outside step s))
  unfolding grant_approval note
  approve-IsFrozen step s h = go (validate_step_id step)
    where
      go :
          (r : Result String)
          → IsFrozen s (
              after outside s (
                r >>= λ resolved. ok (
                  note outside
                    ("approved:" +++ resolved)
                    (record s { approved = add_once resolved s.approved }))))
      go (ok resolved) = ground arith
      go (err e) = IsFrozen-refl s h

  refused-IsFrozen :
      (rest : Result (Session Metadata)) (s : Session Metadata)
      → s.state ≡ closed
      → IsFrozen s (after outside s (ensure_open outside s >> rest))
  refused-IsFrozen rest s h = simp h (IsFrozen-refl s h)

  call-IsFrozen :
      (c : Command) (s : Session Metadata)
      → s.state ≡ closed
      → IsFrozen s (after outside s (call outside c s))
  unfolding call bind enter_step record_verified record_mutation record_completed record_handoff
      record_artifact consume_action close suspend resume exit_step
  call-IsFrozen (bind_to w) s h = refused-IsFrozen _ s h
  call-IsFrozen (enter step) s h = refused-IsFrozen _ s h
  call-IsFrozen (verify_step step) s h = refused-IsFrozen _ s h
  call-IsFrozen (add_mutation digest) s h = refused-IsFrozen _ s h
  call-IsFrozen (approve step) s h = approve-IsFrozen step s h
  call-IsFrozen (add_note entry) s h = note-IsFrozen entry s h
  call-IsFrozen (complete_with step digest) s h = refused-IsFrozen _ s h
  call-IsFrozen (hand_over handoff digest) s h = refused-IsFrozen _ s h
  call-IsFrozen (add_artifact key digest) s h = refused-IsFrozen _ s h
  call-IsFrozen close_it s h = ground arith
  call-IsFrozen suspend_it s h = ground arith
  call-IsFrozen resume_it s h = ground arith
  call-IsFrozen exit_it s h = ground arith
  call-IsFrozen (consume_count count) s h = refused-IsFrozen _ s h

  -- Any calls on a closed session, approvals, notes and attempts to resume it included, leave it closed,
  -- with its workflow, its action budget, and its completed and verified steps, handoffs, mutations
  -- and artifacts.
  pub run-IsFrozen :
      (cs : List Command) (s : Session Metadata) → s.state ≡ closed → IsFrozen s (run outside cs s)
  unfolding run
  run-IsFrozen [] s h = IsFrozen-refl s h
  run-IsFrozen (c ∷ cs) s h =
      let mid = after outside s (call outside c s) in
      let first = call-IsFrozen c s h in
      IsFrozen-trans s mid (run outside cs mid) first (run-IsFrozen cs mid first.state)
