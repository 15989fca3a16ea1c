-- ===== src/Session/Snapshot.antt =====
-- The checkpoint of a session and its restoration (workflow/session.py).
use autonomous_ai_scout.Base.{
  keys, ℕ, ◌+◌, ◌≤◌, String, ◌≡◌, ◌∙◌, Option, none, some, Result, ok, ◌>>=◌, >>=-eq-ok, List, [],
  ◌∷◌, length, if◌then◌else◌, text_le, sort_texts, Dict, insert, ℤ, pos, negsuc, clamp_at_zero, min,
  max, arith, ◌==◌, ok-injective, ap, subst, sym,
}
use autonomous_ai_scout.Session.Model.{
  SessionState, suspended, resumed, ActionBudget, make_budget, Session, add_once, Outside,
  max_action_budget,
}
use autonomous_ai_scout.Session.Steps.{new_session, optional_workflow_id}

-- `WorkflowSessionSnapshot`. The two numbers of the budget may be any integers: a checkpoint may have
-- been tampered with.
pub record SessionSnapshot (Metadata : Type 0) : Type 0 where
  pub session_id : String
  pub workflow_id : String
  pub state : SessionState
  pub current_step : String
  pub completed_steps : List String
  pub completed_digests : Dict String
  pub verified_steps : List String
  pub handoff_digests : Dict String
  pub mutation_digests : List String
  pub approved_steps : List String
  pub artifact_digests : Dict String
  pub action_limit : ℤ
  pub action_used : ℤ
  pub execution_depth : ℕ
  pub epoch : ℕ
  pub history : List String
  pub metadata : Metadata

-- `tuple(sorted(d.items()))`; the keys of a mapping differ, so they alone decide.
unfoldable pub insert_entry : String × String → Dict String → Dict String
insert_entry e [] = e ∷ []
insert_entry e (f ∷ d) =
    let rest = insert_entry e d in if text_le e.0 f.0 then e ∷ f ∷ d else f ∷ rest

unfoldable pub sort_entries : Dict String → Dict String
unfolding insert_entry
sort_entries [] = []
sort_entries (e ∷ d) = insert_entry e (sort_entries d)

-- `{key: value for key, value in entries}` behind the entries that are taken already.
unfoldable pub take_entries : Dict String → Dict String → Dict String
unfolding insert
take_entries d [] = d
take_entries d ((k, v) ∷ entries) = take_entries (insert k v d) entries

-- `{item for item in items}`
unfoldable pub take_texts : List String → List String → List String
take_texts xs [] = xs
take_texts xs (y ∷ ys) = take_texts (add_once y xs) ys

unfoldable pub snapshot : {Metadata : Type 0} → Session Metadata → SessionSnapshot Metadata
unfolding sort_texts sort_entries
snapshot session = record {
  session_id = session.session_id;
  workflow_id = session.workflow_id;
  state = session.state;
  current_step = session.current_step;
  completed_steps = sort_texts (keys session.completed);
  completed_digests = sort_entries session.completed;
  verified_steps = sort_texts session.verified;
  handoff_digests = sort_entries session.handoffs;
  mutation_digests = sort_texts session.mutations;
  approved_steps = sort_texts session.approved;
  artifact_digests = sort_entries session.artifacts;
  action_limit = pos session.action_budget.limit;
  action_used = pos session.action_budget.used;
  execution_depth = session.execution_depth;
  epoch = session.epoch;
  history = session.history;
  metadata = session.metadata;
}

-- `int(snapshot.action_limit or MAX_WORKFLOW_ACTION_BUDGET)`, no less than 1 and no more than the
-- maximum.
unfoldable pub claimed_limit : ℤ → ℕ
claimed_limit (negsuc n) = min (max 1 0) max_action_budget
claimed_limit (pos n) = if n == 0 then max_action_budget else min (max 1 n) max_action_budget

abbrev pub chosen_budget : Option ActionBudget → ℤ → Result ActionBudget
chosen_budget (some budget) limit = ok budget
chosen_budget none limit = make_budget (pos (claimed_limit limit))

-- The work that the snapshot itself records.
abbrev pub recorded_work : {Metadata : Type 0} → SessionSnapshot Metadata → ℕ
recorded_work shot = length shot.completed_digests + length shot.handoff_digests

abbrev pub restored_state : SessionState → SessionState
restored_state suspended = resumed
restored_state state = state

abbrev pub spend : {Metadata : Type 0} → SessionSnapshot Metadata → ActionBudget → ActionBudget
spend shot budget = record budget {
  used = min (max (clamp_at_zero shot.action_used) (recorded_work shot)) budget.limit;
}

module _ {Metadata : Type 0} (outside : Outside Metadata) where
  -- The fields that `restore` sets on the new session.
  unfoldable pub refill : SessionSnapshot Metadata → Session Metadata → Session Metadata
  unfolding take_entries take_texts
  refill shot session = record session {
    current_step = shot.current_step;
    epoch = shot.epoch;
    execution_depth = 0;
    history = shot.history;
    completed = take_entries [] shot.completed_digests;
    verified = shot.verified_steps;
    handoffs = take_entries [] shot.handoff_digests;
    mutations = take_texts [] shot.mutation_digests;
    approved = shot.approved_steps;
    artifacts = take_entries [] shot.artifact_digests;
    state = restored_state shot.state;
  }

  unfoldable pub restore :
      Option ActionBudget → SessionSnapshot Metadata → Result (Session Metadata)
  unfolding refill
  restore given shot = do
    budget ← chosen_budget given shot.action_limit
    session ← new_session outside shot.session_id shot.workflow_id (spend shot budget) shot.metadata
    ok (refill shot session)

  new_session-budget :
      (id w : String) (budget : ActionBudget) (m : Metadata) {s : Session Metadata}
      → new_session outside id w budget m ≡ ok s
      → s.action_budget ≡ budget
  unfolding new_session
  new_session-budget id w budget m e =
      let (x, _, e1) = >>=-eq-ok (optional_workflow_id outside w) _ e in
      let (y, _, e2) = >>=-eq-ok (outside.validate_metadata m) _ e1 in
      ap (λ (s : Session Metadata). s.action_budget) (sym (ok-injective e2))

  make_budget-limit :
      (n : ℕ) {budget : ActionBudget}
      → make_budget (pos n) ≡ ok budget
      → (budget.limit ≡ n) × (budget.limit ≤ max_action_budget)
  unfolding make_budget
  make_budget-limit n e = ground arith

  -- The limit is the one of the budget that the caller gives, and 100 at most where it gives none.
  pub HasLimit : Option ActionBudget → ℕ → Type 0
  HasLimit none limit = limit ≤ 100
  HasLimit (some budget) limit = limit ≡ budget.limit

  chosen_budget-HasLimit :
      (given : Option ActionBudget) (claimed : ℤ) {budget : ActionBudget}
      → chosen_budget given claimed ≡ ok budget
      → HasLimit given budget.limit
  unfolding HasLimit
  chosen_budget-HasLimit none claimed made = (make_budget-limit (claimed_limit claimed) made).1
  chosen_budget-HasLimit (some budget) claimed made = ground (arith, made)

  -- A session restored from any snapshot, whatever numbers it claims, has the limit of the budget that
  -- the caller gives, or one of at most 100 where it gives none. It has used no more than its limit,
  -- and all of it or at least the number of the completed steps and the handoffs in the snapshot, and
  -- all of it or at least what the snapshot claims to have used.
  pub restore-budget :
      (given : Option ActionBudget) (shot : SessionSnapshot Metadata) (session : Session Metadata)
      → restore given shot ≡ ok session
      → HasLimit given session.action_budget.limit
        × (session.action_budget.used ≤ session.action_budget.limit)
        × (min
              (length shot.completed_digests + length shot.handoff_digests)
              session.action_budget.limit
            ≤ session.action_budget.used)
        × (min (clamp_at_zero shot.action_used) session.action_budget.limit
            ≤ session.action_budget.used)
  unfolding restore
  restore-budget given shot session e =
      let (budget, made, e1) = >>=-eq-ok (chosen_budget given shot.action_limit) _ e in
      let (fresh, created, e2) =
        >>=-eq-ok
          (new_session outside shot.session_id shot.workflow_id (spend shot budget) shot.metadata) _
          e1 in
      let bounded = chosen_budget-HasLimit given shot.action_limit made in
      let same =
        new_session-budget shot.session_id shot.workflow_id (spend shot budget) shot.metadata
          created in
      let final : session.action_budget ≡ spend shot budget =
        ap (λ (s : Session Metadata). s.action_budget) (sym (ok-injective e2)) ∙ same in
      subst
        (λ (b : ActionBudget).
          HasLimit given b.limit
          × (b.used ≤ b.limit)
          × (min (length shot.completed_digests + length shot.handoff_digests) b.limit ≤ b.used)
          × (min (clamp_at_zero shot.action_used) b.limit ≤ b.used))
        (sym final) (bounded, omega arith, omega arith, omega arith)
