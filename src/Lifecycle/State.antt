-- ===== src/Lifecycle/State.antt =====
-- action_lifecycle.py: the states of an action, the transitions between them, and the entry to and
-- the completion of a lifecycle.
use autonomous_ai_scout.Base.{
  String, Bool, true, false, not, ◌&&◌, ◌||◌, Option, none, some, Result, ok, err, value_error,
  List, [], ◌∷◌, text_eq, if◌then◌else◌, is_blank, ◌+++◌, contains, is_nil,
}

pub data LifecycleState : Type 0 where
  proposed validated tested secured policy_checked approved claimed executed : LifecycleState
  verified blocked completed : LifecycleState

-- `state.value`
unfoldable pub value : LifecycleState → String
value proposed = "proposed"
value validated = "validated"
value tested = "tested"
value secured = "secured"
value policy_checked = "policy_checked"
value approved = "approved"
value claimed = "claimed"
value executed = "executed"
value verified = "verified"
value blocked = "blocked"
value completed = "completed"

abbrev pub all_states : List LifecycleState
all_states =
    proposed ∷ validated ∷ tested ∷ secured ∷ policy_checked ∷ approved ∷ claimed ∷ executed
    ∷ verified ∷ blocked ∷ completed ∷ []

unfoldable pub find_state : String → List LifecycleState → Option LifecycleState
unfolding value
find_state s [] = none
find_state s (state ∷ states) = if text_eq (value state) s then some state else find_state s states

-- `LifecycleState(text)`, none where it raises.
unfoldable pub parse_state : String → Option LifecycleState
unfolding find_state
parse_state s = find_state s all_states

-- What a caller passes where the code says `LifecycleState | str`, and any other value.
pub data StateInput : Type 0 where
  member : LifecycleState → StateInput
  named : String → StateInput
  other : StateInput

-- `LifecycleState(value)`
unfoldable pub read_state : StateInput → Option LifecycleState
unfolding parse_state
read_state (member state) = some state
read_state (named s) = parse_state s
read_state other = none

-- `_TERMINAL`
abbrev pub is_terminal : LifecycleState → Bool
is_terminal blocked = true
is_terminal completed = true
is_terminal _ = false

-- `target in _TRANSITIONS[current]`
unfoldable pub is_transition : LifecycleState → LifecycleState → Bool
is_transition blocked _ = false
is_transition completed _ = false
is_transition _ blocked = true
is_transition proposed validated = true
is_transition validated tested = true
is_transition tested secured = true
is_transition secured policy_checked = true
is_transition policy_checked approved = true
is_transition approved claimed = true
is_transition claimed executed = true
is_transition executed verified = true
is_transition verified completed = true
is_transition _ _ = false

pub record LifecycleDecision : Type 0 where
  pub allowed : Bool
  pub reason : String
  pub state : LifecycleState

-- The part of `can_transition` behind the `try`.
unfoldable pub decide : LifecycleState → LifecycleState → LifecycleDecision
unfolding value is_transition
decide current target =
    if is_terminal current
    then record { allowed = false; reason = "lifecycle is already terminal"; state = current }
    else if not (is_transition current target)
    then record {
      allowed = false;
      reason = "invalid lifecycle transition: " +++ value current +++ " -> " +++ value target;
      state = current;
    }
    else record { allowed = true; reason = "lifecycle transition is allowed"; state = target }

abbrev pub decide_read : Option LifecycleState → Option LifecycleState → LifecycleDecision
decide_read (some current) (some target) = decide current target
decide_read (some current) none = record {
  allowed = false;
  reason = "lifecycle state is invalid";
  state = blocked;
}
decide_read none target = record {
  allowed = false;
  reason = "lifecycle state is invalid";
  state = blocked;
}

unfoldable pub can_transition : StateInput → StateInput → LifecycleDecision
unfolding decide read_state
can_transition current target = decide_read (read_state current) (read_state target)

unfoldable pub advance : StateInput → StateInput → Result LifecycleState
unfolding can_transition
advance state target =
    let decision = can_transition state target in
    if not decision.allowed then err (value_error decision.reason) else ok decision.state

-- action_queue.py
pub record PendingAction : Type 0 where
  pub id : String
  pub task : String
  pub steps : List String
  pub risk : String
  pub reason : String
  pub status : String
  pub created_at : String

-- `initial_state`, of a `PendingAction`.
unfoldable pub initial_state : PendingAction → LifecycleDecision
initial_state action =
    if is_blank action.id || is_blank action.task || is_nil action.steps
    then record { allowed = false; reason = "action is incomplete"; state = blocked }
    else if not (contains action.status ("pending" ∷ "approved" ∷ []))
    then record {
      allowed = false;
      reason = "action status is outside the lifecycle entry boundary";
      state = blocked;
    }
    else record {
      allowed = true;
      reason = "action entered lifecycle at proposed state";
      state = proposed;
    }

-- The states in the order that a completion requires.
abbrev pub required_states : List LifecycleState
required_states =
    proposed ∷ validated ∷ tested ∷ secured ∷ policy_checked ∷ approved ∷ claimed ∷ executed
    ∷ verified ∷ []

abbrev pub cons_state :
    Option LifecycleState → Option (List LifecycleState) → Option (List LifecycleState)
cons_state (some state) (some states) = some (state ∷ states)
cons_state (some state) none = none
cons_state none states = none

-- `[LifecycleState(item) for item in states]`
unfoldable pub read_states : List StateInput → Option (List LifecycleState)
unfolding read_state
read_states [] = some []
read_states (input ∷ inputs) = cons_state (read_state input) (read_states inputs)

unfoldable pub same_state : LifecycleState → LifecycleState → Bool
unfolding value
same_state a b = text_eq (value a) (value b)

unfoldable pub same_states : List LifecycleState → List LifecycleState → Bool
unfolding same_state
same_states [] [] = true
same_states (a ∷ observed) (b ∷ required) = same_state a b && same_states observed required
same_states _ _ = false

abbrev pub refuse : String → LifecycleDecision
refuse reason = record { allowed = false; reason = reason; state = blocked }

abbrev pub complete_read : Option (List LifecycleState) → Bool → Bool → Bool → LifecycleDecision
complete_read none approval claim post_change = refuse "lifecycle state sequence is invalid"
complete_read (some observed) approval claim post_change =
    if not (same_states observed required_states)
    then refuse "lifecycle completion requires the full ordered gate sequence"
    else if not approval
    then refuse "approval is missing"
    else if not claim
    then refuse "approval claim is missing"
    else if not post_change
    then refuse "post-change verification is missing"
    else record {
      allowed = true;
      reason = "complete lifecycle is verified; completion is allowed";
      state = completed;
    }

unfoldable pub authorize_lifecycle_completion :
    List StateInput → Bool → Bool → Bool → LifecycleDecision
unfolding read_states same_states
authorize_lifecycle_completion states approval claim post_change =
    complete_read (read_states states) approval claim post_change
