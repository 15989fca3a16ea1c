-- ===== src/Session/Model.antt =====
-- The state of a workflow session (workflow/session.py), its action budget (workflow/models.py) and
-- the identifiers that it accepts (workflow/policy.py). Of the exceptions, `WorkflowValidationError`
-- and `ValueError` are `value_error`, `WorkflowSecurityError` is `permission_error`, and
-- `WorkflowStateError` and `ActionBudgetExceededError` are `runtime_error`; a message leaves out the
-- numbers.
use autonomous_ai_scout.Base.{
  ℕ, ◌+◌, String, Bool, true, false, not, ◌&&◌, ◌||◌, Result, ok, err, ◌>>◌, raise_if, value_error,
  permission_error, runtime_error, List, [], ◌∷◌, ◌++◌, length, if◌then◌else◌, ltb, leb, ◌==◌,
  is_empty, strip, text_length, ◌+++◌, Dict, ℤ, pos, negsuc, contains,
}
use Prim.Native.Char.{code}

abbrev pub max_action_budget : ℕ
max_action_budget = 100

abbrev pub max_history : ℕ
max_history = 100

abbrev pub max_depth : ℕ
max_depth = 8

pub data SessionState : Type 0 where
  opened closed suspended resumed : SessionState

abbrev pub state_text : SessionState → String
state_text opened = "open"
state_text closed = "closed"
state_text suspended = "suspended"
state_text resumed = "resumed"

-- `WorkflowSession.active`
abbrev pub is_active : SessionState → Bool
is_active opened = true
is_active resumed = true
is_active _ = false

-- `ActionBudget`; `__post_init__` lets a positive limit through that is at most `max_action_budget`.
pub record ActionBudget : Type 0 where
  pub limit : ℕ
  pub used : ℕ

unfoldable pub make_budget : ℤ → Result ActionBudget
make_budget (negsuc n) = err (value_error "action budget limit must be positive")
make_budget (pos n) =
    if n == 0
    then err (value_error "action budget limit must be positive")
    else if ltb max_action_budget n
    then err (value_error "action budget limit exceeds the maximum bound")
    else ok (record { limit = n; used = 0 })

-- `ActionBudget.consume`
unfoldable pub consume : ℤ → ActionBudget → Result ActionBudget
consume (negsuc n) budget = err (value_error "action count must be positive")
consume (pos n) budget =
    if n == 0
    then err (value_error "action count must be positive")
    else if ltb budget.limit (budget.used + n)
    then err (runtime_error "workflow action budget exceeded")
    else ok (record budget { used = budget.used + n })

-- `_CONTROL_CHARS`
abbrev pub is_control : ℕ → Bool
is_control c = leb c 8 || c == 11 || c == 12 || (leb 14 c && leb c 31) || c == 127

unfoldable pub has_control : String → Bool
has_control String.[] = false
has_control (String.◌∷◌ c s) = is_control (code c) || has_control s

abbrev pub is_id_start : ℕ → Bool
is_id_start c = (leb b'a' c && leb c b'z') || (leb b'0' c && leb c b'9')

unfoldable pub is_id_rest : String → Bool
is_id_rest String.[] = true
is_id_rest (String.◌∷◌ c s) =
    (is_id_start (code c) || code c == b'.' || code c == b'_' || code c == b'-') && is_id_rest s

-- `_ID_PATTERN.match`, of a text that `strip` has left.
unfoldable pub is_id : String → Bool
unfolding is_id_rest
is_id String.[] = false
is_id (String.◌∷◌ c s) = is_id_start (code c) && is_id_rest s

-- `_validate_identifier`, of a text: the identifier without the whitespace around it.
unfoldable pub validate_identifier : String → ℕ → String → Result String
unfolding has_control is_id
validate_identifier label max_length value =
    let cleaned = strip value in
    do
      raise_if (is_empty cleaned) (value_error (label +++ " cannot be empty"))
      raise_if (has_control cleaned)
          (permission_error ("control characters are not permitted in " +++ label))
      raise_if (ltb max_length (text_length cleaned))
          (value_error (label +++ " exceeds max length"))
      raise_if (not (is_id cleaned)) (
          value_error
            (label +++ " must be lowercase and may only contain letters, digits, '.', '_' and '-'"))
      ok cleaned

abbrev pub validate_workflow_id : String → Result String
validate_workflow_id value = validate_identifier "workflow id" 128 value

abbrev pub validate_step_id : String → Result String
validate_step_id value = validate_identifier "step id" 128 value

-- `xs[-n:]`, for n above 0.
unfoldable pub take_last : ℕ → List String → List String
take_last n [] = []
take_last n (x ∷ xs) = let rest = take_last n xs in if leb (length (x ∷ xs)) n then x ∷ xs else rest

-- `WorkflowSession`; `Metadata` is the type of the metadata mappings.
pub record Session (Metadata : Type 0) : Type 0 where
  pub session_id : String
  pub workflow_id : String
  pub state : SessionState
  pub current_step : String
  pub epoch : ℕ
  pub execution_depth : ℕ
  pub history : List String
  pub metadata : Metadata
  pub action_budget : ActionBudget
  pub completed : Dict String
  pub verified : List String
  pub handoffs : Dict String
  pub mutations : List String
  pub approved : List String
  pub artifacts : Dict String

-- `if x not in xs: xs.append(x)`, and `set.add`.
abbrev pub add_once : String → List String → List String
add_once x xs = if contains x xs then xs else xs ++ x ∷ []

-- What the session takes from elsewhere: `redact_secret` and `validate_metadata`.
pub record Outside (Metadata : Type 0) : Type 0 where
  pub redact : String → String
  pub validate_metadata : Metadata → Result Metadata
