-- ===== src/Effects/Record.antt =====
-- `SideEffectState`, `SideEffectRecord` and `_validate` (external_side_effects.py).
use autonomous_ai_scout.Base.{
  ℕ, String, ◌≡◌, refl, not, ◌||◌, none, some, Result, ok, err, ◌>>◌, raise_if, value_error,
  text_eq, if◌then◌else◌, ltb, is_empty, text_length, ◌+++◌, ◌==◌,
}
use autonomous_ai_scout.Clock.{Calendar, replace_z}

abbrev pub max_records : ℕ
max_records = 10000

abbrev pub max_text : ℕ
max_text = 4000

pub data SideEffectState : Type 0 where
  reserved executed failed unknown : SideEffectState

-- `state.value`
unfoldable pub state_text : SideEffectState → String
state_text reserved = "reserved"
state_text executed = "executed"
state_text failed = "failed"
state_text unknown = "unknown"

-- `SideEffectState(value)`
unfoldable pub parse_state : String → Result SideEffectState
parse_state s =
    if text_eq s "reserved"
    then ok reserved
    else if text_eq s "executed"
    then ok executed
    else if text_eq s "failed"
    then ok failed
    else if text_eq s "unknown"
    then ok unknown
    else err (value_error ("'" +++ s +++ "' is not a valid SideEffectState"))

pub record SideEffectRecord : Type 0 where
  pub key : String
  pub operation : String
  pub request_digest : String
  pub state : SideEffectState
  pub result_digest : String
  pub reason : String
  pub created_at : String
  pub updated_at : String

module _ (calendar : Calendar) where
  -- The loop of `_validate` over the two timestamps.
  unfoldable pub validate_time : String → String → Result (Unit {0})
  validate_time label value = elim (calendar.from_iso (replace_z value)) [
    | none ↦ err (value_error (label +++ " is invalid"))
    | some stamp ↦ ok tt
  ]

  -- `_validate`
  unfoldable pub validate : SideEffectRecord → Result (Unit {0})
  validate record' = do
    raise_if (is_empty record'.key || ltb 512 (text_length record'.key))
        (value_error "side-effect key is invalid")
    raise_if (is_empty record'.operation || ltb 256 (text_length record'.operation))
        (value_error "side-effect operation is invalid")
    raise_if (not (text_length record'.request_digest == 64))
        (value_error "side-effect request digest is invalid")
    raise_if
        (ltb 64 (text_length record'.result_digest) || ltb max_text (text_length record'.reason))
        (value_error "side-effect record is too large")
    validate_time "created_at" record'.created_at
    validate_time "updated_at" record'.updated_at

  abbrev pub IsValidRecord : SideEffectRecord → Type 0
  IsValidRecord record' = validate record' ≡ ok tt

pub parse_state-state_text : (s : SideEffectState) → parse_state (state_text s) ≡ ok s
unfolding parse_state state_text
parse_state-state_text reserved = refl
parse_state-state_text _ = refl
