-- ===== src/Effects/Tests.antt =====
-- Concrete runs of the ledger of side effects.
use autonomous_ai_scout.Base.{
  String, ◌≡◌, refl, true, false, some, ok, err, value_error, List, [], ◌∷◌, text_length, text_take,
  strip,
}
use autonomous_ai_scout.Storage.{
  missing, find_field, require_field, text_of, text_field, text_field_or, encode_all,
}
use autonomous_ai_scout.Clock.{replace_z}
use autonomous_ai_scout.Effects.Record.{
  reserved, failed, state_text, parse_state, validate, validate_time,
}
use autonomous_ai_scout.Effects.Disk.{
  find, has_key, put, save, load, decode_record, encode_record, sort_records, insert_sorted,
}
use autonomous_ai_scout.Effects.Store.{
  Outside, SideEffectDecision, claim, candidate, claim_existing, update_current, mark_failed,
  Command, failed_effect, step, run,
}
use autonomous_ai_scout.Effects.Once.{claim_once}

abbrev outside : Outside
outside = record {
  calendar = record { from_iso = λ s. some (record { aware = true; instant = text_length s }) };
  convert = record { render = λ _. ""; parse_int = λ _. err (value_error "invalid literal") };
}

abbrev digest : String
digest = "0123456789abcdef0123456789abcdef0123456789abcdef0123456789abcdef"

abbrev allowed : SideEffectDecision
allowed = record {
  allowed = true;
  replay_blocked = false;
  reason = "side effect reserved for one external execution";
  decided = record {
    key = "mail-1";
    operation = "send";
    request_digest = digest;
    state = reserved;
    result_digest = "";
    reason = "";
    created_at = "t";
    updated_at = "t";
  };
}

first_claim : (claim outside "mail-1" "send" digest "t" missing).0 ≡ ok allowed
unfolding claim candidate claim_existing validate validate_time text_length strip replace_z load
    find
first_claim = refl

abbrev mail_failed : List Command
mail_failed = failed_effect "mail-1" "timeout" "u" ∷ []

abbrev refused : SideEffectDecision
refused = record {
  allowed = false;
  replay_blocked = true;
  reason = "side effect has a terminal failed record; automatic replay is blocked";
  decided = record {
    key = "mail-1";
    operation = "send";
    request_digest = digest;
    state = failed;
    result_digest = "";
    reason = "timeout";
    created_at = "t";
    updated_at = "u";
  };
}

second_claim :
    (claim outside " mail-1" "send" digest "v"
      (run outside mail_failed (claim outside "mail-1" "send" digest "t" missing).1)).0
    ≡ ok refused
unfolding claim candidate claim_existing validate validate_time text_length strip replace_z load
    find run step mark_failed put save encode_all encode_record decode_record sort_records
    find_field text_field require_field text_of text_field_or has_key state_text parse_state
    text_take insert_sorted update_current
second_claim = refl

claim_once_example : refused.allowed ≡ false
claim_once_example =
    claim_once outside missing "mail-1" "send" digest "t" allowed mail_failed " mail-1" "send"
      digest "v" refused first_claim refl (unfold strip in refl) second_claim
