-- ===== src/Queue/Tests.antt =====
-- Concrete runs of the queue.
use autonomous_ai_scout.Base.{
  ℕ, String, ◌≡◌, refl, ◌≢◌, true, false, inl, none, some, ok, err, value_error, pos, List, [], ◌∷◌,
  text_eq, if◌then◌else◌, text_length, text_take, strip, All,
}
use autonomous_ai_scout.Storage.{
  find_field, require_field, text_of, int_of, text_field, text_field_or, int_field_or, encode_all,
}
use autonomous_ai_scout.Clock.{Calendar, replace_z}
use autonomous_ai_scout.Queue.Item.{
  QueueState, pending, succeeded, failed, QueueItem, state_text, parse_state, validate_item,
  validate_timestamp, IsValidItem, ready,
}
use autonomous_ai_scout.Queue.Disk.{load, save, decode_item, load-save, encode_item}
use autonomous_ai_scout.Queue.Store.{
  Outside, claim_next, complete, claimed, update_first, completed,
}
use autonomous_ai_scout.Queue.Writes.{loads}
use autonomous_ai_scout.Queue.Moves.{Evolves}
use autonomous_ai_scout.Queue.Evolution.{step-Evolves}
use autonomous_ai_scout.Queue.Runs.{KeepsFinished, run-KeepsFinished}
use autonomous_ai_scout.Queue.Validity.{step-loads}
use autonomous_ai_scout.Queue.Claims.{claim_next-first, claim_next-bricks}
use autonomous_ai_scout.Queue.Command.{Command, claim, finish, step, run}

-- Every text but the empty one is a timestamp; its instant is its length.
abbrev calendar : Calendar
calendar = record {
  from_iso =
      λ s. if text_eq s "" then none else some (record { aware = true; instant = text_length s });
}

abbrev outside : Outside
outside = record {
  calendar = calendar;
  convert = record { render = λ _. ""; parse_int = λ _. err (value_error "invalid literal") };
  redact = λ s. s;
}

abbrev item : String → QueueState → ℕ → QueueItem
item task_id state attempts = record {
  task_id = task_id;
  task = "run tests";
  execution_id = "run-1";
  state = state;
  created_at = "t";
  updated_at = "t";
  available_at = "t";
  attempts = pos attempts;
  last_error = "";
}

abbrev done_and_waiting : List QueueItem
done_and_waiting = item "a" succeeded 1 ∷ item "b" pending 0 ∷ []

valid_items : All (IsValidItem calendar) done_and_waiting
unfolding validate_item validate_timestamp text_length strip replace_z
valid_items = (refl, (refl, tt))

load-save_example : load calendar outside.convert (save done_and_waiting) ≡ ok done_and_waiting
load-save_example = load-save calendar outside.convert done_and_waiting valid_items

abbrev claimed_b : List QueueItem
claimed_b = item "a" succeeded 1 ∷ claimed "now" (item "b" pending 0) ∷ []

b_is_due : ready calendar 9 (item "b" pending 0) ≡ ok true
unfolding ready text_length
b_is_due = refl

claim_next-first_example :
    claim_next outside 9 "now" (save done_and_waiting)
    ≡ (ok (some (claimed "now" (item "b" pending 0))), save claimed_b)
claim_next-first_example =
    claim_next-first outside 9 "now" (save done_and_waiting) (item "a" succeeded 1 ∷ []) []
      (item "b" pending 0) load-save_example (inl refl, tt) refl b_is_due

claimed_loads : loads outside (step outside (claim 9 "now") (save done_and_waiting)) ≡ ok claimed_b
unfolding step claim_next claimed validate_item validate_timestamp text_length strip replace_z ready
    load save find_field encode_all text_field require_field text_of int_field_or int_of
    text_field_or parse_state state_text decode_item encode_item
claimed_loads = refl

step-Evolves_example : Evolves done_and_waiting claimed_b
step-Evolves_example =
    step-Evolves outside (save done_and_waiting) load-save_example (claim 9 "now") claimed_loads

abbrev claim_then_fail : List Command
claim_then_fail = claim 9 "now" ∷ finish "b" false "broken" "later" ∷ []

abbrev failed_b : List QueueItem
failed_b =
    item "a" succeeded 1
    ∷ record (item "b" failed 1) { updated_at = "later"; last_error = "broken" }
    ∷ []

failed_loads : loads outside (run outside claim_then_fail (save done_and_waiting)) ≡ ok failed_b
unfolding run step claim_next claimed complete completed update_first validate_item
    validate_timestamp text_length strip replace_z ready load save find_field encode_all text_field
    require_field text_of int_field_or int_of text_field_or parse_state state_text decode_item
    encode_item text_take
failed_loads = refl

run-KeepsFinished_example : KeepsFinished done_and_waiting failed_b
run-KeepsFinished_example =
    run-KeepsFinished outside claim_then_fail (save done_and_waiting) done_and_waiting failed_b
      load-save_example failed_loads

stamped : (label : String) → validate_timestamp calendar "now" label ≡ ok tt
unfolding validate_timestamp replace_z
stamped label = refl

step-loads_example :
    (ys : List QueueItem) × (loads outside (step outside (claim 9 "now") (save done_and_waiting))
      ≡ ok ys)
step-loads_example =
    step-loads outside (save done_and_waiting) done_and_waiting (claim 9 "now") load-save_example
      (stamped, (refl, (refl, tt)))

worn_out : All (IsValidItem calendar) (item "w" pending 1000 ∷ [])
unfolding validate_item validate_timestamp text_length strip replace_z
worn_out = (refl, tt)

w_is_due : ready calendar 9 (item "w" pending 1000) ≡ ok true
unfolding ready text_length
w_is_due = refl

claim_next-bricks_example :
    ((claim_next outside 9 "now" (save (item "w" pending 1000 ∷ []))).0
      ≡ ok (some (claimed "now" (item "w" pending 1000))))
    × ((ys : List QueueItem)
        → loads outside (claim_next outside 9 "now" (save (item "w" pending 1000 ∷ []))).1 ≢ ok ys)
claim_next-bricks_example =
    claim_next-bricks outside 9 "now" (save (item "w" pending 1000 ∷ [])) [] []
      (item "w" pending 1000)
      (load-save calendar outside.convert (item "w" pending 1000 ∷ []) worn_out) tt refl w_is_due
      refl
