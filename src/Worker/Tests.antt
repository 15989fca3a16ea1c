-- ===== src/Worker/Tests.antt =====
-- A concrete run of the worker.
use autonomous_ai_scout.Base.{
  text_take, ℕ, ◌+◌, String, ◌≡◌, refl, true, none, some, Result, ok, err, value_error, pos, [],
  ◌∷◌, text_eq, if◌then◌else◌, text_length, ltb,
}
use autonomous_ai_scout.Storage.{
  text_field_or, int_field_or, text_field, encode_all, find_field, Json, int, missing,
}
use autonomous_ai_scout.Clock.{replace_z}
use autonomous_ai_scout.Queue.Item.{
  ready, validate_timestamp, validate_item, state_text, parse_state, QueueItem, pending,
}
use autonomous_ai_scout.Queue.Disk.{encode_item, decode_item, load, save}
use autonomous_ai_scout.Queue.Store.{recover_running, completed, update_first, claimed, Outside}
use autonomous_ai_scout.Leases.Store.{encode_lease, Floats, Limits}
use autonomous_ai_scout.Worker.Loop.{
  reload, Handled, answered, raised, Times, World, run_until_empty,
}
use autonomous_ai_scout.Worker.Rounds.{HasRun, run_until_empty-HasRun}

-- Every text but the empty one is a timestamp; its instant is its length.
abbrev outside : Outside
outside = record {
  calendar = record {
    from_iso =
        λ s. if text_eq s "" then none else some (record { aware = true; instant = text_length s });
  };
  convert = record { render = λ _. ""; parse_int = λ _. err (value_error "invalid literal") };
  redact = λ s. s;
}

abbrev float_of : Json → Result ℕ
float_of (int (pos n)) = ok n
float_of _ = err (value_error "could not convert to float")

abbrev seconds : Floats ℕ
seconds = record {
  float = float_of;
  number = λ n. int (pos n);
  is_later = λ a b. ltb b a;
  plus_seconds = λ a b. a + b;
}

abbrev one_lease : Limits
one_lease = record { max_active = 1; ttl_seconds = 10 }

abbrev waiting : String → QueueItem
waiting task_id = record {
  task_id = task_id;
  task = "run tests";
  execution_id = "run-1";
  state = pending;
  created_at = "t";
  updated_at = "t";
  available_at = "t";
  attempts = pos 0;
  last_error = "";
}

-- The handler raises for "b".
abbrev handler : QueueItem → Handled
handler item = if text_eq item.task_id "b" then raised "OSError" else answered true

abbrev times : ℕ → Times ℕ
times n = record {
  instant = 5;
  claimed_at = "t";
  completed_at = "t";
  failed_at = "t";
  lease_now = n;
  lease_later = n;
  lease_id = "lease";
  release_now = n;
}

abbrev start : World
start = record { queue = save (waiting "a" ∷ waiting "b" ∷ []); leases = missing }

start_counts :
    (run_until_empty outside seconds (some one_lease) handler 5 (λ n. "t") times start).0
    ≡ ok (record { processed = 2; succeeded_count = 1; failed_count = 1 })
unfolding run_until_empty load save find_field encode_all decode_item encode_item text_field
    parse_state state_text int_field_or validate_item text_length text_field_or validate_timestamp
    replace_z ready claimed encode_lease update_first completed reload text_take
start_counts = refl

run_until_empty-HasRun_example :
    HasRun outside seconds
      (some one_lease)
      handler
      times
      5
      start.leases
      (recover_running outside (λ n. "t") start.queue)
      (run_until_empty outside seconds (some one_lease) handler 5 (λ n. "t") times start)
run_until_empty-HasRun_example =
    run_until_empty-HasRun outside seconds (some one_lease) handler 5 (λ n. "t") times start
