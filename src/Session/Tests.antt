-- ===== src/Session/Tests.antt =====
-- Concrete sessions.
use autonomous_ai_scout.Base.{
  ◌+◌, none, length, text_length, strip, ◌≤◌, min, refl, ok, List, [], ◌∷◌, pos, negsuc,
  clamp_at_zero,
}
use autonomous_ai_scout.Session.Model.{
  validate_identifier, opened, closed, suspended, resumed, ActionBudget, Session, Outside,
  make_budget,
}
use autonomous_ai_scout.Session.Steps.{
  new_session, Command, complete_with, verify_step, approve, enter, resume_it, consume_count, run,
}
use autonomous_ai_scout.Session.Bounds.{IsSound, session-IsSound}
use autonomous_ai_scout.Session.Closed.{IsFrozen, run-IsFrozen}
use autonomous_ai_scout.Session.Snapshot.{
  claimed_limit, SessionSnapshot, HasLimit, restore, restore-budget,
}

-- A session without metadata, that redacts nothing.
abbrev outside : Outside (Unit {0})
outside = record { redact = λ s. s; validate_metadata = λ m. ok m }

abbrev budget : ActionBudget
budget = record { limit = 5; used = 0 }

abbrev fresh : Session (Unit {0})
fresh = record {
  session_id = "s1";
  workflow_id = "flow";
  state = opened;
  current_step = "";
  epoch = 0;
  execution_depth = 0;
  history = [];
  metadata = tt;
  action_budget = budget;
  completed = [];
  verified = [];
  handoffs = [];
  mutations = [];
  approved = [];
  artifacts = [];
}

abbrev calls : List Command
calls =
    enter "read"
    ∷ complete_with "read" "d1"
    ∷ verify_step " read "
    ∷ verify_step "send"
    ∷ consume_count (pos 9)
    ∷ []

session-IsSound_example : IsSound (run outside calls fresh)
unfolding make_budget new_session validate_identifier strip text_length
session-IsSound_example =
    session-IsSound outside (pos 5) budget " s1 " "flow" tt fresh calls refl refl

abbrev shut : Session (Unit {0})
shut = record fresh { state = closed }

run-IsFrozen_example :
    IsFrozen shut (run outside (resume_it ∷ complete_with "read" "d1" ∷ approve "read" ∷ []) shut)
run-IsFrozen_example =
    run-IsFrozen outside (resume_it ∷ complete_with "read" "d1" ∷ approve "read" ∷ []) shut refl

-- A checkpoint that claims to have used less than nothing.
abbrev tampered : SessionSnapshot (Unit {0})
tampered = record {
  session_id = "s1";
  workflow_id = "flow";
  state = suspended;
  current_step = "read";
  completed_steps = "read" ∷ [];
  completed_digests = ("read", "d1") ∷ [];
  verified_steps = [];
  handoff_digests = ("h1", "d2") ∷ [];
  mutation_digests = [];
  approved_steps = [];
  artifact_digests = [];
  action_limit = pos 5000;
  action_used = negsuc 6;
  execution_depth = 3;
  epoch = 4;
  history = [];
  metadata = tt;
}

abbrev restored : Session (Unit {0})
restored = record {
  session_id = "s1";
  workflow_id = "flow";
  state = resumed;
  current_step = "read";
  epoch = 4;
  execution_depth = 0;
  history = [];
  metadata = tt;
  action_budget = record { limit = 100; used = 2 };
  completed = ("read", "d1") ∷ [];
  verified = [];
  handoffs = ("h1", "d2") ∷ [];
  mutations = [];
  approved = [];
  artifacts = [];
}

restore-budget_example :
    HasLimit outside none restored.action_budget.limit
    × (restored.action_budget.used ≤ restored.action_budget.limit)
    × (min
          (length tampered.completed_digests + length tampered.handoff_digests)
          restored.action_budget.limit
        ≤ restored.action_budget.used)
    × (min (clamp_at_zero tampered.action_used) restored.action_budget.limit
        ≤ restored.action_budget.used)
unfolding restore make_budget claimed_limit new_session validate_identifier strip text_length
restore-budget_example = restore-budget outside none tampered restored refl
