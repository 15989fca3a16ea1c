-- ===== src/Gates/Tests.antt =====
-- Concrete runs of the gates.
use autonomous_ai_scout.Base.{
  none, List, [], ◌∷◌, strip, ℕ, String, ◌≡◌, refl, ◌+◌, ltb, true, false, some, ok, err, Error,
  ◌++◌, map, All, pos, negsuc, ◌↔◌, ◌⊎◌, is_empty, contains, text_eq,
}
use autonomous_ai_scout.Gates.Admission.{
  AdmissionRequest, Actual, evaluate_admission, IsAdmissible, admitted_iff,
}
use autonomous_ai_scout.Gates.Reports.{
  run_production_audit, AuditFinding, required_areas, IsCovered, audit-covers,
}
use autonomous_ai_scout.Gates.Release.{
  Release, normalized, forbidden_release_targets, evaluate_release_gate, release-allowed_iff,
}
use autonomous_ai_scout.Gates.Recovery.{classify_failure, retry_after, overflow, Delay}
use autonomous_ai_scout.Gates.Budget.{
  Seconds, ResourceBudget, Request, make_budget, no_usage, consume, consume_all, BudgetUsage,
  IsUsageAfter, IsWithin, budget-holds, consume-cases,
}
use autonomous_ai_scout.Gates.Stages.{
  GateStage, proposal, validation, tests, security, policy, approval, execution, post_tests,
  result_verification, Outcome, verdict, message, raised, check, run_verification_gate, run_stages,
  Succeeds, Passes, execution-guarded, gate-passed_iff, gate-stops,
}

abbrev digest : String
digest = "0123456789abcdef0123456789abcdef0123456789abcdef0123456789abcdef"

abbrev request : AdmissionRequest
request = record {
  task_id = "task-1";
  execution_id = "run-1";
  expected_task_digest = digest;
  expected_authorization_digest = digest;
  side_effects = true;
  explicitly_approved = true;
}

abbrev actual : Actual
actual = record {
  task_digest = digest;
  authorization_digest = digest;
  execution_id = "run-1";
  side_effects = true;
  explicitly_approved = true;
}

admitted_iff_example :
    ((evaluate_admission
        (λ _. digest)
        request
        actual
        (record { ready = true; checks = [] })
        (record { passed = true; findings = []; reason = "" })).admitted
      ≡ true)
    ↔ IsAdmissible request actual
        (record { ready = true; checks = [] })
        (record { passed = true; findings = []; reason = "" })
admitted_iff_example =
    admitted_iff request actual (record { ready = true; checks = [] })
      (record { passed = true; findings = []; reason = "" }) (λ _. digest)

abbrev same : String → String
same s = s

abbrev release : Release
release = record {
  artifact_digest = " d1 ";
  expected_artifact_digest = "d1";
  target = "staging";
  ci_passed = true;
  post_change_verified = true;
  review_policy_passed = true;
  release_approved = true;
  allowed_targets = "sandbox" ∷ "staging" ∷ [];
}

release-allowed_iff_example : ((evaluate_release_gate same release).allowed ≡ true) ↔ (
    (is_empty (normalized same release.target) ≡ false)
    × (contains (normalized same release.target) forbidden_release_targets ≡ false)
    × (contains (normalized same release.target) (map (normalized same) release.allowed_targets)
        ≡ true)
    × (is_empty (normalized same release.artifact_digest) ≡ false)
    × (is_empty (normalized same release.expected_artifact_digest) ≡ false)
    × (text_eq
          (normalized same release.artifact_digest)
          (normalized same release.expected_artifact_digest)
        ≡ true)
    × (release.ci_passed ≡ true)
    × (release.post_change_verified ≡ true)
    × (release.review_policy_passed ≡ true)
    × (release.release_approved ≡ true))
release-allowed_iff_example = release-allowed_iff same release

-- The delay of the third attempt, and an attempt whose power overflows.
third_attempt :
    classify_failure "TimeoutError" (pos 2) (pos 5) (some "committed")
    ≡ retry_after (Delay.seconds 4)
unfolding classify_failure
third_attempt = refl

late_attempt : classify_failure "TimeoutError" (pos 1024) (pos 2000) none ≡ overflow
unfolding classify_failure
late_attempt = refl

-- Seconds that are whole.
abbrev seconds : Seconds
seconds = record {
  Duration = ℕ;
  none_yet = 0;
  add = λ (a b : ℕ). a + b;
  at_least_zero = λ (a : ℕ). a;
  exceeds = λ (a b : ℕ). ltb b a;
}

abbrev budget : ResourceBudget seconds
budget = record {
  attempts = 2;
  tool_calls = 5;
  wall_seconds = 60;
  output_bytes = 100;
  external_side_effects = 1;
}

abbrev one_attempt : Request seconds
one_attempt = record {
  attempts = pos 1;
  tool_calls = negsuc 4;
  wall_seconds = 7;
  output_bytes = pos 30;
  external_side_effects = pos 1;
}

budget-holds_example :
    IsWithin seconds budget
      (consume_all seconds budget (no_usage seconds) (one_attempt ∷ one_attempt ∷ []))
unfolding make_budget
budget-holds_example =
    budget-holds seconds (pos 2) (pos 5) 60 (pos 100) (pos 1) budget
      (one_attempt ∷ one_attempt ∷ []) refl

consume-cases_example :
    (next : BudgetUsage seconds) × IsUsageAfter seconds (no_usage seconds) one_attempt next
    × ((IsWithin seconds budget next
          × (consume seconds budget (no_usage seconds) one_attempt ≡ (ok next, next)))
        ⊎ (((consume seconds budget (no_usage seconds) one_attempt).1 ≡ no_usage seconds)
            × ((e : Error) × ((consume seconds budget (no_usage seconds) one_attempt).0 ≡ err e))
            × (¬ IsWithin seconds budget next)))
consume-cases_example = consume-cases seconds budget (no_usage seconds) one_attempt

-- Callbacks of which the security check fails.
abbrev failing_security : GateStage → Outcome
failing_security security = message " "
failing_security _ = verdict true

-- Callbacks of which the tests after the execution raise.
abbrev failing_post_tests : GateStage → Outcome
failing_post_tests post_tests = raised "RuntimeError"
failing_post_tests _ = verdict true

execution-guarded_example :
    All
      (Passes failing_post_tests)
      (proposal ∷ validation ∷ tests ∷ security ∷ policy ∷ approval ∷ [])
unfolding run_verification_gate run_stages check
execution-guarded_example = execution-guarded failing_post_tests refl

gate-passed_iff_example :
    ((run_verification_gate failing_post_tests).passed ≡ true)
    ↔ All
        (λ s. Succeeds (failing_post_tests s))
        (proposal ∷ validation ∷ tests ∷ security ∷ policy ∷ approval ∷ execution ∷ post_tests
          ∷ result_verification ∷ [])
gate-passed_iff_example = gate-passed_iff failing_post_tests

gate-stops_example :
    (run_verification_gate failing_security).checks
    ≡ map
        (λ s. check s (failing_security s))
        ((proposal ∷ validation ∷ tests ∷ []) ++ security ∷ [])
unfolding check strip
gate-stops_example =
    gate-stops failing_security (proposal ∷ validation ∷ tests ∷ [])
      (policy ∷ approval ∷ execution ∷ post_tests ∷ result_verification ∷ []) security refl
      (refl, (refl, (refl, tt))) refl

abbrev findings : List AuditFinding
findings =
    map
      (λ (name : String).
        let f : AuditFinding = record { area = name; passed = true; evidence = "run 1" } in f)
      required_areas

audit-covers_example :
    All (IsCovered (record { area = "ci"; passed = false; evidence = "run 0" } ∷ findings)) (
      "concurrency" ∷ "replay" ∷ "queue_bounds" ∷ "prompt_injection" ∷ "secret_redaction"
      ∷ "shell_safety" ∷ "approval" ∷ "ci" ∷ "external_data" ∷ [])
unfolding run_production_audit
audit-covers_example =
    audit-covers (record { area = "ci"; passed = false; evidence = "run 0" } ∷ findings) refl
