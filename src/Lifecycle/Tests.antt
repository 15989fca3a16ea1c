-- ===== src/Lifecycle/Tests.antt =====
-- Concrete lifecycles.
use autonomous_ai_scout.Base.{
  inl, Result, err, arith, zero, suc, ◌+++◌, strip, ℕ, String, ◌≡◌, refl, true, false, ◌↔◌, some,
  ok, List, [], ◌∷◌, map, pos, text_length,
}
use autonomous_ai_scout.Lifecycle.State.{
  LifecycleState, proposed, validated, tested, secured, policy_checked, approved, claimed, executed,
  verified, blocked, completed, value, StateInput, named, member, read_states, required_states,
  authorize_lifecycle_completion, read_state,
}
use autonomous_ai_scout.Lifecycle.Spine.{
  advance_all, completed-only_through, completion-allowed_iff,
}
use autonomous_ai_scout.Lifecycle.Ledger.{
  action_state, verify_ledger, LedgerFile, missing, Outside, Event, LifecycleEvent,
  load_action_events,
}
use autonomous_ai_scout.Lifecycle.Append.{append_transition}
use autonomous_ai_scout.Lifecycle.Blocked.{stopped, recover-blocks}
use autonomous_ai_scout.Lifecycle.Appended.{append_transition-moves, ends_line}
use autonomous_ai_scout.Lifecycle.Recovery.{recover_stale_execution}
use autonomous_ai_scout.Lifecycle.History.{Follows, history-Follows, history-completed}

completed-only_through_example :
    validated ∷ tested ∷ secured ∷ policy_checked ∷ approved ∷ claimed ∷ executed ∷ verified
      ∷ completed ∷ []
    ≡ validated ∷ tested ∷ secured ∷ policy_checked ∷ approved ∷ claimed ∷ executed ∷ verified
      ∷ completed ∷ []
unfolding advance_all
completed-only_through_example =
    completed-only_through
      (validated ∷ tested ∷ secured ∷ policy_checked ∷ approved ∷ claimed ∷ executed ∷ verified
        ∷ completed ∷ [])
      refl

abbrev inputs : List StateInput
inputs =
    member proposed
    ∷ named "validated"
    ∷ member tested
    ∷ member secured
    ∷ named "policy_checked"
    ∷ member approved
    ∷ member claimed
    ∷ member executed
    ∷ named "verified"
    ∷ []

completion-allowed_iff_example :
    ((authorize_lifecycle_completion inputs true true false).allowed ≡ true)
    ↔ ((read_states inputs ≡ some required_states) × (true ≡ true) × (true ≡ true) × (false ≡ true))
completion-allowed_iff_example = completion-allowed_iff inputs true true false

-- A number is written as so many bars, and every event has the same hash.
abbrev bars : ℕ → String
bars zero = ""
bars (suc n) = "|" +++ bars n

abbrev outside : Outside
outside = record { parse_int = λ s. ok (pos (text_length s)); show_int = bars; sha256 = λ _. "h" }

-- The ledger behind the transitions of the action to the states in turn.
abbrev ledger_of : LifecycleState → List LifecycleState → LedgerFile → LedgerFile
unfolding append_transition
ledger_of from [] file = file
ledger_of from (to ∷ rest) file =
    ledger_of to rest (append_transition outside "a1" (member from) (member to) "t" file).1

abbrev started : LedgerFile
started = ledger_of proposed (validated ∷ tested ∷ []) missing

abbrev finished : LedgerFile
finished =
    ledger_of proposed
      (validated ∷ tested ∷ secured ∷ policy_checked ∷ approved ∷ claimed ∷ executed ∷ verified
        ∷ completed ∷ [])
      missing

history-Follows_example :
    (items : List LifecycleEvent) × (load_action_events outside started "a1" ≡ ok items)
    × Follows proposed items tested
unfolding verify_ledger ledger_of strip text_length action_state
history-Follows_example = history-Follows outside started "a1" tested refl refl

history-completed_example :
    (items : List LifecycleEvent) × (load_action_events outside finished "a1" ≡ ok items)
    × (map (λ (item : LifecycleEvent). item.to_state) items
        ≡ map value (
            validated ∷ tested ∷ secured ∷ policy_checked ∷ approved ∷ claimed ∷ executed ∷ verified
            ∷ completed ∷ []))
unfolding verify_ledger ledger_of strip text_length action_state
history-completed_example = history-completed outside finished "a1" refl refl

abbrev interrupted : LedgerFile
interrupted =
    ledger_of proposed (validated ∷ tested ∷ secured ∷ policy_checked ∷ approved ∷ claimed ∷ [])
      missing

text_length-bars : (n : ℕ) → text_length (bars n) ≡ n
unfolding text_length
text_length-bars zero = refl
text_length-bars (suc n) = omega (arith, text_length-bars n)

parse-bars : (n : ℕ) → outside.parse_int (outside.show_int n) ≡ ok (pos n)
parse-bars n = rw (text_length-bars n) refl

abbrev secured_ledger : LedgerFile
secured_ledger = (append_transition outside "a1" (member tested) (named "secured") "t" started).1

abbrev event_of : Result Event → Event
event_of (ok event) = event
event_of (err e) = []

abbrev secured_event : Event
secured_event =
    event_of (append_transition outside "a1" (member tested) (named "secured") "t" started).0

secured_append :
    append_transition outside "a1" (member tested) (named "secured") "t" started
    ≡ (ok secured_event, secured_ledger)
unfolding append_transition strip
secured_append = refl

started_verifies : verify_ledger outside started ≡ true
unfolding verify_ledger ledger_of strip text_length
started_verifies = refl

append_transition-moves_example :
    (verify_ledger outside secured_ledger ≡ true)
    × (ends_line secured_ledger ≡ true)
    × (action_state outside secured_ledger (strip "a1") ≡ ok (read_state (named "secured")))
unfolding ledger_of strip
append_transition-moves_example =
    append_transition-moves outside parse-bars "a1" (member tested) (named "secured") "t" started
      secured_ledger secured_event refl started_verifies secured_append

recover-blocks_example :
    (after : LedgerFile) × (recover_stale_execution outside "t" "a1" interrupted
      ≡ (ok stopped, after))
    × (verify_ledger outside after ≡ true)
    × (ends_line after ≡ true)
    × (action_state outside after "a1" ≡ ok (some blocked))
unfolding verify_ledger ledger_of strip text_length action_state
recover-blocks_example =
    recover-blocks outside parse-bars "t" "a1" interrupted claimed refl refl refl refl (inl refl)
