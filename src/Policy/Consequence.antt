-- ===== src/Policy/Consequence.antt =====
-- consequence_policy.py: when a tool may run without an approval.
use autonomous_ai_scout.Base.{
  String, ◌≡◌, Bool, true, false, not, ◌&&◌, ◌||◌, List, [], ◌∷◌, ◌⊎◌, contains, if◌then◌else◌,
  ◌+++◌, arith,
}
use autonomous_ai_scout.Policy.Tool.{
  RiskLevel, low, medium, high, critical, ReadWriteMode, read_only, controlled_write,
  high_risk_write, ApprovalRequirement, no_approval, explicit, human_review, ToolSpec, is_read_only,
  is_high_risk, needs_no_approval, is_required,
}

-- prompt_injection_guard.py: where a request comes from.
pub data TrustLevel : Type 0 where
  system user memory tool_result external : TrustLevel

pub data Consequence : Type 0 where
  no_consequence low_consequence medium_consequence high_consequence : Consequence
  critical_consequence : Consequence

pub data ApprovalMode : Type 0 where
  autonomous require_approval deny : ApprovalMode

pub record ApprovalDecision : Type 0 where
  pub mode : ApprovalMode
  pub consequence : Consequence
  pub reasons : List String

abbrev pub is_untrusted : TrustLevel → Bool
is_untrusted external = true
is_untrusted tool_result = true
is_untrusted memory = true
is_untrusted _ = false

abbrev pub is_side_effect : ReadWriteMode → Bool
is_side_effect controlled_write = true
is_side_effect high_risk_write = true
is_side_effect _ = false

abbrev pub is_critical : RiskLevel → Bool
is_critical critical = true
is_critical _ = false

abbrev pub is_high : RiskLevel → Bool
is_high high = true
is_high _ = false

abbrev pub is_medium : RiskLevel → Bool
is_medium medium = true
is_medium _ = false

abbrev pub risk_text : RiskLevel → String
risk_text low = "low"
risk_text medium = "medium"
risk_text high = "high"
risk_text critical = "critical"

abbrev pub approval_text : ApprovalRequirement → String
approval_text no_approval = "none"
approval_text explicit = "explicit"
approval_text human_review = "human_review"

-- `reasons.append(reason)` under a test.
abbrev pub reason_if : Bool → String → List String → List String
reason_if true reason rest = reason ∷ rest
reason_if false reason rest = rest

-- The reasons that `evaluate` collects before it decides.
unfoldable pub reasons_for : ToolSpec → TrustLevel → List String → List String
reasons_for tool origin rest =
    reason_if
      (contains tool.capability
        ("destructive" ∷ "billing" ∷ "payment" ∷ "secrets" ∷ "deploy" ∷ "merge" ∷ []))
      "high-impact capability"
      (reason_if (is_side_effect tool.read_write_mode) "write side effect" (
        reason_if (is_high_risk tool.risk_level) ("risk level=" +++ risk_text tool.risk_level) (
          reason_if (not (needs_no_approval tool.approval_requirement))
            ("registered approval=" +++ approval_text tool.approval_requirement)
            (reason_if (is_required tool.audit_requirement) "audit required" (
              reason_if (is_untrusted origin && not (is_read_only tool.read_write_mode))
                "untrusted origin for side effect" rest)))))

abbrev pub approval_mode : Bool → ApprovalMode
approval_mode explicitly_approved = if explicitly_approved then autonomous else require_approval

abbrev pub small_consequence : ReadWriteMode → Consequence
small_consequence mode = if is_read_only mode then no_consequence else low_consequence

abbrev pub is_critical_capability : String → Bool
is_critical_capability capability =
    contains capability ("destructive" ∷ "billing" ∷ "payment" ∷ "secrets" ∷ [])

-- `ConsequenceAwareApprovalPolicy.evaluate`
unfoldable pub evaluate : ToolSpec → TrustLevel → Bool → ApprovalDecision
unfolding reasons_for
evaluate tool origin approved =
    let reasons = reasons_for tool origin [] in
    let decided = λ (mode : ApprovalMode) (consequence : Consequence).
      let d : ApprovalDecision = record {
        mode = mode;
        consequence = consequence;
        reasons = reasons;
      } in
      d in
    if is_critical tool.risk_level || is_critical_capability tool.capability
    then decided (approval_mode approved) critical_consequence
    else if is_high tool.risk_level || is_side_effect tool.read_write_mode
    then decided (approval_mode approved) high_consequence
    else if is_medium tool.risk_level
    then (if is_read_only tool.read_write_mode
          && (needs_no_approval tool.approval_requirement && tool.safe_autonomous)
        then decided autonomous medium_consequence
        else decided (approval_mode approved) medium_consequence)
    else if not (is_read_only tool.read_write_mode)
    then decided (approval_mode approved) low_consequence
    else if not (needs_no_approval tool.approval_requirement)
    then decided (approval_mode approved) medium_consequence
    else if not tool.safe_autonomous && not approved
    then record {
      mode = require_approval;
      consequence = small_consequence tool.read_write_mode;
      reasons = reasons_for tool origin ("tool is not marked safe for autonomous execution" ∷ []);
    }
    else decided autonomous (small_consequence tool.read_write_mode)

-- Without an approval a tool is autonomous only if it is read-only, of low or medium risk, needs no
-- approval, is marked safe, and has no destructive, billing, payment or secrets capability.
pub evaluate-autonomous :
    (tool : ToolSpec) (origin : TrustLevel)
    → (evaluate tool origin false).mode ≡ autonomous
    → (tool.read_write_mode ≡ read_only)
      × ((tool.risk_level ≡ low) ⊎ (tool.risk_level ≡ medium))
      × (tool.approval_requirement ≡ no_approval)
      × (tool.safe_autonomous ≡ true)
      × (is_critical_capability tool.capability ≡ false)
unfolding evaluate
evaluate-autonomous tool origin h = ground arith
