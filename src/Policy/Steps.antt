-- ===== src/Policy/Steps.antt =====
-- digital/authorization.py: the verdict on one capability of a run, with the two lookups of
-- digital/catalog.py. Of a digital capability only its `spec` is read here.
use autonomous_ai_scout.Base.{
  String, ◌≡◌, refl, Bool, true, false, not, ◌&&◌, Option, none, some, List, if◌then◌else◌, strip,
  is_empty, Dict, lookup, arith, ◌⊎◌,
}
use mathlib.Core.Bool.{false≢true}
use autonomous_ai_scout.Policy.Capability.{Request, CapabilityDecision}
use autonomous_ai_scout.Policy.Tool.{
  ToolSpec, authorize, is_read_only, low, medium, ReadWriteMode, read_only, safe_write,
  controlled_write, high_risk_write, no_approval,
}
use autonomous_ai_scout.Policy.Consequence.{
  TrustLevel, ApprovalMode, autonomous, require_approval, deny, evaluate, evaluate-autonomous,
  is_untrusted, risk_text, Consequence, no_consequence, low_consequence, medium_consequence,
  high_consequence, critical_consequence, is_critical_capability,
}

-- `CapabilityCatalog`: the capabilities by id, and the id by tool name.
pub record Catalog : Type 0 where
  pub items : Dict ToolSpec
  pub by_tool_name : Dict String

abbrev pub mode_text : ReadWriteMode → String
mode_text read_only = "read_only"
mode_text safe_write = "safe_write"
mode_text controlled_write = "controlled_write"
mode_text high_risk_write = "high_risk_write"

abbrev pub consequence_text : Consequence → String
consequence_text no_consequence = "none"
consequence_text low_consequence = "low"
consequence_text medium_consequence = "medium"
consequence_text high_consequence = "high"
consequence_text critical_consequence = "critical"

abbrev pub approval_mode_text : ApprovalMode → String
approval_mode_text autonomous = "autonomous"
approval_mode_text require_approval = "require_approval"
approval_mode_text deny = "deny"

pub record StepAuthorization : Type 0 where
  pub capability_id : String
  pub tool_name : String
  pub allowed : Bool
  pub reason : String
  pub capability : String
  pub risk : String
  pub read_write : String
  pub approval_mode : String
  pub consequence : String
  pub requires_approval : Bool

abbrev pub is_deny : ApprovalMode → Bool
is_deny deny = true
is_deny _ = false

abbrev pub is_autonomous : ApprovalMode → Bool
is_autonomous autonomous = true
is_autonomous _ = false

abbrev pub is_require : ApprovalMode → Bool
is_require require_approval = true
is_require _ = false

-- `allowed, reason` of `evaluate_step`.
unfoldable pub step_verdict :
    ToolSpec → CapabilityDecision → ApprovalMode → TrustLevel → Bool → Bool × String
step_verdict spec decision mode origin approved =
    if is_deny mode
    then (false, "consequence-aware policy denies this action")
    else if is_require mode && not approved
    then (false, "action has meaningful side effects and requires approval")
    else if is_untrusted origin && (not (is_read_only spec.read_write_mode) && not approved)
    then (false, "untrusted content cannot authorize a side effect")
    else (decision.allowed, decision.reason)

abbrev pub unknown_step : String → StepAuthorization
unknown_step capability_id = record {
  capability_id = capability_id;
  tool_name = "";
  allowed = false;
  reason = "capability is not registered in the catalog";
  capability = "";
  risk = "critical";
  read_write = "unknown";
  approval_mode = "deny";
  consequence = "critical";
  requires_approval = true;
}

unfoldable pub authorize_step :
    String → ToolSpec → CapabilityDecision → TrustLevel → Bool → StepAuthorization
unfolding evaluate step_verdict
authorize_step capability_id spec decision origin approved =
    let approval = evaluate spec origin approved in
    let verdict = step_verdict spec decision approval.mode origin approved in
    record {
      capability_id = capability_id;
      tool_name = spec.name;
      allowed = verdict.0;
      reason = verdict.1;
      capability = spec.capability;
      risk = risk_text spec.risk_level;
      read_write = mode_text spec.read_write_mode;
      approval_mode = approval_mode_text approval.mode;
      consequence = consequence_text approval.consequence;
      requires_approval = not (is_autonomous approval.mode);
    }

-- `lower` is `str.lower`.
module _ (lower : String → String) where
  abbrev pub item_of : Dict ToolSpec → Option String → Option ToolSpec
  item_of items none = none
  item_of items (some id) = if is_empty id then none else lookup id items

  abbrev pub or_else : Option ToolSpec → Option ToolSpec → Option ToolSpec
  or_else (some spec) found = some spec
  or_else none found = found

  -- `catalog.get(id)`, and `catalog.by_tool(id)` where it finds nothing.
  unfoldable pub find_step : Catalog → String → Option ToolSpec
  unfolding lookup
  find_step catalog id =
      or_else (lookup (lower (strip id)) catalog.items)
        (item_of catalog.items (lookup (lower (strip id)) catalog.by_tool_name))

  abbrev pub evaluate_found :
      Dict ToolSpec
      → String
      → Option ToolSpec
      → List Request
      → Bool
      → Bool
      → Bool
      → TrustLevel
      → StepAuthorization
  evaluate_found tools id none granted approved sandbox audit origin = unknown_step id
  evaluate_found tools id (some spec) granted approved sandbox audit origin =
      authorize_step id spec (authorize lower tools spec.name granted approved sandbox audit) origin
        approved

  -- `CapabilityAuthorizationBroker.evaluate_step`
  unfoldable pub evaluate_step :
      Catalog
      → Dict ToolSpec
      → String
      → List Request
      → Bool
      → Bool
      → Bool
      → TrustLevel
      → StepAuthorization
  unfolding find_step authorize_step authorize
  evaluate_step catalog tools id granted approved sandbox audit origin =
      evaluate_found tools id (find_step catalog id) granted approved sandbox audit origin

  step-autonomous :
      (id : String) (spec : ToolSpec) (decision : CapabilityDecision) (origin : TrustLevel)
      → (authorize_step id spec decision origin false).allowed ≡ true
      → (decision.allowed ≡ true) × ((evaluate spec origin false).mode ≡ autonomous)
  unfolding authorize_step step_verdict
  step-autonomous id spec decision origin h = ground arith

  -- Without an approval a step is allowed only if the catalog has its tool, the tool registry authorizes
  -- the tool by its name, and the tool is read-only, of low or medium risk, marked safe, and without an
  -- approval requirement or a critical capability.
  pub evaluate_step-unapproved :
      (catalog : Catalog) (tools : Dict ToolSpec) (id : String) (granted : List Request)
      (sandbox audit : Bool) (origin : TrustLevel)
      → (evaluate_step catalog tools id granted false sandbox audit origin).allowed ≡ true
      → (spec : ToolSpec) × (find_step catalog id ≡ some spec)
        × ((authorize lower tools spec.name granted false sandbox audit).allowed ≡ true)
        × ((spec.read_write_mode ≡ read_only)
            × ((spec.risk_level ≡ low) ⊎ (spec.risk_level ≡ medium))
            × (spec.approval_requirement ≡ no_approval)
            × (spec.safe_autonomous ≡ true)
            × (is_critical_capability spec.capability ≡ false))
  unfolding evaluate_step
  evaluate_step-unapproved catalog tools id granted sandbox audit origin h =
      go (find_step catalog id) refl h
    where
      go :
          (o : Option ToolSpec)
          → find_step catalog id ≡ o
          → (evaluate_found tools id o granted false sandbox audit origin).allowed ≡ true
          → (spec : ToolSpec) × (find_step catalog id ≡ some spec)
            × ((authorize lower tools spec.name granted false sandbox audit).allowed ≡ true)
            × ((spec.read_write_mode ≡ read_only)
                × ((spec.risk_level ≡ low) ⊎ (spec.risk_level ≡ medium))
                × (spec.approval_requirement ≡ no_approval)
                × (spec.safe_autonomous ≡ true)
                × (is_critical_capability spec.capability ≡ false))
      go none e k = absurd (false≢true k)
      go (some spec) e k =
          let (allowed, alone) =
            step-autonomous id spec (authorize lower tools spec.name granted false sandbox audit)
              origin k in
          (spec, e, allowed, evaluate-autonomous spec origin alone)
