-- ===== src/Policy/Tool.antt =====
-- tool_registry.py: the tool specifications, their validation, and the registry.
use autonomous_ai_scout.Base.{
  String, Bool, true, false, not, ◌&&◌, ◌||◌, Option, none, some, Result, ok, err, ◌>>=◌, ◌>>◌,
  raise_if, value_error, type_error, List, [], ◌∷◌, ◌++◌, contains, text_eq, if◌then◌else◌,
  is_blank, is_empty, strip, ◌+++◌, ◌==◌, Dict, lookup,
}
use Prim.Native.Char.{code}
use autonomous_ai_scout.Storage.{Json, object, text, array, find_field}
use autonomous_ai_scout.Policy.Capability.{
  Capability, source_write, merge, deploy, billing, secrets, destructive, value, all_capabilities,
  CapabilityDecision, Request, named, check_capability,
}

pub data RiskLevel : Type 0 where
  low medium high critical : RiskLevel

pub data ReadWriteMode : Type 0 where
  read_only safe_write controlled_write high_risk_write : ReadWriteMode

pub data ApprovalRequirement : Type 0 where
  no_approval explicit human_review : ApprovalRequirement

pub data NetworkRequirement : Type 0 where
  no_network optional_network required_network : NetworkRequirement

pub data AuthenticationRequirement : Type 0 where
  no_auth user_auth service_auth elevated_auth : AuthenticationRequirement

-- `SandboxRequirement` and `AuditRequirement`: none or required.
pub data Requirement : Type 0 where
  not_required required : Requirement

pub record ToolSpec : Type 0 where
  pub name : String
  pub description : String
  pub category : String
  pub risk_level : RiskLevel
  pub read_write_mode : ReadWriteMode
  pub network_requirement : NetworkRequirement
  pub authentication_requirement : AuthenticationRequirement
  pub approval_requirement : ApprovalRequirement
  pub sandbox_requirement : Requirement
  pub audit_requirement : Requirement
  pub input_schema : Json
  pub output_schema : Json
  pub capability : String
  pub safe_autonomous : Bool

abbrev pub is_high_risk : RiskLevel → Bool
is_high_risk high = true
is_high_risk critical = true
is_high_risk _ = false

abbrev pub is_read_only : ReadWriteMode → Bool
is_read_only read_only = true
is_read_only _ = false

abbrev pub needs_no_approval : ApprovalRequirement → Bool
needs_no_approval no_approval = true
needs_no_approval _ = false

abbrev pub is_required : Requirement → Bool
is_required required = true
is_required not_required = false

-- `" " in spec.name`
abbrev pub has_blank : String → Bool
has_blank String.[] = false
has_blank (String.◌∷◌ c s) = code c == 32 || has_blank s

-- The capabilities that a tool may not have without an approval requirement.
abbrev pub is_restricted : Capability → Bool
is_restricted source_write = true
is_restricted merge = true
is_restricted deploy = true
is_restricted billing = true
is_restricted secrets = true
is_restricted destructive = true
is_restricted _ = false

-- `Capability(value)`
unfoldable pub find_capability : String → List Capability → Option Capability
unfolding value
find_capability s [] = none
find_capability s (c ∷ cs) = if text_eq (value c) s then some c else find_capability s cs

abbrev pub is_schema_type : Option Json → Result (Unit {0})
is_schema_type (some (text t)) =
    if contains t ("object" ∷ "array" ∷ "string" ∷ "number" ∷ "integer" ∷ "boolean" ∷ [])
    then ok tt
    else err (value_error "field must be a structured schema with a supported type")
is_schema_type (some (object fields)) = err (type_error "unhashable type: 'dict'")
is_schema_type (some (array elements)) = err (type_error "unhashable type: 'list'")
is_schema_type _ = err (value_error "field must be a structured schema with a supported type")

unfoldable pub validate_schema : Json → Result (Unit {0})
unfolding find_field
validate_schema (object fields) = is_schema_type (find_field "type" fields)
validate_schema _ = err (value_error "field must be a structured schema with a supported type")

-- The rules of `validate_tool_spec` on a specification with a known capability.
unfoldable pub validate_rules : ToolSpec → Capability → Result (Unit {0})
validate_rules spec capability = do
  raise_if (is_high_risk spec.risk_level && needs_no_approval spec.approval_requirement)
      (value_error "high-risk tools require approval")
  raise_if (is_high_risk spec.risk_level && not (is_required spec.audit_requirement))
      (value_error "high-risk tools require audit")
  raise_if (spec.safe_autonomous && not (needs_no_approval spec.approval_requirement))
      (value_error "safe autonomous tools cannot require approval")
  raise_if (spec.safe_autonomous && not (is_read_only spec.read_write_mode))
      (value_error "safe autonomous tools must be read-only")
  raise_if
      (is_restricted capability
        && (spec.safe_autonomous || needs_no_approval spec.approval_requirement))
      (value_error "restricted capability requires approval")

-- `Capability(spec.capability)`
abbrev pub known_capability : Option Capability → Result Capability
known_capability none = err (value_error "unknown capability")
known_capability (some c) = ok c

module _ (lower : String → String) where
  -- `validate_tool_spec` on a `ToolSpec` whose enum fields are enums.
  unfoldable pub validate_tool_spec : ToolSpec → Result (Unit {0})
  unfolding validate_schema find_capability
  validate_tool_spec spec = do
    raise_if
        (is_empty spec.name
          || not (text_eq spec.name (lower (strip spec.name)))
          || has_blank spec.name)
        (value_error "tool name must be normalized")
    raise_if (is_blank spec.description || is_blank spec.category)
        (value_error "tool description and category are required")
    validate_schema spec.input_schema
    validate_schema spec.output_schema
    capability ← known_capability (find_capability spec.capability all_capabilities)
    validate_rules spec capability

  -- `ToolRegistry.register`: the registry with the new tool.
  unfoldable pub register : ToolSpec → Dict ToolSpec → Result (Dict ToolSpec)
  register spec tools = do
    validate_tool_spec spec
    elim (lookup spec.name tools) [
      | some found ↦ err (value_error ("tool already registered: " +++ spec.name))
      | none ↦ ok (tools ++ (spec.name, spec) ∷ [])
    ]

  -- `ToolRegistry(specs)`
  unfoldable pub register_all : List ToolSpec → Dict ToolSpec → Result (Dict ToolSpec)
  unfolding register
  register_all [] tools = ok tools
  register_all (spec ∷ specs) tools = do more ← register spec tools; register_all specs more

  -- `ToolRegistry.get`, of a text
  unfoldable pub get : String → Dict ToolSpec → Option ToolSpec
  unfolding lookup
  get name tools = lookup (lower (strip name)) tools

  abbrev pub refused : String → ToolSpec → CapabilityDecision
  refused reason spec = record { allowed = false; reason = reason; capability = spec.capability }

  -- The part of `authorize` behind the lookup.
  unfoldable pub authorize_spec : ToolSpec → List Request → Bool → Bool → Bool → CapabilityDecision
  authorize_spec spec granted explicitly_approved sandbox_available audit_available =
      let decision = check_capability lower (named spec.capability) granted in
      if not decision.allowed
      then decision
      else if is_required spec.sandbox_requirement && not sandbox_available
      then refused "tool requires an available sandbox" spec
      else if is_required spec.audit_requirement && not audit_available
      then refused "tool requires an available audit boundary" spec
      else if not (needs_no_approval spec.approval_requirement) && not explicitly_approved
      then refused "tool requires explicit approval" spec
      else record {
        allowed = true;
        reason = "tool is permitted by capability policy and registry contract";
        capability = spec.capability;
      }

  abbrev pub authorize_found :
      Option ToolSpec → List Request → Bool → Bool → Bool → CapabilityDecision
  authorize_found none granted explicitly_approved sandbox_available audit_available = record {
    allowed = false;
    reason = "tool is not registered";
    capability = "";
  }
  authorize_found (some spec) granted explicitly_approved sandbox_available audit_available =
      authorize_spec spec granted explicitly_approved sandbox_available audit_available

  -- `ToolRegistry.authorize`
  unfoldable pub authorize :
      Dict ToolSpec → String → List Request → Bool → Bool → Bool → CapabilityDecision
  unfolding authorize_spec get
  authorize tools name granted explicitly_approved sandbox_available audit_available =
      authorize_found (get name tools) granted explicitly_approved sandbox_available audit_available
