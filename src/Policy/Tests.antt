-- ===== src/Policy/Tests.antt =====
-- Concrete decisions of the capability policy, the tool registry and the consequence policy.
use autonomous_ai_scout.Base.{
  lookup, strip, String, ◌≡◌, refl, true, false, [], ◌∷◌, ◌⊎◌, All, some,
}
use autonomous_ai_scout.Storage.{Json, object, text, end, field}
use autonomous_ai_scout.Policy.Capability.{named, member, web_research, check_capability}
use autonomous_ai_scout.Policy.Grants.{narrow_grants, IsJustified, narrow_grants-IsJustified}
use autonomous_ai_scout.Policy.Steps.{evaluate_step, Catalog, find_step, evaluate_step-unapproved}
use autonomous_ai_scout.Policy.Tool.{
  required_network, no_auth, ToolSpec, authorize, validate_rules, validate_tool_spec, low, medium,
  read_only, no_approval, not_required, required, register_all,
}
use autonomous_ai_scout.Policy.Registry.{IsPermitted, authorize-unapproved}
use autonomous_ai_scout.Policy.Consequence.{
  external, evaluate, is_critical_capability, evaluate-autonomous,
}

-- Texts that are in lower case already.
abbrev same : String → String
same s = s

abbrev schema : Json
schema = object (field "type" (text "object") end)

abbrev search_tool : ToolSpec
search_tool = record {
  name = "search";
  description = "search the web";
  category = "research";
  risk_level = low;
  read_write_mode = read_only;
  network_requirement = required_network;
  authentication_requirement = no_auth;
  approval_requirement = no_approval;
  sandbox_requirement = not_required;
  audit_requirement = required;
  input_schema = schema;
  output_schema = schema;
  capability = "web_research";
  safe_autonomous = true;
}

authorize-unapproved_example :
    IsPermitted same (("search", search_tool) ∷ []) "search" (member web_research ∷ []) false true
unfolding register_all validate_tool_spec strip validate_rules lookup authorize check_capability
authorize-unapproved_example =
    authorize-unapproved same (search_tool ∷ []) (("search", search_tool) ∷ []) "search"
      (member web_research ∷ []) false true refl refl

evaluate-autonomous_example :
    (search_tool.read_write_mode ≡ read_only)
    × ((search_tool.risk_level ≡ low) ⊎ (search_tool.risk_level ≡ medium))
    × (search_tool.approval_requirement ≡ no_approval)
    × (search_tool.safe_autonomous ≡ true)
    × (is_critical_capability search_tool.capability ≡ false)
unfolding evaluate
evaluate-autonomous_example = evaluate-autonomous search_tool external refl

-- A merge is requested with the search, and is not granted.
narrow_grants-IsJustified_example :
    All
      (IsJustified same
        (search_tool ∷ [])
        (named "merge" ∷ named " web_research" ∷ member web_research ∷ []))
      (web_research ∷ [])
unfolding narrow_grants strip
narrow_grants-IsJustified_example =
    narrow_grants-IsJustified same (search_tool ∷ [])
      (named "merge" ∷ named " web_research" ∷ member web_research ∷ []) (web_research ∷ []) refl

abbrev catalog : Catalog
catalog = record {
  items = ("web:search", search_tool) ∷ [];
  by_tool_name = ("search", "web:search") ∷ [];
}

evaluate_step-unapproved_example :
    (spec : ToolSpec) × (find_step same catalog "search" ≡ some spec)
    × ((authorize same
          (("search", search_tool) ∷ [])
          spec.name
          (member web_research ∷ [])
          false
          false
          true).allowed
        ≡ true)
    × ((spec.read_write_mode ≡ read_only)
        × ((spec.risk_level ≡ low) ⊎ (spec.risk_level ≡ medium))
        × (spec.approval_requirement ≡ no_approval)
        × (spec.safe_autonomous ≡ true)
        × (is_critical_capability spec.capability ≡ false))
unfolding evaluate_step strip check_capability
evaluate_step-unapproved_example =
    evaluate_step-unapproved same catalog (("search", search_tool) ∷ []) "search"
      (member web_research ∷ []) false true external refl
