-- ===== src/Policy/Registry.antt =====
-- What the registry guarantees of the tools in it, and what `authorize` lets pass.
use autonomous_ai_scout.Base.{
  String, ◌≡◌, refl, sym, subst, ◌∙◌, Bool, true, false, not, ◌&&◌, ◌||◌, Option, none, some,
  Result, ok, err, ◌>>=◌, ◌>>◌, >>=-eq-ok, >>-eq-ok, ok-injective, err-ne-ok, raise_if, value_error,
  List, [], ◌∷◌, ◌++◌, All, All-append, text_eq, Bool-cases, inl, inr, arith, Dict, lookup,
  is_empty, is_blank, strip, ◌+++◌, contains, some-ne-none, some_injective,
}
use mathlib.Core.Bool.{false≢true}
use autonomous_ai_scout.Policy.Capability.{
  Capability, value, is_safe, all_capabilities, Request, named, check_capability,
  check_capability-allowed, normalize_capability, normalize_all,
}
use autonomous_ai_scout.Policy.Tool.{
  RiskLevel, ToolSpec, is_high_risk, is_read_only, needs_no_approval, is_required, has_blank,
  find_capability, known_capability, validate_schema, validate_rules, validate_tool_spec, register,
  register_all, get, authorize_spec, authorize_found, authorize,
}

-- What `validate_tool_spec` accepts keeps the rules on risk and on autonomy.
pub record IsSound (spec : ToolSpec) : Type 0 where
  pub high_risk_approved :
      is_high_risk spec.risk_level ≡ true → needs_no_approval spec.approval_requirement ≡ false
  pub high_risk_audited :
      is_high_risk spec.risk_level ≡ true → is_required spec.audit_requirement ≡ true
  pub autonomous_unapproved :
      spec.safe_autonomous ≡ true → needs_no_approval spec.approval_requirement ≡ true
  pub autonomous_reads : spec.safe_autonomous ≡ true → is_read_only spec.read_write_mode ≡ true

rules-IsSound : (spec : ToolSpec) (c : Capability) → validate_rules spec c ≡ ok tt → IsSound spec
unfolding validate_rules
rules-IsSound spec c h = record {
  high_risk_approved = λ e. ground arith;
  high_risk_audited = λ e. ground arith;
  autonomous_unapproved = λ e. ground arith;
  autonomous_reads = λ e. ground arith;
}

module _ (lower : String → String) where
  validate-IsSound : (spec : ToolSpec) → validate_tool_spec lower spec ≡ ok tt → IsSound spec
  unfolding validate_tool_spec
  validate-IsSound spec h =
      let known = known_capability (find_capability spec.capability all_capabilities) in
      let rest = known >>= validate_rules spec in
      let output = validate_schema spec.output_schema in
      let input = validate_schema spec.input_schema in
      let described =
        raise_if (is_blank spec.description || is_blank spec.category)
          (value_error "tool description and category are required") in
      let named_well =
        raise_if
          (is_empty spec.name
            || not (text_eq spec.name (lower (strip spec.name)))
            || has_blank spec.name)
          (value_error "tool name must be normalized") in
      let behind_name = (>>-eq-ok named_well (described >> (input >> (output >> rest))) h).1 in
      let behind_text = (>>-eq-ok described (input >> (output >> rest)) behind_name).1 in
      let behind_schemas =
        (>>-eq-ok output rest (>>-eq-ok input (output >> rest) behind_text).1).1 in
      let (c, _, rules) = >>=-eq-ok known (validate_rules spec) behind_schemas in
      rules-IsSound spec c rules

  abbrev pub AreSound : Dict ToolSpec → Type 0
  AreSound = All (λ (entry : String × ToolSpec). IsSound entry.1)

  register-AreSound :
      (spec : ToolSpec) (tools : Dict ToolSpec) {more : Dict ToolSpec}
      → AreSound tools
      → register lower spec tools ≡ ok more
      → AreSound more
  unfolding register
  register-AreSound spec tools {more} sound h =
      go (validate_tool_spec lower spec) refl (lookup spec.name tools) refl h
    where
      go :
          (v : Result (Unit {0}))
          → validate_tool_spec lower spec ≡ v
          → (o : Option ToolSpec) → lookup spec.name tools ≡ o
          → (v >> elim o [
            | some found ↦ err (value_error ("tool already registered: " +++ spec.name))
            | none ↦ ok (tools ++ (spec.name, spec) ∷ [])
          ])
            ≡ ok more
          → AreSound more
      go (ok tt') p none q e = subst AreSound (ok-injective e) (
          All-append (λ (entry : String × ToolSpec). IsSound entry.1) tools _ sound
            (validate-IsSound spec p, tt))
      go (ok tt') p (some found) q e = absurd (err-ne-ok e)
      go (err x) p o q e = absurd (err-ne-ok e)

  register_all-AreSound :
      (specs : List ToolSpec) (tools : Dict ToolSpec) {more : Dict ToolSpec}
      → AreSound tools
      → register_all lower specs tools ≡ ok more
      → AreSound more
  unfolding register_all
  register_all-AreSound [] tools sound h = subst AreSound (ok-injective h) sound
  register_all-AreSound (spec ∷ specs) tools sound h =
      let (mid, e, h') = >>=-eq-ok (register lower spec tools) (register_all lower specs) h in
      register_all-AreSound specs mid (register-AreSound spec tools sound e) h'

lookup-IsSound :
    (k : String) (tools : Dict ToolSpec) {spec : ToolSpec}
    → All (λ (entry : String × ToolSpec). IsSound entry.1) tools
    → lookup k tools ≡ some spec
    → IsSound spec
unfolding lookup
lookup-IsSound k [] sound h = absurd (some-ne-none (sym h))
lookup-IsSound k ((j, s) ∷ tools) sound h = elim (Bool-cases (text_eq j k)) [
  | inl e ↦ subst IsSound (some_injective (rw e at h)) sound.0
  | inr e ↦ lookup-IsSound k tools sound.1 (rw e at h)
]

not-approved : (b : Bool) → (not b && not false) ≡ false → b ≡ true
not-approved b h = ground arith

not-high_risk :
    (r : RiskLevel) {b : Bool}
    → b ≡ true
    → (is_high_risk r ≡ true → b ≡ false)
    → is_high_risk r ≡ false
not-high_risk r unapproved rule = elim (Bool-cases (is_high_risk r)) [
  | inl e ↦ absurd (false≢true (sym (rule e) ∙ unapproved))
  | inr e ↦ e
]

module _ (lower : String → String) where
  authorize_spec-allowed :
      (spec : ToolSpec) (granted : List Request) (approved sandbox audit : Bool)
      → (authorize_spec lower spec granted approved sandbox audit).allowed ≡ true
      → ((check_capability lower (named spec.capability) granted).allowed ≡ true)
        × ((is_required spec.sandbox_requirement && not sandbox) ≡ false)
        × ((is_required spec.audit_requirement && not audit) ≡ false)
        × ((not (needs_no_approval spec.approval_requirement) && not approved) ≡ false)
  unfolding authorize_spec
  authorize_spec-allowed spec granted approved sandbox audit h = ground arith

  -- What an authorized call has: the tool, and each of its requirements met.
  pub record IsPermitted (tools : Dict ToolSpec) (name : String) (granted : List Request)
      (sandbox audit : Bool) : Type 0 where
    pub spec : ToolSpec
    pub registered : get lower name tools ≡ some spec
    pub no_high_risk : is_high_risk spec.risk_level ≡ false
    pub unapproved : needs_no_approval spec.approval_requirement ≡ true
    pub sandboxed : (is_required spec.sandbox_requirement && not sandbox) ≡ false
    pub audited : (is_required spec.audit_requirement && not audit) ≡ false
    pub capability : Capability
    pub grants : List String
    pub named_capability :
        normalize_capability lower (named spec.capability) ≡ ok (value capability)
    pub safe : is_safe capability ≡ true
    pub normalized : normalize_all lower granted ≡ ok grants
    pub granted_capability : contains (value capability) grants ≡ true

  permitted :
      (tools : Dict ToolSpec) (name : String) (granted : List Request) (sandbox audit : Bool)
      (spec : ToolSpec)
      → get lower name tools ≡ some spec
      → IsSound spec
      → (authorize_spec lower spec granted false sandbox audit).allowed ≡ true
      → IsPermitted tools name granted sandbox audit
  permitted tools name granted sandbox audit spec registered sound h =
      let (allowed, sandboxed, audited, approved) =
        authorize_spec-allowed spec granted false sandbox audit h in
      let (c, gs, same, safe, normalized, granted') =
        check_capability-allowed lower (named spec.capability) granted allowed in
      let unapproved = not-approved (needs_no_approval spec.approval_requirement) approved in
      record {
        spec = spec;
        registered = registered;
        no_high_risk = not-high_risk spec.risk_level unapproved sound.high_risk_approved;
        unapproved = unapproved;
        sandboxed = sandboxed;
        audited = audited;
        capability = c;
        grants = gs;
        named_capability = same;
        safe = safe;
        normalized = normalized;
        granted_capability = granted';
      }

  -- Of a registry that was filled by registration, a tool that is authorized without an approval is
  -- registered under the name, has low or medium risk and no approval requirement, its sandbox and
  -- audit requirements are met, and its capability is a safe one that was granted.
  pub authorize-unapproved :
      (specs : List ToolSpec) (tools : Dict ToolSpec) (name : String) (granted : List Request)
      (sandbox audit : Bool)
      → register_all lower specs [] ≡ ok tools
      → (authorize lower tools name granted false sandbox audit).allowed ≡ true
      → IsPermitted tools name granted sandbox audit
  unfolding authorize get
  authorize-unapproved specs tools name granted sandbox audit built h =
      go (get lower name tools) refl h
    where
      go :
          (o : Option ToolSpec)
          → get lower name tools ≡ o
          → (authorize_found lower o granted false sandbox audit).allowed ≡ true
          → IsPermitted tools name granted sandbox audit
      go none e q = absurd (false≢true q)
      go (some spec) e q =
          permitted tools name granted sandbox audit spec e
            (lookup-IsSound (lower (strip name)) tools
              (register_all-AreSound lower specs [] tt built) e)
            q
