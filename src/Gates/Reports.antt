-- ===== src/Gates/Reports.antt =====
-- readiness.py and production_audit.py: the two reports that the admission gate reads.
use autonomous_ai_scout.Base.{
  String, ◌≡◌, Bool, true, false, not, ◌&&◌, Option, none, some, List, [], ◌∷◌, all, is_nil,
  text_eq, if◌then◌else◌, ◌+++◌, join, arith, All, ℕ, zero, suc, refl, ◌++◌, ap, text_eq_iff,
  Bool-cases, ◌∙◌, inl, inr,
}

pub record ReadinessCheck : Type 0 where
  pub name : String
  pub passed : Bool
  pub evidence : String

pub record ReadinessReport : Type 0 where
  pub ready : Bool
  pub checks : List ReadinessCheck

-- `xs[:n]`
unfoldable pub take {ℓ} : {A : Type ℓ} → ℕ → List A → List A
take zero xs = []
take (suc n) [] = []
take (suc n) (x ∷ xs) = x ∷ take n xs

unfoldable pub evaluate_readiness : List ReadinessCheck → ReadinessReport
unfolding take
evaluate_readiness checks =
    let bounded = take 64 checks in
    record {
      ready = not (is_nil bounded) && all (λ (item : ReadinessCheck). item.passed) bounded;
      checks = bounded;
    }

pub record AuditFinding : Type 0 where
  pub area : String
  pub passed : Bool
  pub evidence : String

pub record ProductionAudit : Type 0 where
  pub passed : Bool
  pub findings : List AuditFinding
  pub reason : String

abbrev pub required_areas : List String
required_areas =
    "concurrency" ∷ "replay" ∷ "queue_bounds" ∷ "prompt_injection" ∷ "secret_redaction"
    ∷ "shell_safety" ∷ "approval" ∷ "ci" ∷ "external_data" ∷ []

abbrev pub or_else : Option AuditFinding → Option AuditFinding → Option AuditFinding
or_else (some later) found = some later
or_else none found = found

-- `observed.get(name)`: of the findings of an area, the last one.
unfoldable pub observed : String → List AuditFinding → Option AuditFinding
observed name [] = none
observed name (item ∷ items) =
    or_else (observed name items) (if text_eq item.area name then some item else none)

abbrev pub cons_found : Option AuditFinding → List AuditFinding → List AuditFinding
cons_found none found = found
cons_found (some item) found = item ∷ found

-- The findings of the areas, in the order of the areas.
unfoldable pub ordered : List String → List AuditFinding → List AuditFinding
unfolding observed
ordered [] items = []
ordered (name ∷ names) items = cons_found (observed name items) (ordered names items)

abbrev pub is_missing : Option AuditFinding → Bool
is_missing none = true
is_missing (some item) = false

unfoldable pub missing : List String → List AuditFinding → List String
unfolding observed
missing [] items = []
missing (name ∷ names) items =
    let rest = missing names items in if is_missing (observed name items) then name ∷ rest else rest

abbrev pub failed_areas : List AuditFinding → List String
failed_areas [] = []
failed_areas (item ∷ items) =
    let rest = failed_areas items in if not item.passed then item.area ∷ rest else rest

abbrev pub missing_or_failed : List String → List AuditFinding → List String
missing_or_failed [] found = failed_areas found
missing_or_failed (name ∷ names) found = name ∷ names

unfoldable pub run_production_audit : List AuditFinding → ProductionAudit
unfolding ordered missing join
run_production_audit findings =
    let found = ordered required_areas findings in
    let absent = missing required_areas findings in
    let passed = is_nil absent && all (λ (item : AuditFinding). item.passed) found in
    record {
      passed = passed;
      findings = found;
      reason =
          if passed
          then "all required production safety areas passed"
          else "production hardening gate failed; missing or failed evidence: "
            +++ join ", " (missing_or_failed absent found);
    }

-- The last finding of an area has passed.
abbrev pub IsCovered : List AuditFinding → String → Type 0
IsCovered findings name =
    (before : List AuditFinding) × (item : AuditFinding) × (after : List AuditFinding) × (findings
      ≡ before ++ item ∷ after)
    × (item.area ≡ name)
    × (item.passed ≡ true)
    × All (λ (later : AuditFinding). ¬ (later.area ≡ name)) after

observed-none :
    (name : String) (items : List AuditFinding)
    → observed name items ≡ none
    → All (λ (later : AuditFinding). ¬ (later.area ≡ name)) items
unfolding observed
observed-none name [] h = tt
observed-none name (item ∷ items) h = go (observed name items) refl (observed-none name items) h
  where
    go :
        (o : Option AuditFinding)
        → observed name items ≡ o
        → (observed name items ≡ none → All (λ (later : AuditFinding). ¬ (later.area ≡ name)) items)
        → or_else o (if text_eq item.area name then some item else none) ≡ none
        → All (λ (later : AuditFinding). ¬ (later.area ≡ name)) (item ∷ items)
    go none e none_left h' = (λ same. ground (arith, text_eq_iff item.area name), none_left e)
    go (some later) e none_left h' = cc

observed-some :
    (name : String) (items : List AuditFinding) (item : AuditFinding)
    → observed name items ≡ some item
    → item.passed ≡ true
    → IsCovered items name
unfolding observed
observed-some name [] item h p = cc
observed-some name (first ∷ items) item h p =
    go (observed name items) refl (λ e. observed-some name items item e p) h
  where
    go :
        (o : Option AuditFinding)
        → observed name items ≡ o
        → (observed name items ≡ some item → IsCovered items name)
        → or_else o (if text_eq first.area name then some first else none) ≡ some item
        → IsCovered (first ∷ items) name
    go none e later_one h' = elim (Bool-cases (text_eq first.area name)) [
      | inl same ↦ (
        [],
        first,
        items,
        refl,
        ground (arith, same, text_eq_iff first.area name),
        ground (arith, h', same, p),
        observed-none name items e,
      )
      | inr differ ↦ ground (arith, h', differ)
    ]
    go (some later) e later_one h' =
        let (before, last, after, split, named, passed, rest) = later_one (e ∙ h') in
        (first ∷ before, last, after, ap (λ l. first ∷ l) split, named, passed, rest)

covered :
    (names : List String) (items : List AuditFinding)
    → is_nil (missing names items) ≡ true
    → all (λ (item : AuditFinding). item.passed) (ordered names items) ≡ true
    → All (IsCovered items) names
unfolding missing ordered
covered [] items m p = tt
covered (name ∷ names) items m p =
    go (observed name items) refl (λ m' p'. covered names items m' p') m p
  where
    go :
        (o : Option AuditFinding)
        → observed name items ≡ o
        → (is_nil (missing names items) ≡ true
            → all (λ (item : AuditFinding). item.passed) (ordered names items) ≡ true
            → All (IsCovered items) names)
        → is_nil (if is_missing o then name ∷ missing names items else missing names items) ≡ true
        → all (λ (item : AuditFinding). item.passed) (cons_found o (ordered names items)) ≡ true
        → All (IsCovered items) (name ∷ names)
    go none e rest m' p' = cc
    go (some item) e rest m' p' =
        (observed-some name items item e (ground arith), rest m' (ground arith))

-- An audit that passes has a finding in each of the nine areas, and the last finding of each area has
-- passed.
pub audit-covers :
    (findings : List AuditFinding)
    → (run_production_audit findings).passed ≡ true
    → All (IsCovered findings) (
        "concurrency" ∷ "replay" ∷ "queue_bounds" ∷ "prompt_injection" ∷ "secret_redaction"
        ∷ "shell_safety" ∷ "approval" ∷ "ci" ∷ "external_data" ∷ [])
unfolding run_production_audit
audit-covers findings h = covered required_areas findings (ground arith) (ground arith)
