-- ===== src/Policy/Capability.antt =====
-- capability_policy.py: the capabilities, the safe and the denied ones, and `check_capability`.
use autonomous_ai_scout.Base.{
  String, ◌≡◌, refl, sym, subst, ◌∙◌, Bool, true, false, not, Result, ok, err, ◌>>=◌, value_error,
  ok-injective, err-ne-ok, List, [], ◌∷◌, map, keep, any, contains, text_eq, text_eq_iff,
  if◌then◌else◌, Bool-cases, inl, inr, arith, strip, ap,
}
use mathlib.Core.Bool.{false≢true}

pub data Capability : Type 0 where
  inspect test lint metrics read_file benchmark web_research files_workspace : Capability
  workspace_shell email calendar browser computer application documents workflow : Capability
  communication rest_api network secrets billing source_write merge deploy destructive : Capability

-- `capability.value`
unfoldable pub value : Capability → String
value inspect = "inspect"
value test = "test"
value lint = "lint"
value metrics = "metrics"
value read_file = "read_file"
value benchmark = "benchmark"
value web_research = "web_research"
value files_workspace = "files_workspace"
value workspace_shell = "workspace_shell"
value email = "email"
value calendar = "calendar"
value browser = "browser"
value computer = "computer"
value application = "application"
value documents = "documents"
value workflow = "workflow"
value communication = "communication"
value rest_api = "rest_api"
value network = "network"
value secrets = "secrets"
value billing = "billing"
value source_write = "source_write"
value merge = "merge"
value deploy = "deploy"
value destructive = "destructive"

-- `for x in Capability`
abbrev pub all_capabilities : List Capability
all_capabilities =
    inspect ∷ test ∷ lint ∷ metrics ∷ read_file ∷ benchmark ∷ web_research ∷ files_workspace
    ∷ workspace_shell ∷ email ∷ calendar ∷ browser ∷ computer ∷ application ∷ documents ∷ workflow
    ∷ communication ∷ rest_api ∷ network ∷ secrets ∷ billing ∷ source_write ∷ merge ∷ deploy
    ∷ destructive ∷ []

-- Membership in `SAFE_CAPABILITIES`.
unfoldable pub is_safe : Capability → Bool
is_safe network = false
is_safe secrets = false
is_safe billing = false
is_safe source_write = false
is_safe merge = false
is_safe deploy = false
is_safe destructive = false
is_safe _ = true

-- The values of `DENIED_CAPABILITIES`, all that are not safe.
unfoldable pub denied_values : List String
unfolding value is_safe keep
denied_values = map value (keep (λ c. not (is_safe c)) all_capabilities)

pub record CapabilityDecision : Type 0 where
  pub allowed : Bool
  pub reason : String
  pub capability : String

-- What a caller passes where the code says `Capability | str`, and any other value, by the
-- text that `str` makes of it.
pub data Request : Type 0 where
  member : Capability → Request
  named : String → Request
  other : String → Request

-- The part of `check_capability` behind the `try`.
unfoldable pub decide : String → List String → CapabilityDecision
unfolding denied_values
decide capability granted =
    if contains capability denied_values
    then record {
      allowed = false;
      reason = "capability is permanently denied by autonomous policy";
      capability = capability;
    }
    else if not (contains capability granted)
    then record {
      allowed = false;
      reason = "capability has not been explicitly granted";
      capability = capability;
    }
    else record {
      allowed = true;
      reason = "capability is explicitly granted and within the safe allowlist";
      capability = capability;
    }

-- `lower` is `str.lower`.
module _ (lower : String → String) where
  unfoldable pub normalize_capability : Request → Result String
  unfolding value
  normalize_capability (member c) = ok (value c)
  normalize_capability (named s) =
      let normalized = lower (strip s) in
      if contains normalized (map value all_capabilities)
      then ok normalized
      else err (value_error "unknown capability")
  normalize_capability (other text) = err (value_error "capability must be a string")

  -- The set that `check_capability` makes of the grants.
  unfoldable pub normalize_all : List Request → Result (List String)
  normalize_all [] = ok []
  normalize_all (g ∷ gs) = do
    normalized ← normalize_capability g
    rest ← normalize_all gs
    ok (normalized ∷ rest)

  -- `except (TypeError, ValueError)`
  abbrev pub decide_normalized : Result String → Result (List String) → CapabilityDecision
  decide_normalized (ok capability) (ok granted) = decide capability granted
  decide_normalized (ok capability) (err e) = record {
    allowed = false;
    reason = "capability input is invalid";
    capability = "";
  }
  decide_normalized (err e) granted = record {
    allowed = false;
    reason = "capability input is invalid";
    capability = "";
  }

  unfoldable pub check_capability : Request → List Request → CapabilityDecision
  unfolding decide normalize_capability normalize_all
  check_capability value' granted =
      decide_normalized (normalize_capability value') (normalize_all granted)

any-find : {A : Type 0} (p : A → Bool) (xs : List A) → any p xs ≡ true → (x : A) × (p x ≡ true)
any-find p [] h = cc
any-find p (x ∷ xs) h = elim (Bool-cases (p x)) [
  | inl e ↦ (x, e)
  | inr e ↦ any-find p xs (rw e at h)
]

any-map :
    {A : Type 0} (p : String → Bool) (f : A → String) (xs : List A)
    → any p (map f xs) ≡ any (λ x. p (f x)) xs
any-map p f [] = refl
any-map p f (x ∷ xs) = rw (any-map p f xs)

denied-contains : (c : Capability) → is_safe c ≡ false → contains (value c) denied_values ≡ true
unfolding denied_values
denied-contains network h = refl
denied-contains secrets h = refl
denied-contains billing h = refl
denied-contains source_write h = refl
denied-contains merge h = refl
denied-contains deploy h = refl
denied-contains destructive h = refl
denied-contains _ h = cc

decide-allowed :
    (capability : String) (granted : List String)
    → (decide capability granted).allowed ≡ true
    → (contains capability denied_values ≡ false)
      × (contains capability granted ≡ true)
      × ((decide capability granted).capability ≡ capability)
unfolding decide
decide-allowed capability granted h = ground arith

-- A value that is not denied is safe.
is_safe_of_clear : (c : Capability) → contains (value c) denied_values ≡ false → is_safe c ≡ true
is_safe_of_clear c clear = elim (Bool-cases (is_safe c)) [
  | inl e ↦ e
  | inr e ↦ absurd (false≢true (sym clear ∙ denied-contains c e))
]

module _ (lower : String → String) where
  -- What normalizes is the value of a capability.
  pub normalize-value :
      (r : Request) {s : String}
      → normalize_capability lower r ≡ ok s
      → (c : Capability) × (s ≡ value c)
  unfolding normalize_capability
  normalize-value (member c) h = (c, sym (ok-injective h))
  normalize-value (named t) h =
      elim (Bool-cases (contains (lower (strip t)) (map value all_capabilities))) [
        | inl e ↦
            let (c, same) =
              any-find (λ c. text_eq (value c) (lower (strip t))) all_capabilities
                (sym (any-map (λ y. text_eq y (lower (strip t))) value all_capabilities) ∙ e) in
            (
              c,
              sym (ok-injective (rw e at h))
                  ∙ sym ((text_eq_iff (value c) (lower (strip t))).0 same),
            )
        | inr e ↦ absurd (err-ne-ok (rw e at h))
      ]
  normalize-value (other text) h = absurd (err-ne-ok h)

  -- A request is allowed only if it names a safe capability, every grant is the name of some
  -- capability, and one of the grants is the requested capability.
  pub check_capability-allowed :
      (r : Request) (granted : List Request)
      → (check_capability lower r granted).allowed ≡ true
      → (c : Capability) × (gs : List String) × (normalize_capability lower r ≡ ok (value c))
        × (is_safe c ≡ true)
        × (normalize_all lower granted ≡ ok gs)
        × (contains (value c) gs ≡ true)
  unfolding check_capability
  check_capability-allowed r granted h =
      go (normalize_capability lower r) (normalize_all lower granted) refl refl h
    where
      go :
          (a : Result String) (b : Result (List String))
          → normalize_capability lower r ≡ a
          → normalize_all lower granted ≡ b
          → (decide_normalized lower a b).allowed ≡ true
          → (c : Capability) × (gs : List String) × (normalize_capability lower r ≡ ok (value c))
            × (is_safe c ≡ true)
            × (normalize_all lower granted ≡ ok gs)
            × (contains (value c) gs ≡ true)
      go (ok s) (ok gs) p q h =
          let (c, same) = normalize-value r p in
          let (clear, granted', _) = decide-allowed s gs h in
          (
            c,
            gs,
            p ∙ ap ok same,
            is_safe_of_clear c
                (subst (λ (z : String). contains z denied_values ≡ false) same clear),
            q,
            subst (λ (z : String). contains z gs ≡ true) same granted',
          )
      go (ok s) (err e) p q h = absurd (false≢true h)
      go (err e) b p q h = absurd (false≢true h)
