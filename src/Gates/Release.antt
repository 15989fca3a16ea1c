-- ===== src/Gates/Release.antt =====
-- release_gate.py: which release may go to a controlled target.
use autonomous_ai_scout.Base.{
  String, ◌≡◌, Bool, true, false, not, ◌||◌, List, [], ◌∷◌, map, contains, text_eq, if◌then◌else◌,
  is_empty, strip, ◌↔◌, arith,
}

pub record ReleaseGateResult : Type 0 where
  pub allowed : Bool
  pub reason : String
  pub target : String
  pub deployment_permitted : Bool

-- The arguments of `evaluate_release_gate`, of the types that it names.
pub record Release : Type 0 where
  pub artifact_digest : String
  pub expected_artifact_digest : String
  pub target : String
  pub ci_passed : Bool
  pub post_change_verified : Bool
  pub review_policy_passed : Bool
  pub release_approved : Bool
  pub allowed_targets : List String

abbrev pub safe_release_targets : List String
safe_release_targets = "sandbox" ∷ "staging" ∷ []

abbrev pub forbidden_release_targets : List String
forbidden_release_targets = "production" ∷ "prod" ∷ []

-- `lower` is `str.lower`.
module _ (lower : String → String) where
  abbrev pub normalized : String → String
  normalized s = lower (strip s)

  unfoldable pub evaluate_release_gate : Release → ReleaseGateResult
  evaluate_release_gate release =
      let target = normalized release.target in
      let actual_digest = normalized release.artifact_digest in
      let expected_digest = normalized release.expected_artifact_digest in
      let allowed = map normalized release.allowed_targets in
      let refuse = λ (reason : String).
        let r : ReleaseGateResult = record {
          allowed = false;
          reason = reason;
          target = target;
          deployment_permitted = false;
        } in
        r in
      if is_empty target
      then refuse "release target is required"
      else if contains target forbidden_release_targets
      then refuse "production release is outside the autonomous boundary"
      else if is_empty actual_digest || is_empty expected_digest
      then refuse "artifact digest is required"
      else if not (text_eq actual_digest expected_digest)
      then refuse "release artifact digest does not match"
      else if not (contains target allowed)
      then refuse "release target is not allowlisted"
      else if not release.ci_passed
      then refuse "required CI checks have not passed"
      else if not release.post_change_verified
      then refuse "post-change verification has not passed"
      else if not release.review_policy_passed
      then refuse "review policy gate has not passed"
      else if not release.release_approved
      then refuse "explicit release approval is missing"
      else record {
        allowed = true;
        reason =
            "release is eligible for controlled non-production execution; deployment remains a separate capability";
        target = target;
        deployment_permitted = false;
      }

  -- A release is allowed exactly if its target, stripped and in lower case, is not empty, not a
  -- production target and on the allowlist, the two digests are equal and not empty, and the CI, the
  -- verification, the review policy and the approval have all passed.
  pub release-allowed_iff :
      (release : Release)
      → ((evaluate_release_gate release).allowed ≡ true) ↔ (
          (is_empty (normalized release.target) ≡ false)
          × (contains (normalized release.target) forbidden_release_targets ≡ false)
          × (contains (normalized release.target) (map normalized release.allowed_targets) ≡ true)
          × (is_empty (normalized release.artifact_digest) ≡ false)
          × (is_empty (normalized release.expected_artifact_digest) ≡ false)
          × (text_eq
                (normalized release.artifact_digest)
                (normalized release.expected_artifact_digest)
              ≡ true)
          × (release.ci_passed ≡ true)
          × (release.post_change_verified ≡ true)
          × (release.review_policy_passed ≡ true)
          × (release.release_approved ≡ true))
  unfolding evaluate_release_gate
  release-allowed_iff release = ((λ h. ground arith), (λ h. ground arith))
