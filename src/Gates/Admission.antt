-- ===== src/Gates/Admission.antt =====
-- admission.py: the gate in front of the canonical execution, with the two reports that it reads.
use autonomous_ai_scout.Base.{
  ℕ, String, ◌≡◌, refl, Bool, true, false, not, ◌&&◌, ◌||◌, Option, none, some, text_eq,
  if◌then◌else◌, ltb, leb, is_blank, strip, text_length, ◌==◌, ◌↔◌, arith, Bool-cases, inl, inr,
  ◌⊎◌, ◌≤◌,
}
use Prim.Native.Char.{code}
use mathlib.Core.Bool.{false≢true}
use autonomous_ai_scout.Storage.{Json, object, text, array, flag, end, field, encode_all}
use autonomous_ai_scout.Gates.Reports.{
  ReadinessCheck, ReadinessReport, AuditFinding, ProductionAudit,
}

pub record AdmissionRequest : Type 0 where
  pub task_id : String
  pub execution_id : String
  pub expected_task_digest : String
  pub expected_authorization_digest : String
  pub side_effects : Bool
  pub explicitly_approved : Bool

-- The arguments `actual_...` of `evaluate_admission`.
pub record Actual : Type 0 where
  pub task_digest : String
  pub authorization_digest : String
  pub execution_id : String
  pub side_effects : Bool
  pub explicitly_approved : Bool

pub record AdmissionDecision : Type 0 where
  pub admitted : Bool
  pub reason : String
  pub digest : String

abbrev is_hex_digit : ℕ → Bool
is_hex_digit c = (leb b'0' c && leb c b'9') || (leb b'a' c && leb c b'f')

unfoldable pub all_hex : String → Bool
all_hex String.[] = true
all_hex (String.◌∷◌ c s) = is_hex_digit (code c) && all_hex s

-- `_HEX64.fullmatch`
unfoldable pub is_hex64 : String → Bool
unfolding all_hex
is_hex64 s = text_length s == 64 && all_hex s

-- `_validate_request`: none where the request is valid.
unfoldable pub validate_request : AdmissionRequest → Option String
validate_request request =
    if is_blank request.task_id || ltb 128 (text_length request.task_id)
    then some "admission task identity is invalid"
    else if is_blank request.execution_id || ltb 128 (text_length request.execution_id)
    then some "admission execution identity is invalid"
    else if not (is_hex64 request.expected_task_digest)
    then some "admission task digest is invalid"
    else if not (is_hex64 request.expected_authorization_digest)
    then some "admission authorization digest is invalid"
    else none

-- The payload of `_decision_digest`.
unfoldable pub decision_payload :
    AdmissionRequest → Actual → ReadinessReport → ProductionAudit → Json
decision_payload request actual readiness audit = object (
    field "request"
      (object (
        field "task_id" (text request.task_id) (
          field "execution_id" (text request.execution_id) (
            field "expected_task_digest" (text request.expected_task_digest) (
              field "expected_authorization_digest" (text request.expected_authorization_digest) (
                field "side_effects" (flag request.side_effects)
                  (field "explicitly_approved" (flag request.explicitly_approved) end)))))))
      (field "actual_task_digest" (text actual.task_digest) (
        field "actual_authorization_digest" (text actual.authorization_digest) (
          field "actual_execution_id" (text actual.execution_id) (
            field "actual_side_effects" (flag actual.side_effects) (
              field "actual_explicitly_approved" (flag actual.explicitly_approved) (
                field "readiness"
                  (array (
                    encode_all
                      (λ (c : ReadinessCheck).
                        object (field "name" (text c.name) (field "passed" (flag c.passed) end)))
                      readiness.checks))
                  (field "production_audit"
                    (array (
                      encode_all
                        (λ (f : AuditFinding).
                          object (field "area" (text f.area) (field "passed" (flag f.passed) end)))
                        audit.findings))
                    (field "readiness_ready" (flag readiness.ready)
                      (field "production_audit_passed" (flag audit.passed) end))))))))))

-- `bool(a) != bool(b)`
abbrev differ : Bool → Bool → Bool
differ true b = not b
differ false b = b

abbrev refuse : String → String → AdmissionDecision
refuse reason digest = record { admitted = false; reason = reason; digest = digest }

-- The checks of `evaluate_admission` on a valid request.
unfoldable pub evaluate_valid :
    AdmissionRequest → Actual → ReadinessReport → ProductionAudit → String → AdmissionDecision
evaluate_valid request actual readiness audit digest =
    if not (text_eq request.task_id (strip request.task_id))
    then refuse "admission task identity is not normalized" digest
    else if not (text_eq request.execution_id (strip request.execution_id))
    then refuse "admission execution identity is not normalized" digest
    else if not (text_eq request.execution_id actual.execution_id)
    then refuse "admission execution identity does not match canonical execution" digest
    else if not (text_eq actual.task_digest request.expected_task_digest)
    then refuse "admission task digest does not match canonical execution" digest
    else if not (text_eq actual.authorization_digest request.expected_authorization_digest)
    then refuse "admission authorization digest does not match canonical execution" digest
    else if differ request.side_effects actual.side_effects
    then refuse "admission side-effect classification does not match canonical execution" digest
    else if differ request.explicitly_approved actual.explicitly_approved
    then refuse "admission approval state does not match canonical execution" digest
    else if not readiness.ready
    then refuse "readiness gate is not satisfied" digest
    else if not audit.passed
    then refuse "production audit gate is not satisfied" digest
    else if request.side_effects && not request.explicitly_approved
    then refuse "side-effecting execution requires explicit approval" digest
    else record { admitted = true; reason = "canonical admission gates satisfied"; digest = digest }

abbrev pub evaluate_checked :
    Option String
    → AdmissionRequest
    → Actual
    → ReadinessReport
    → ProductionAudit
    → String
    → AdmissionDecision
evaluate_checked none request actual readiness audit digest =
    evaluate_valid request actual readiness audit digest
evaluate_checked (some invalid) request actual readiness audit digest = refuse invalid digest

-- `sha256` stands for the digest of the canonical JSON text of a payload.
module _ (sha256 : Json → String) where
  unfoldable pub evaluate_admission :
      AdmissionRequest → Actual → ReadinessReport → ProductionAudit → AdmissionDecision
  unfolding evaluate_valid validate_request decision_payload
  evaluate_admission request actual readiness audit =
      evaluate_checked (validate_request request) request actual readiness audit
        (sha256 (decision_payload request actual readiness audit))

-- A text of digits 0 to 9 and letters a to f.
pub IsHex : String → Type 0
IsHex String.[] = Unit
IsHex (String.◌∷◌ c s) =
    (((b'0' ≤ code c) × (code c ≤ b'9')) ⊎ ((b'a' ≤ code c) × (code c ≤ b'f'))) × IsHex s

all_hex-IsHex : (s : String) → all_hex s ≡ true → IsHex s
unfolding all_hex IsHex
all_hex-IsHex String.[] h = tt
all_hex-IsHex (String.◌∷◌ c s) h = elim (Bool-cases (leb b'0' (code c) && leb (code c) b'9')) [
  | inl e ↦ (inl (ground arith, ground arith), all_hex-IsHex s (ground arith))
  | inr e ↦ (inr (ground arith, ground arith), all_hex-IsHex s (ground arith))
]

IsHex-all_hex : (s : String) → IsHex s → all_hex s ≡ true
unfolding all_hex IsHex
IsHex-all_hex String.[] h = refl
IsHex-all_hex (String.◌∷◌ c s) (inl d, h) = let rest = IsHex-all_hex s h in ground arith
IsHex-all_hex (String.◌∷◌ c s) (inr d, h) = let rest = IsHex-all_hex s h in ground arith

-- A digest: 64 digits.
pub record IsDigest (s : String) : Type 0 where
  pub long : text_length s ≡ 64
  pub hex : IsHex s

is_hex64-IsDigest : (s : String) → is_hex64 s ≡ true → IsDigest s
unfolding is_hex64
is_hex64-IsDigest s h = record { long = ground arith; hex = all_hex-IsHex s (ground arith) }

IsDigest-is_hex64 : (s : String) → IsDigest s → is_hex64 s ≡ true
unfolding is_hex64
IsDigest-is_hex64 s d = let h = IsHex-all_hex s d.hex in let l = d.long in ground arith

-- A valid request: both names are not blank and of at most 128 characters, and both digests are
-- digests.
pub record IsValidRequest (request : AdmissionRequest) : Type 0 where
  pub task_named : is_blank request.task_id ≡ false
  pub task_short : text_length request.task_id ≤ 128
  pub execution_named : is_blank request.execution_id ≡ false
  pub execution_short : text_length request.execution_id ≤ 128
  pub task_digest : IsDigest request.expected_task_digest
  pub authorization_digest : IsDigest request.expected_authorization_digest

validate_request-IsValidRequest :
    (request : AdmissionRequest) → validate_request request ≡ none → IsValidRequest request
unfolding validate_request
validate_request-IsValidRequest request h = record {
  task_named = ground arith;
  task_short = ground arith;
  execution_named = ground arith;
  execution_short = ground arith;
  task_digest = is_hex64-IsDigest request.expected_task_digest (ground arith);
  authorization_digest = is_hex64-IsDigest request.expected_authorization_digest (ground arith);
}

IsValidRequest-validate_request :
    (request : AdmissionRequest) → IsValidRequest request → validate_request request ≡ none
unfolding validate_request
IsValidRequest-validate_request request v =
    let t = IsDigest-is_hex64 request.expected_task_digest v.task_digest in
    let a = IsDigest-is_hex64 request.expected_authorization_digest v.authorization_digest in
    ground arith

-- What an admission stands for: a valid and normalized request that names the execution at hand, its
-- two digests and its two flags, both reports passed, and an approval for side effects.
pub record IsAdmissible (request : AdmissionRequest) (actual : Actual) (readiness : ReadinessReport)
    (audit : ProductionAudit) : Type 0 where
  pub valid : IsValidRequest request
  pub task_normalized : text_eq request.task_id (strip request.task_id) ≡ true
  pub execution_normalized : text_eq request.execution_id (strip request.execution_id) ≡ true
  pub same_execution : text_eq request.execution_id actual.execution_id ≡ true
  pub same_task : text_eq actual.task_digest request.expected_task_digest ≡ true
  pub same_authorization :
      text_eq actual.authorization_digest request.expected_authorization_digest ≡ true
  pub same_side_effects : request.side_effects ≡ actual.side_effects
  pub same_approval : request.explicitly_approved ≡ actual.explicitly_approved
  pub is_ready : readiness.ready ≡ true
  pub is_audited : audit.passed ≡ true
  pub approved : request.side_effects ≡ true → request.explicitly_approved ≡ true

module _ (request : AdmissionRequest) (actual : Actual) (readiness : ReadinessReport)
    (audit : ProductionAudit) where
  valid-IsAdmissible :
      (digest : String)
      → validate_request request ≡ none
      → (evaluate_valid request actual readiness audit digest).admitted ≡ true
      → IsAdmissible request actual readiness audit
  unfolding evaluate_valid
  valid-IsAdmissible digest v h = record {
    valid = validate_request-IsValidRequest request v;
    task_normalized = ground arith;
    execution_normalized = ground arith;
    same_execution = ground arith;
    same_task = ground arith;
    same_authorization = ground arith;
    same_side_effects = ground arith;
    same_approval = ground arith;
    is_ready = ground arith;
    is_audited = ground arith;
    approved = λ e. ground arith;
  }

  IsAdmissible-valid :
      (digest : String)
      → IsAdmissible request actual readiness audit
      → (evaluate_valid request actual readiness audit digest).admitted ≡ true
  unfolding evaluate_valid
  IsAdmissible-valid digest h = elim (Bool-cases request.side_effects) [
    | inl e ↦ let a = h.approved e in ground arith
    | inr e ↦ ground arith
  ]

  -- A request is admitted exactly if its task and its execution have a name that is not blank, of at
  -- most 128 characters and without space around it, both expected digests are 64 digits 0-9 and a-f,
  -- it names the execution at hand with its two digests and its two flags, both reports passed, and
  -- side effects have an explicit approval.
  pub admitted_iff :
      (sha256 : Json → String)
      → ((evaluate_admission sha256 request actual readiness audit).admitted ≡ true)
        ↔ IsAdmissible request actual readiness audit
  unfolding evaluate_admission
  admitted_iff sha256 = (forward (validate_request request) refl, backward)
    where
      digest : String
      digest = sha256 (decision_payload request actual readiness audit)

      forward :
          (v : Option String)
          → validate_request request ≡ v
          → (evaluate_checked v request actual readiness audit digest).admitted ≡ true
          → IsAdmissible request actual readiness audit
      forward none e h = valid-IsAdmissible digest e h
      forward (some reason) e h = absurd (false≢true h)

      backward :
          IsAdmissible request actual readiness audit
          → (evaluate_checked
              (validate_request request)
              request
              actual
              readiness
              audit
              digest).admitted
            ≡ true
      backward h =
          rw (IsValidRequest-validate_request request h.valid) (IsAdmissible-valid digest h)
