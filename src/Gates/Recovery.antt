-- ===== src/Gates/Recovery.antt =====
-- resilience.py: what to do after a failure.
use autonomous_ai_scout.Base.{
  ℕ, suc, String, ◌≡◌, ◌≤◌, Bool, true, false, Option, none, some, [], ◌∷◌, contains, if◌then◌else◌,
  leb, min, ℤ, pos, negsuc, ◌⊎◌,
}
use Prim.Native.Nat.{◌^◌}

pub data RecoveryAction : Type 0 where
  retry reconcile abort : RecoveryAction

-- The delay of a directive, a float: a number of seconds, or one second halved some times.
pub data Delay : Type 0 where
  seconds halved : ℕ → Delay

pub record RecoveryDirective : Type 0 where
  pub action : RecoveryAction
  pub reason : String
  pub retry_after_seconds : Delay

-- What `classify_failure` does: it returns a directive, or raises `OverflowError`.
pub data Classified : Type 0 where
  directed : RecoveryDirective → Classified
  overflow : Classified

-- `side_effect_state in {"reserved", "unknown"}`
abbrev pub is_uncertain : Option String → Bool
is_uncertain none = false
is_uncertain (some state) = contains state ("reserved" ∷ "unknown" ∷ [])

abbrev pub is_retryable : String → Bool
is_retryable exception_type =
    contains exception_type ("TimeoutError" ∷ "ConnectionError" ∷ "TemporaryFailure" ∷ [])

-- `a >= b`
abbrev pub at_least : ℤ → ℤ → Bool
at_least (pos a) (pos b) = leb b a
at_least (pos a) (negsuc b) = true
at_least (negsuc a) (pos b) = false
at_least (negsuc a) (negsuc b) = leb a b

abbrev pub retry_after : Delay → Classified
retry_after delay = directed (record {
  action = retry;
  reason = "transient failure within bounded retry budget";
  retry_after_seconds = delay;
})

-- `min(30.0, 2.0 ** attempt)` in the directive: the power of a float overflows from 1024 on.
unfoldable pub back_off : ℤ → Classified
back_off (pos n) = if leb 1024 n then overflow else retry_after (seconds (min 30 (2 ^ n)))
back_off (negsuc n) = retry_after (halved (suc n))

unfoldable pub classify_failure : String → ℤ → ℤ → Option String → Classified
unfolding back_off
classify_failure exception_type attempt max_attempts side_effect_state =
    if is_uncertain side_effect_state
    then directed (record {
      action = reconcile;
      reason = "external side effect outcome is uncertain; automatic replay is unsafe";
      retry_after_seconds = seconds 0;
    })
    else if at_least attempt max_attempts
    then directed (record {
      action = abort;
      reason = "bounded retry budget exhausted";
      retry_after_seconds = seconds 0;
    })
    else if is_retryable exception_type
    then back_off attempt
    else directed (record {
      action = abort;
      reason = "failure is not classified as safely retryable";
      retry_after_seconds = seconds 0;
    })

-- `a < b`
pub IsBelow : ℤ → ℤ → Type 0
IsBelow (pos a) (pos b) = suc a ≤ b
IsBelow (pos a) (negsuc b) = ⊥
IsBelow (negsuc a) (pos b) = Unit
IsBelow (negsuc a) (negsuc b) = suc b ≤ a

-- A delay of at most 30 seconds.
pub IsShort : Delay → Type 0
IsShort (seconds n) = n ≤ 30
IsShort (halved n) = Unit

-- What justifies another attempt: a transient failure, an attempt that is left, and no side effect
-- whose outcome is uncertain.
pub record MayRetry (exception_type : String) (attempt max_attempts : ℤ) (state : Option String)
    : Type 0 where
  pub transient :
      (exception_type ≡ "TimeoutError")
      ⊎ ((exception_type ≡ "ConnectionError") ⊎ (exception_type ≡ "TemporaryFailure"))
  pub left : IsBelow attempt max_attempts
  pub not_reserved : ¬ (state ≡ some "reserved")
  pub not_unknown : ¬ (state ≡ some "unknown")

-- An overflow from attempt 1024 on, or a directive: no retry, or one that is justified and short.
abbrev pub IsJustified : Type 0 → ℤ → Classified → Type 0
IsJustified Justified attempt c =
    ((n : ℕ) × (c ≡ overflow) × (attempt ≡ pos n) × (1024 ≤ n) × Justified)
    ⊎ ((d : RecoveryDirective) × (c ≡ directed d)
        × ((¬ (d.action ≡ retry)) ⊎ (Justified × IsShort d.retry_after_seconds)))
