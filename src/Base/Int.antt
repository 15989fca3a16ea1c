-- ===== src/Base/Int.antt =====
-- Python's `int`. `negsuc n` is -(n + 1).
use Prim.Native.Nat.{ℕ, zero, suc, ◌+◌}
use autonomous_ai_scout.Base.Tests.{leb}
use mathlib.Core.Bool.{Bool, true, false}
use mathlib.Core.Path.{◌≡◌}
use native.Mathlib.Omega.{arith}

pub data ℤ : Type 0 where
  pos : ℕ → ℤ
  negsuc : ℕ → ℤ

-- n + 1
abbrev pub next_int : ℤ → ℤ
next_int (pos n) = pos (n + 1)
next_int (negsuc zero) = pos 0
next_int (negsuc (suc n)) = negsuc n

-- `0 <= n <= bound`
abbrev pub int_within : ℕ → ℤ → Bool
int_within bound (pos n) = leb n bound
int_within bound (negsuc n) = false

-- `max(0, n)`
abbrev pub clamp_at_zero : ℤ → ℕ
clamp_at_zero (pos n) = n
clamp_at_zero (negsuc n) = 0

pub next_int-within :
    (bound : ℕ) (n : ℤ) → int_within bound n ≡ true → int_within (suc bound) (next_int n) ≡ true
next_int-within bound n h = ground arith
