-- ===== src/Clock.antt =====
-- `datetime`: the current time and `datetime.fromisoformat`, as the code uses them.
use autonomous_ai_scout.Base.{ℕ, String, ◌≡◌, refl, Bool, Option, if◌then◌else◌, ◌+++◌, ◌==◌}
use Prim.Native.Char.{code}

-- What a parsed timestamp says: whether it has a timezone, and the instant, a timestamp without a
-- timezone read as UTC.
pub record Stamp : Type 0 where
  pub aware : Bool
  pub instant : ℕ

-- `datetime.fromisoformat`: none where it raises `ValueError`.
pub record Calendar : Type 0 where
  pub from_iso : String → Option Stamp

-- `value.replace("Z", "+00:00")`
unfoldable pub replace_z : String → String
replace_z String.[] = String.[]
replace_z (String.◌∷◌ c s) =
    let rest = replace_z s in if code c == b'Z' then "+00:00" +++ rest else String.◌∷◌ c rest

replaces_z : replace_z "2026-01-01T00:00:00Z" ≡ "2026-01-01T00:00:00+00:00"
unfolding replace_z
replaces_z = refl
