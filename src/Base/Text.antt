-- ===== src/Base/Text.antt =====
-- Python's `str` as a native text: the whitespace test, `strip`, `len`, slices, and joins.
use Prim.Native.Nat.{ℕ, zero, suc, ◌≤◌}
use text.Mathlib.Text.{◌==◌ as str_eq, is_le}
use text.Mathlib.TextEquality.{eq_iff}
use Prim.Native.Char.{Char, code}
use Prim.Native.String.{String, compare}
use mathlib.Core.Path.{◌≡◌, refl, ap}
use mathlib.Core.Logic.{◌↔◌, inl, inr}
use mathlib.Core.Bool.{Bool, true, false, ◌&&◌, ◌||◌}
use mathlib.Core.List.{List, [], ◌∷◌}
use native.Mathlib.Omega.{arith}
use autonomous_ai_scout.Base.Tests.{leb, ◌==◌, if◌then◌else◌, Bool-cases}

-- `str.isspace` of one character.
unfoldable pub is_space : Char → Bool
is_space ch =
    let c = code ch in
    (leb 9 c && leb c 13)
    || (leb 28 c && leb c 32)
    || c == 0x85
    || c == 0xa0
    || c == 0x1680
    || (leb 0x2000 c && leb c 0x200a)
    || c == 0x2028
    || c == 0x2029
    || c == 0x202f
    || c == 0x205f
    || c == 0x3000

abbrev pub is_empty : String → Bool
is_empty String.[] = true
is_empty (String.◌∷◌ c s) = false

unfoldable pub lstrip : String → String
lstrip String.[] = String.[]
lstrip (String.◌∷◌ c s) = if is_space c then lstrip s else String.◌∷◌ c s

abbrev pub rstrip_cons : Char → String → String
rstrip_cons c s = if is_space c && is_empty s then String.[] else String.◌∷◌ c s

unfoldable pub rstrip : String → String
rstrip String.[] = String.[]
rstrip (String.◌∷◌ c s) = rstrip_cons c (rstrip s)

unfoldable pub strip : String → String
unfolding lstrip rstrip is_space
strip s = rstrip (lstrip s)

-- `not s.strip()`
abbrev pub is_blank : String → Bool
is_blank s = is_empty (strip s)

-- `len(s)`, in code points.
unfoldable pub text_length : String → ℕ
text_length String.[] = 0
text_length (String.◌∷◌ c s) = suc (text_length s)

-- `s[:n]`
unfoldable pub text_take : ℕ → String → String
text_take zero s = String.[]
text_take (suc n) String.[] = String.[]
text_take (suc n) (String.◌∷◌ c s) = String.◌∷◌ c (text_take n s)

infixr 65 ◌+++◌
abbrev pub ◌+++◌ : String → String → String
String.[] +++ t = t
String.◌∷◌ c s +++ t = String.◌∷◌ c (s +++ t)

-- `sep.join(parts)`
unfoldable pub join : String → List String → String
join sep [] = ""
join sep (s ∷ []) = s
join sep (s ∷ t ∷ rest) = s +++ sep +++ join sep (t ∷ rest)

-- `" ".join(s.split())`: leading and trailing whitespace goes, inner runs become one space. The
-- flag says that whitespace was met since the last character that was kept.
unfoldable pub squeeze_from : Bool → Bool → String → String
squeeze_from started pending String.[] = String.[]
squeeze_from started pending (String.◌∷◌ c s) =
    if is_space c
    then squeeze_from started true s
    else if started && pending
    then " " +++ String.◌∷◌ c (squeeze_from true false s)
    else String.◌∷◌ c (squeeze_from true false s)

unfoldable pub squeeze : String → String
unfolding squeeze_from is_space
squeeze s = squeeze_from false false s

-- `s == t` on texts.
abbrev pub text_eq : String → String → Bool
text_eq s t = str_eq s t

-- `s <= t` on texts, by code points.
abbrev pub text_le : String → String → Bool
text_le s t = is_le (compare s t)

pub text_eq_iff : (s t : String) → (text_eq s t ≡ true) ↔ (s ≡ t)
text_eq_iff s t = eq_iff s t

pub text_eq_refl : (s : String) → text_eq s s ≡ true
text_eq_refl s = (eq_iff s s).1 refl

pub text_eq_comm : (s t : String) → text_eq s t ≡ text_eq t s
text_eq_comm s t = ground (arith, eq_iff s t, eq_iff t s)

pub text_length-take : (n : ℕ) (s : String) → text_length (text_take n s) ≤ n
unfolding text_length text_take
text_length-take zero s = omega arith
text_length-take (suc n) String.[] = omega arith
text_length-take (suc n) (String.◌∷◌ c s) = omega (arith, text_length-take n s)

-- A cut text that fits is the text.
pub text_take-of_le : (n : ℕ) (s : String) → text_length s ≤ n → text_take n s ≡ s
unfolding text_length text_take
text_take-of_le zero String.[] h = refl
text_take-of_le zero (String.◌∷◌ c s) h = absurd (omega arith)
text_take-of_le (suc n) String.[] h = refl
text_take-of_le (suc n) (String.◌∷◌ c s) h = ap (String.◌∷◌ c) (text_take-of_le n s (omega arith))

rstrip-nonempty :
    (c : Char) (s : String) → is_space c ≡ false → is_empty (rstrip (String.◌∷◌ c s)) ≡ false
unfolding rstrip
rstrip-nonempty c s h = ground (arith, h)

strip-starts : (c : Char) (s : String) → is_space c ≡ false → is_blank (String.◌∷◌ c s) ≡ false
unfolding strip lstrip
strip-starts c s h = rw h (rstrip-nonempty c s h)

-- A text that is stripped is stripped for good: if anything is left of it, that is not blank.
pub strip-is_blank : (s : String) → is_empty (strip s) ≡ false → is_blank (strip s) ≡ false
unfolding strip lstrip rstrip
strip-is_blank String.[] h = absurd (ground (arith, h))
strip-is_blank (String.◌∷◌ c s) h = elim (Bool-cases (is_space c)) [
  | inl e ↦ rw e (strip-is_blank s (rw e at h))
  | inr e ↦ rw e rw e (strip-starts c (rstrip s) e)
]

strip_spaces : strip "  a b \n" ≡ "a b"
unfolding strip
strip_spaces = refl

squeeze_spaces : squeeze "  a   b \n" ≡ "a b"
unfolding squeeze
squeeze_spaces = refl

join_commas : join ", " ("a" ∷ "b" ∷ "c" ∷ []) ≡ "a, b, c"
unfolding join
join_commas = refl
