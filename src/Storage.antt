-- ===== src/Storage.antt =====
-- What the stores keep on disk: the value that `json.loads` gives for the file's text, and the
-- conversions that the code makes of it. The text form of a JSON value is the standard library's;
-- a store reads the value back that it wrote.
use autonomous_ai_scout.Base.{
  String, Bool, Option, none, some, Result, ok, err, ◌>>=◌, ℤ, text_eq, if◌then◌else◌, key_error,
  List, [], ◌∷◌, String,
}

mutual
  pub data Json : Type 0 where
    null : Json
    flag : Bool → Json
    int : ℤ → Json
    -- a number with a fraction or an exponent, by its text
    real : String → Json
    text : String → Json
    array : Elements → Json
    object : Fields → Json

  pub data Elements : Type 0 where
    nil : Elements
    cons : Json → Elements → Elements

  pub data Fields : Type 0 where
    end : Fields
    field : String → Json → Fields → Fields

-- `path.exists()` and `json.loads(path.read_text())`: no file, a file that raises `OSError` or
-- `JSONDecodeError`, or a value.
pub data File : Type 0 where
  missing unreadable : File
  content : Json → File

-- `str(value)` of what is no text and `int(value)` of what is no integer, as the interpreter
-- computes them.
pub record Conversions : Type 0 where
  pub render : Json → String
  pub parse_int : Json → Result ℤ

unfoldable pub find_field : String → Fields → Option Json
find_field k end = none
find_field k (field j v rest) = if text_eq j k then some v else find_field k rest

-- `item[k]`
unfoldable pub require_field : String → Fields → Result Json
unfolding find_field
require_field k fields = elim (find_field k fields) [ none ↦ err (key_error k) | some v ↦ ok v ]

module _ (convert : Conversions) where
  -- `str(value)`
  unfoldable pub text_of : Json → String
  text_of (text s) = s
  text_of v = convert.render v

  -- `int(value)`
  unfoldable pub int_of : Json → Result ℤ
  int_of (int n) = ok n
  int_of v = convert.parse_int v

  -- `str(item[k])`
  unfoldable pub text_field : String → Fields → Result String
  unfolding text_of require_field
  text_field k fields = do v ← require_field k fields; ok (text_of v)

  -- `str(item.get(k, default))`
  unfoldable pub text_field_or : String → String → Fields → String
  unfolding text_of find_field
  text_field_or k default fields = elim (find_field k fields) [
    | none ↦ default
    | some v ↦ text_of v
  ]

  -- `int(item.get(k, default))`
  unfoldable pub int_field_or : String → ℤ → Fields → Result ℤ
  unfolding int_of find_field
  int_field_or k default fields = elim (find_field k fields) [
    | none ↦ ok default
    | some v ↦ int_of v
  ]

-- A list of values, each written by `encode`.
unfoldable pub encode_all {ℓ} : {A : Type ℓ} → (A → Json) → List A → Elements
encode_all encode [] = nil
encode_all encode (x ∷ xs) = cons (encode x) (encode_all encode xs)
