-- ===== src/Base/Errors.antt =====
-- Python's exceptions as values. A method that may raise returns a `Result`.
use Prim.Native.String.{String}
use mathlib.Core.Path.{◌≡◌, refl}
use mathlib.Core.Bool.{Bool, true, false}

-- The exceptions that the modelled code raises, each with its message.
pub data Error : Type 0 where
  value_error key_error type_error permission_error runtime_error os_error : String → Error

-- A call that raised, or one that returned.
pub data Result {ℓ} (Value : Type ℓ) : Type ℓ where
  err : (raised : Error) → Result Value
  ok : (returned : Value) → Result Value

infixl 5 ◌>>=◌ ◌>>◌
abbrev pub ◌>>=◌ {ℓ κ} :
    {Value : Type ℓ} {Next : Type κ}
    → (call : Result Value) → (next : Value → Result Next) → Result Next
err raised >>= next = err raised
ok returned >>= next = next returned

-- The same where the first call returns `None`.
abbrev pub ◌>>◌ {ℓ} :
    {Next : Type ℓ} → (call : Result (Unit {0})) → (rest : Result Next) → Result Next
call >> rest = call >>= λ _. rest

-- `if test: raise e`
abbrev pub raise_if : Bool → Error → Result (Unit {0})
raise_if true e = err e
raise_if false e = ok tt

-- A chain of calls returns only if each of its parts does.
pub >>=-eq-ok {ℓ κ} :
    {Value : Type ℓ} {Next : Type κ} (call : Result Value) (next : Value → Result Next) {out : Next}
    → (call >>= next) ≡ ok out
    → (returned : Value) × (call ≡ ok returned) × (next returned ≡ ok out)
>>=-eq-ok (err raised) next h = cc
>>=-eq-ok (ok returned) next h = (returned, refl, h)

pub >>-eq-ok {ℓ} :
    {Next : Type ℓ} (call : Result (Unit {0})) (rest : Result Next) {out : Next}
    → (call >> rest) ≡ ok out
    → (call ≡ ok tt) × (rest ≡ ok out)
>>-eq-ok (err raised) rest h = cc
>>-eq-ok (ok tt) rest h = (refl, h)

pub raise_if-eq-ok : (test : Bool) (e : Error) → raise_if test e ≡ ok tt → test ≡ false
raise_if-eq-ok true e h = cc
raise_if-eq-ok false e h = refl

pub ok-injective {ℓ} : {Value : Type ℓ} {a b : Value} → ok a ≡ ok b → a ≡ b
ok-injective same = cc

-- A value that was not raised is the one that was computed.
pub ok_unique {ℓ} : {A : Type ℓ} {r : Result A} {a b : A} → r ≡ ok a → r ≡ ok b → a ≡ b
ok_unique p q = cc

pub err-ne-ok {ℓ} : {A : Type ℓ} {e : Error} {a : A} → err e ≡ ok a → ⊥
err-ne-ok h = cc
