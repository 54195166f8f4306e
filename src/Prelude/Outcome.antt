-- ===== src/Prelude/Outcome.antt =====
-- Go's `(value, error)` results: a value or the text of an error.
use Prim.Native.String
use Prim.Native.String.{String}
use mathlib.Core.Path.{◌≡◌, refl}
use mathlib.Core.Bool.{Bool, true, false}
use mathlib.Core.Logic.{◌⊎◌, inl, inr}
use native.Mathlib.Omega.{arith}
use mathlib.Core.Option.{Option, none, some}

pub data Result {ℓ} (Value : Type ℓ) : Type ℓ where
  err : (message : String) → Result Value
  ok : (value : Value) → Result Value

module _ {ℓ} {Value : Type ℓ} where
  abbrev pub is_ok : Result Value → Bool
  is_ok (err _) = false
  is_ok (ok _) = true

  -- a lookup with `ok` false, or a nil, as an error
  abbrev pub or_err : Option Value → String → Result Value
  or_err found message = elim found [ some value ↦ ok value | none ↦ err message ]

  pub or_err-eq-ok :
      (found : Option Value) (message : String) {value : Value}
      → or_err found message ≡ ok value
      → found ≡ some value
  or_err-eq-ok (some _) message h = ground arith
  or_err-eq-ok none message h = cc

  pub Result-cases :
      (r : Result Value)
      → ((value : Value) × (r ≡ ok value)) ⊎ ((message : String) × (r ≡ err message))
  Result-cases (err message) = inr (message, refl)
  Result-cases (ok value) = inl (value, refl)

-- `if !test { return errors.New(message) }`
abbrev pub guard : Bool → String → Result (Unit {0})
guard test message = elim test [ false ↦ err message | true ↦ ok tt ]

module _ {ℓ κ} {Value : Type ℓ} {Next : Type κ} where
  infixl 5 ◌>>=◌
  -- a step, and the steps after it if it returned no error
  abbrev pub ◌>>=◌ : Result Value → (Value → Result Next) → Result Next
  err message >>= steps = err message
  ok value >>= steps = steps value

  -- a chain that ends well has passed its first step
  pub >>=-eq-ok :
      (step : Result Value) (steps : Value → Result Next) {last : Next}
      → (step >>= steps) ≡ ok last
      → (value : Value) × (step ≡ ok value) × (steps value ≡ ok last)
  >>=-eq-ok (err _) steps ended = cc
  >>=-eq-ok (ok value) steps ended = (value, refl, ended)

infixl 5 ◌>>◌
abbrev pub ◌>>◌ {κ} : {Next : Type κ} → Result (Unit {0}) → Result Next → Result Next
step >> rest = step >>= λ _. rest

-- `fmt.Errorf` with one verb: the text before it, the value, the text after it
abbrev pub errorf : String → String → String → String
errorf before value after = String.◌++◌ before (String.◌++◌ value after)
