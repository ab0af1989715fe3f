-- ===== src/Base/Raising.antt =====
-- A call that returns a value or raises an exception, which is named by its message or code.
use mathlib.Core.Path.{◌≡◌, refl}
use Prim.Native.String.{String}
use mathlib.Core.Bool.{Bool, true, false}

pub data Outcome {ℓ} (A : Type ℓ) : Type ℓ where
  returned : A → Outcome A
  raised : String → Outcome A

infixl 5 ◌>>=◌ ◌>>◌
abbrev pub ◌>>=◌ {ℓ κ} : {A : Type ℓ} {B : Type κ} → Outcome A → (A → Outcome B) → Outcome B
returned a >>= f = f a
raised e >>= f = raised e

abbrev pub ◌>>◌ {ℓ} : {B : Type ℓ} → Outcome (Unit {0}) → Outcome B → Outcome B
m >> k = m >>= λ _. k

-- `if not test: raise ...`
abbrev pub require : Bool → String → Outcome (Unit {0})
require true e = returned tt
require false e = raised e

-- What a check that was passed has tested.
pub require-passed {ℓ} :
    {B : Type ℓ} (test : Bool) (e : String) (k : Outcome B) {b : B}
    → (require test e >> k) ≡ returned b
    → (test ≡ true) × (k ≡ returned b)
require-passed true e k h = (refl, h)
require-passed false e k h = cc
