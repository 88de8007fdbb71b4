-- ===== src/Prelude/Outcome.antt =====
-- The result of C code: a value, or a fault where the program aborts or its behaviour is undefined.
use mathlib.Core.Bool.{Bool, true, false}

-- A failed `assert`, or an access that is not inside live memory.
pub data Fault : Type 0 where
  assertion bad_access : Fault

pub data Outcome {ℓ} (A : Type ℓ) : Type ℓ where
  done : A → Outcome A
  fault : Fault → Outcome A

infixl 5 ◌>>=◌ ◌>>◌
abbrev pub ◌>>=◌ {ℓ κ} : {A : Type ℓ} {B : Type κ} → Outcome A → (A → Outcome B) → Outcome B
done a >>= f = f a
fault e >>= f = fault e

abbrev pub ◌>>◌ {ℓ} : {B : Type ℓ} → Outcome (Unit {0}) → Outcome B → Outcome B
m >> k = m >>= λ _. k

-- `assert(b)`
abbrev pub assert : Bool → Outcome (Unit {0})
assert true = done tt
assert false = fault assertion
