-- ===== src/Common/Methods.antt =====
-- Methods that change an object and may fail: the bool and `err` of the C++ methods, with the
-- object's state after the call, on failure too.
use Prim.Native.String.{String}
use mathlib.Core.Bool.{Bool, true, false}

pub data Result {ℓ} (A : Type ℓ) : Type ℓ where
  ok : A → Result A
  err : String → Result A

abbrev pub Method : Type 0 → Type 0 → Type 0
Method S A = S → Result A × S

abbrev pub succeeded {ℓ} : {A : Type ℓ} → Result A → Bool
succeeded (ok a) = true
succeeded (err e) = false
