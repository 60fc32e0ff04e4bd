-- ===== src/Prelude/Outcomes.antt =====
-- What a call of a C function comes to.

-- A Ruby exception that the extension raises.
pub data Error : Type 0 where
  not_implemented argument_error range_error type_error no_method_error : Error

-- `fault` is undefined behaviour: a bad pointer, a read of indeterminate memory, a wrong cast.
-- `out_of_fuel` means that a loop is still running when its fuel is spent.
pub data Outcome {ℓ} (A : Type ℓ) : Type ℓ where
  ok : A → Outcome A
  raised : Error → Outcome A
  fault : Outcome A
  out_of_fuel : Outcome A

infixl 5 ◌>>=◌
abbrev pub ◌>>=◌ {ℓ κ} : {A : Type ℓ} {B : Type κ} → Outcome A → (A → Outcome B) → Outcome B
ok a >>= f = f a
raised e >>= f = raised e
fault >>= f = fault
out_of_fuel >>= f = out_of_fuel
