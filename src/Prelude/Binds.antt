-- ===== src/Prelude/Binds.antt =====
-- A chain of outcomes that returns.
use mathlib.Core.Path.{◌≡◌, refl, ap}
use rbkit.Prelude.Outcomes.{Outcome, ok, raised, fault, out_of_fuel, ◌>>=◌}

unfoldable ok_or {ℓ} : {A : Type ℓ} → A → Outcome A → A
ok_or d (ok a) = a
ok_or d (raised x) = d
ok_or d fault = d
ok_or d out_of_fuel = d

pub ok_injective {ℓ} : {A : Type ℓ} {a b : A} → ok a ≡ ok b → a ≡ b
unfolding ok_or
ok_injective {a} e = ap (ok_or a) e

-- A chain that returns has a first call that returns, and so does what follows it.
pub bind-ok {ℓ κ} :
    {A : Type ℓ} {B : Type κ} (o : Outcome A) (f : A → Outcome B) (b : B)
    → (o >>= f) ≡ ok b
    → (a : A) × (o ≡ ok a) × (f a ≡ ok b)
bind-ok (ok a) f b e = (a, refl, e)
bind-ok (raised x) f b e = cc e
bind-ok fault f b e = cc e
bind-ok out_of_fuel f b e = cc e

pub ok-bind {ℓ κ} :
    {A : Type ℓ} {B : Type κ} (o : Outcome A) (f : A → Outcome B) (a : A)
    → o ≡ ok a
    → (o >>= f) ≡ f a
ok-bind o f a e = ap (λ o'. o' >>= f) e
