-- ===== src/Prelude.antt =====
-- Names that every other file shares: those of the libraries, tests on numbers, lists measured by
-- native numbers, integers, and the outcome of a C function.
mod Tests
mod Lists
mod Outcomes
mod Binds
mod Int
mod Fixnums
mod Ascii
pub use Tests.*
pub use Lists.*
pub use Outcomes.*
pub use Binds.*
pub use Int.*
unfoldable pub use Fixnums.*
pub use Ascii.*
pub use Prim.Native.Nat.{ℕ, zero, suc, ◌+◌, ◌-◌, ◌*◌, ◌/◌, ◌%◌, ◌^◌, ◌≤◌, ◌<◌, min}
pub use mathlib.Core.Path.{◌≡◌, refl, sym, ap, subst, ◌∙◌, ◌≡⟨◌⟩◌, ◌∎}
pub use mathlib.Core.Logic.{◌≢◌, ◌⊎◌, inl, inr, ◌↔◌}
pub use mathlib.Core.Bool.{Bool, true, false, ◌&&◌, ◌||◌, not}
pub use mathlib.Core.Option.{Option, none, some}
pub use mathlib.Core.List.{List, [], ◌∷◌, ◌++◌, map, append-nil, append_assoc}
pub use native.Mathlib.Omega.{arith}
