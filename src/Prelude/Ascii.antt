-- ===== src/Prelude/Ascii.antt =====
-- Bytes of ASCII texts.
use Prim.Native.Nat.{ℕ}
use Prim.Native.String.{String, [] as empty, ◌∷◌ as ◌∷ˢ◌}
use Prim.Native.Char.{code}
use mathlib.Core.List.{List, [], ◌∷◌}

abbrev pub ascii : String → List ℕ
ascii empty = []
ascii (c ∷ˢ s) = code c ∷ ascii s
