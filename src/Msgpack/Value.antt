-- ===== src/Msgpack/Value.antt =====
-- Msgpack objects as a client has them after unpacking.
use rbkit.Prelude.{ℕ, List, ℤ, [], ◌∷◌}

mutual
  pub data Value (D : Type 0) : Type 0 where
    nil : Value D
    int : ℤ → Value D
    double : D → Value D
    str : List ℕ → Value D
    array : Values D → Value D
    map : Pairs D → Value D

  pub data Values (D : Type 0) : Type 0 where
    no_items : Values D
    item : Value D → Values D → Values D

  pub data Pairs (D : Type 0) : Type 0 where
    no_pairs : Pairs D
    pair : Value D → Value D → Pairs D → Pairs D

module _ {D : Type 0} where
  abbrev pub values : List (Value D) → Values D
  values [] = no_items
  values (v ∷ vs) = item v (values vs)

  abbrev pub pairs : List (Value D × Value D) → Pairs D
  pairs [] = no_pairs
  pairs ((k, v) ∷ ps) = pair k v (pairs ps)
