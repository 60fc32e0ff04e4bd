-- ===== src/Msgpack/Reader.antt =====
-- The bytes of a sequence of packer calls, and a reader of whole objects over the unpacker.
use rbkit.Prelude.{ℕ, zero, suc, Option, none, some, List, [], ◌∷◌, ◌++◌}
use rbkit.Msgpack.{Call, Item, Msgpack}
use rbkit.Msgpack.Value.{Value, Values, Pairs, no_items, item, no_pairs, pair}

abbrev and_then {ℓ κ} : {A : Type ℓ} {B : Type κ} → Option A → (A → Option B) → Option B
and_then none f = none
and_then (some a) f = f a

module _ ⦃m : Msgpack⦄ where
  open m use {Double, bytes, next}

  -- The buffer's bytes after the calls, and then `rest`.
  unfoldable pub wire : List (Call Double) → List ℕ → List ℕ
  wire [] rest = rest
  wire (c ∷ cs) rest = bytes c ++ wire cs rest

  -- `n` objects by the reader `r`.
  unfoldable pub read_items :
      (List ℕ → Option (Value Double × List ℕ)) → ℕ → List ℕ → Option (Values Double × List ℕ)
  read_items r zero bs = some (no_items, bs)
  read_items r (suc n) bs =
      and_then (r bs) λ (v, bs₁). and_then (read_items r n bs₁) λ (vs, bs₂). some (item v vs, bs₂)

  -- `n` pairs of a key and a value.
  unfoldable pub read_pairs :
      (List ℕ → Option (Value Double × List ℕ)) → ℕ → List ℕ → Option (Pairs Double × List ℕ)
  read_pairs r zero bs = some (no_pairs, bs)
  read_pairs r (suc n) bs = and_then (r bs) λ (k, bs₁).
      and_then (r bs₁)
        λ (v, bs₂). and_then (read_pairs r n bs₂) λ (ps, bs₃). some (pair k v ps, bs₃)

  read_rest :
      (List ℕ → Option (Value Double × List ℕ))
      → Item Double
      → List ℕ
      → Option (Value Double × List ℕ)
  read_rest r Item.nil bs = some (Value.nil, bs)
  read_rest r (Item.int z) bs = some (Value.int z, bs)
  read_rest r (Item.double x) bs = some (Value.double x, bs)
  read_rest r (Item.str xs) bs = some (Value.str xs, bs)
  read_rest r (Item.array n) bs =
      and_then (read_items r n bs) λ (vs, bs'). some (Value.array vs, bs')
  read_rest r (Item.map n) bs = and_then (read_pairs r n bs) λ (ps, bs'). some (Value.map ps, bs')

  -- One object, nested at most `depth` deep, and the bytes behind it.
  unfoldable pub read : ℕ → List ℕ → Option (Value Double × List ℕ)
  unfolding read_items read_pairs read_rest
  read zero bs = none
  read (suc depth) bs = and_then (next bs) λ (i, bs'). read_rest (read depth) i bs'
