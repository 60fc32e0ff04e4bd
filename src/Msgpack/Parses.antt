-- ===== src/Msgpack/Parses.antt =====
-- One rule for each way in which packed bytes make up an object. `Parses d bs v rest` says that the
-- bytes `bs` are the object `v`, nested at most `d` deep, followed by `rest`.
use rbkit.Prelude.{
  ℕ, suc, ◌^◌, ◌<◌, ◌≡◌, refl, ap, ◌∙◌, some, List, [], ◌∷◌, ◌++◌, length, ℤ, pos, Within,
  append_assoc,
}
use rbkit.Msgpack.{
  Call, Msgpack, pack_nil, pack_int, pack_unsigned, pack_double, pack_str, pack_str_body,
  pack_array, pack_map,
}
use rbkit.Msgpack.Value.{Value, Values, Pairs, no_items, item, no_pairs, pair}
use rbkit.Msgpack.Reader.{wire, read, read_items, read_pairs}

module _ ⦃m : Msgpack⦄ where
  open m use {
    Double, bytes, next, next-nil, next-int, next-unsigned, next-double, next-str, next-array,
    next-map,
  }

  -- Packing after `cs` is packing onto the bytes of `cs`.
  pub wire-append :
      (cs ds : List (Call Double)) (rest : List ℕ) → wire (cs ++ ds) rest ≡ wire cs (wire ds rest)
  unfolding wire
  wire-append [] ds rest = refl
  wire-append (c ∷ cs) ds rest = ap (◌++◌ (bytes c)) (wire-append cs ds rest)

  pub wire_rest :
      (cs : List (Call Double)) (bs rest : List ℕ) → wire cs bs ++ rest ≡ wire cs (bs ++ rest)
  unfolding wire
  wire_rest [] bs rest = refl
  wire_rest (c ∷ cs) bs rest =
      append_assoc (bytes c) (wire cs bs) rest ∙ ap (◌++◌ (bytes c)) (wire_rest cs bs rest)

  pub record Parses (d : ℕ) (bs : List ℕ) (v : Value Double) (rest : List ℕ) : Type 0 where
    pub at : read d bs ≡ some (v, rest)

  pub record ParsesItems (d n : ℕ) (bs : List ℕ) (vs : Values Double) (rest : List ℕ) : Type 0 where
    pub at : read_items (read d) n bs ≡ some (vs, rest)

  pub record ParsesPairs (d n : ℕ) (bs : List ℕ) (ps : Pairs Double) (rest : List ℕ) : Type 0 where
    pub at : read_pairs (read d) n bs ≡ some (ps, rest)

  -- The bytes of these calls are the object `v`, whatever follows.
  abbrev pub Packs : ℕ → List (Call Double) → Value Double → Type 0
  Packs d cs v = (rest : List ℕ) → Parses d (wire cs rest) v rest

  module _ {d : ℕ} (cs : List (Call Double)) (rest : List ℕ) where
    pub Parses-nil : Parses (suc d) (wire (pack_nil ∷ cs) rest) Value.nil (wire cs rest)
    unfolding wire read
    Parses-nil = record { at = rw (next-nil (wire cs rest)) }

    pub Parses-int :
        {z : ℤ}
        → Within (2 ^ 63) z
        → Parses (suc d) (wire (pack_int z ∷ cs) rest) (Value.int z) (wire cs rest)
    unfolding wire read
    Parses-int {z} h = record { at = rw (next-int z (wire cs rest) h) }

    pub Parses-unsigned :
        {n : ℕ}
        → n < 2 ^ 64
        → Parses (suc d) (wire (pack_unsigned n ∷ cs) rest) (Value.int (pos n)) (wire cs rest)
    unfolding wire read
    Parses-unsigned {n} h = record { at = rw (next-unsigned n (wire cs rest) h) }

    pub Parses-double :
        {x : Double}
        → Parses (suc d) (wire (pack_double x ∷ cs) rest) (Value.double x) (wire cs rest)
    unfolding wire read
    Parses-double {x} = record { at = rw (next-double x (wire cs rest)) }

    pub Parses-str :
        {xs : List ℕ}
        → length xs < 2 ^ 32
        → Parses
            (suc d)
            (wire (pack_str (length xs) ∷ pack_str_body xs ∷ cs) rest)
            (Value.str xs)
            (wire cs rest)
    unfolding wire read
    Parses-str {xs} h = record { at = rw (next-str xs (wire cs rest) h) }

    pub Parses-array :
        {n : ℕ} {vs : Values Double} {rest' : List ℕ}
        → n < 2 ^ 32
        → ParsesItems d n (wire cs rest) vs rest'
        → Parses (suc d) (wire (pack_array n ∷ cs) rest) (Value.array vs) rest'
    unfolding wire read
    Parses-array {n} h p = record { at = rw (next-array n (wire cs rest) h, p.at) }

    pub Parses-map :
        {n : ℕ} {ps : Pairs Double} {rest' : List ℕ}
        → n < 2 ^ 32
        → ParsesPairs d n (wire cs rest) ps rest'
        → Parses (suc d) (wire (pack_map n ∷ cs) rest) (Value.map ps) rest'
    unfolding wire read
    Parses-map {n} h p = record { at = rw (next-map n (wire cs rest) h, p.at) }

  module _ {d : ℕ} {bs : List ℕ} where
    pub ParsesItems-end : ParsesItems d 0 bs no_items bs
    unfolding read_items
    ParsesItems-end = record { at = refl }

    pub ParsesPairs-end : ParsesPairs d 0 bs no_pairs bs
    unfolding read_pairs
    ParsesPairs-end = record { at = refl }

    pub ParsesItems-item :
        {n : ℕ} {v : Value Double} {vs : Values Double} {bs₁ rest : List ℕ}
        → Parses d bs v bs₁
        → ParsesItems d n bs₁ vs rest
        → ParsesItems d (suc n) bs (item v vs) rest
    unfolding read_items
    ParsesItems-item p q = record { at = rw (p.at, q.at) }

    pub ParsesPairs-pair :
        {n : ℕ} {k v : Value Double} {ps : Pairs Double} {bs₁ bs₂ rest : List ℕ}
        → Parses d bs k bs₁
        → Parses d bs₁ v bs₂
        → ParsesPairs d n bs₂ ps rest
        → ParsesPairs d (suc n) bs (pair k v ps) rest
    unfolding read_pairs
    ParsesPairs-pair p q r = record { at = rw (p.at, q.at, r.at) }

  -- The ends of calls that have no others behind them.
  module _ {d : ℕ} (rest : List ℕ) where
    pub ParsesItems-done : ParsesItems d 0 (wire [] rest) no_items rest
    unfolding wire
    ParsesItems-done = ParsesItems-end

    pub ParsesPairs-done : ParsesPairs d 0 (wire [] rest) no_pairs rest
    unfolding wire
    ParsesPairs-done = ParsesPairs-end

    pub ParsesItems-raw :
        {n : ℕ} {vs : Values Double} {rest' : List ℕ}
        → ParsesItems d n rest vs rest'
        → ParsesItems d n (wire [] rest) vs rest'
    unfolding wire
    ParsesItems-raw p = p
