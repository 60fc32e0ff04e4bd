-- ===== src/Allocation/Assoc.antt =====
-- A table that keeps the promises of StTable: a list of entries with distinct keys.
use rbkit.Prelude.{
  ℕ, ◌+◌, ◌≡◌, ◌↔◌, refl, sym, ap, ◌∙◌, inl, inr, Bool, true, false, Option, none, some, List, [],
  ◌∷◌, All, Bool-cases, if◌then◌else◌, arith,
}
use rbkit.Allocation.Table.{StTable, total, weight}

module _ {K : Type 0} (same : K → K → Bool)
    (same_iff : (k j : K) → (same k j ≡ true) ↔ (k ≡ j)) where
  other_key : (k k' j : K) → same k j ≡ true → same k' j ≡ false → same k' k ≡ false
  other_key k k' j e n = elim (Bool-cases (same k' k)) [
    | inl e' ↦
        let p = (same_iff k j).0 e in
        let q = (same_iff k' k).0 e' in cc ((same_iff k' j).1 (q ∙ p), n)
    | inr n' ↦ n'
  ]

module _ {K V : Type 0} (same : K → K → Bool)
    (same_iff : (k j : K) → (same k j ≡ true) ↔ (k ≡ j)) where
  abbrev look : List (K × V) → K → Option V
  look [] j = none
  look ((k, v) ∷ es) j = if same k j then some v else look es j

  abbrev drop : List (K × V) → K → List (K × V)
  drop [] j = []
  drop ((k, v) ∷ es) j = if same k j then es else (k, v) ∷ drop es j

  abbrev Distinct : List (K × V) → Type 0
  Distinct [] = Unit
  Distinct ((k, v) ∷ es) = (look es k ≡ none) × Distinct es

  -- A key of which nothing is known is none of the known ones.
  not_found :
      (es : List (K × V)) (k j : K) (v : V)
      → look es k ≡ none
      → look es j ≡ some v
      → same k j ≡ false
  not_found es k j v f g = elim (Bool-cases (same k j)) [
    | inl e ↦ cc ((same_iff k j).0 e, f, g)
    | inr n ↦ n
  ]

  pub look-drop :
      (es : List (K × V))
      → Distinct es
      → (k j : K) → look (drop es k) j ≡ (if same k j then none else look es j)
  look-drop [] d k j = ground arith
  look-drop ((k', v) ∷ es) (f, d) k j = elim (Bool-cases (same k' k)) [
    | inl e ↦
        let q : k' ≡ k = (same_iff k' k).0 e in
        elim (Bool-cases (same k j)) [
          | inl e' ↦ rw (e, e') (ap (look es) (sym ((same_iff k j).0 e') ∙ sym q) ∙ f)
          | inr n' ↦ rw (e, n', q, n') refl
        ]
    | inr n ↦ elim (Bool-cases (same k j)) [
      | inl e' ↦
          let m : same k' j ≡ false = rw ((same_iff k j).0 e') at n in
          rw (n, m, e') (rw (look-drop es d k j, e') refl)
      | inr n' ↦ rw (n, n', look-drop es d k j, n') refl
    ]
  ]

  pub drop-Distinct : (es : List (K × V)) → Distinct es → (k : K) → Distinct (drop es k)
  drop-Distinct [] d k = tt
  drop-Distinct ((k', v) ∷ es) (f, d) k = elim (Bool-cases (same k' k)) [
    | inl e ↦ rw e d
    | inr n ↦ rw n (rw (look-drop es d k k') (ground (arith, f)), drop-Distinct es d k)
  ]

  pub total-drop :
      (w : K → V → ℕ) (es : List (K × V)) (k : K)
      → total w (drop es k) + weight w k (look es k) ≡ total w es
  total-drop w [] k = refl
  total-drop w ((k', v) ∷ es) k = elim (Bool-cases (same k' k)) [
    | inl e ↦ rw (e, (same_iff k' k).0 e) (omega arith)
    | inr n ↦ rw n (omega (arith, total-drop w es k))
  ]

  abbrev Known : List (K × V) → List (K × V) → Type 0
  Known all es = All (λ (e : K × V). look all e.0 ≡ some e.1) es

  Known-more :
      (all es : List (K × V)) (k : K) (v : V)
      → look all k ≡ none
      → Known all es
      → Known ((k, v) ∷ all) es
  Known-more all [] k v f h = tt
  Known-more all ((j, u) ∷ es) k v f (g, h) =
      (rw (not_found all k j u f g) g, Known-more all es k v f h)

  pub entries-look : (es : List (K × V)) → Distinct es → Known es es
  entries-look [] d = tt
  entries-look ((k, v) ∷ es) (f, d) =
      (rw ((same_iff k k).1 refl) refl, Known-more es es k v f (entries-look es d))

  pub dropped : (es : List (K × V)) → Distinct es → (k : K) → look (drop es k) k ≡ none
  dropped es d k = rw (look-drop es d k k, (same_iff k k).1 refl) refl

  pub look-insert :
      (t : (es : List (K × V)) × Distinct es) (k : K) (v : V) (j : K)
      → look ((k, v) ∷ drop t.0 k) j ≡ (if same k j then some v else look t.0 j)
  look-insert t k v j = elim (Bool-cases (same k j)) [
    | inl e ↦ rw e refl
    | inr n ↦ rw n (rw (look-drop t.0 t.1 k j, n) refl)
  ]

  -- The table, with the proof that its keys are distinct.
  abbrev pub assoc_table : StTable K V
  assoc_table = record {
    Table = (es : List (K × V)) × Distinct es;
    empty = ([], tt);
    find = λ t j. look t.0 j;
    insert = λ t k v. ((k, v) ∷ drop t.0 k, (dropped t.0 t.1 k, drop-Distinct t.0 t.1 k));
    remove = λ t k. (drop t.0 k, drop-Distinct t.0 t.1 k);
    entries = λ t. t.0;
    same = same;
    same_iff = same_iff;
    find-empty = λ j. refl;
    find-insert = look-insert;
    find-remove = λ t k j. look-drop t.0 t.1 k j;
    entries-empty = refl;
    total-insert = λ w t k v. omega (arith, total-drop w t.0 k);
    total-remove = λ w t k. total-drop w t.0 k;
    entries-find = λ t. entries-look t.0 t.1;
  }
