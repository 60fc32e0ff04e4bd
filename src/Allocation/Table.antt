-- ===== src/Allocation/Table.antt =====
-- Ruby's `st_table` (st.h) as an interface: `find` is st_lookup, `insert` is st_insert on the value of a
-- key, `remove` is st_delete, `empty` is a table after st_clear, and `entries` are the entries in the
-- order in which st_foreach visits them.
use rbkit.Prelude.{
  ℕ, ◌+◌, ◌*◌, length, ◌≤◌, ◌≡◌, ◌↔◌, refl, sym, ◌∙◌, inl, inr, ◌==◌, ==_iff, Bool-cases, Bool,
  true, Option, none, some, List, [], ◌∷◌, All, if◌then◌else◌, arith,
}
use native.Mathlib.Nat.{mul-suc}

module _ {K V : Type 0} where
  -- The sum of a weight over entries.
  abbrev pub total : (K → V → ℕ) → List (K × V) → ℕ
  total w [] = 0
  total w ((k, v) ∷ es) = w k v + total w es

  abbrev pub weight : (K → V → ℕ) → K → Option V → ℕ
  weight w k none = 0
  weight w k (some v) = w k v

  pub total_le :
      (n : ℕ) (w : K → V → ℕ) (es : List (K × V))
      → ((k : K) (v : V) → w k v ≤ n)
      → total w es ≤ n * length es
  total_le n w [] h = omega arith
  total_le n w ((k, v) ∷ es) h = omega (arith, h k v, total_le n w es h, mul-suc n (length es))

-- The documented behaviour: a key has one value at most, st_insert replaces it or adds an entry, and
-- st_foreach visits every entry once.
pub record StTable (K V : Type 0) : Type 1 where
  pub Table : Type 0
  pub empty : Table
  pub find : Table → K → Option V
  pub insert : Table → K → V → Table
  pub remove : Table → K → Table
  pub entries : Table → List (K × V)
  pub same : K → K → Bool
  pub same_iff : (k j : K) → (same k j ≡ true) ↔ (k ≡ j)
  pub find-empty : (j : K) → find empty j ≡ none
  pub find-insert :
      (t : Table) (k : K) (v : V) (j : K)
      → find (insert t k v) j ≡ (if same k j then some v else find t j)
  pub find-remove :
      (t : Table) (k j : K) → find (remove t k) j ≡ (if same k j then none else find t j)
  pub entries-empty : entries empty ≡ []
  pub total-insert :
      (w : K → V → ℕ) (t : Table) (k : K) (v : V)
      → total w (entries (insert t k v)) + weight w k (find t k) ≡ total w (entries t) + w k v
  pub total-remove :
      (w : K → V → ℕ) (t : Table) (k : K)
      → total w (entries (remove t k)) + weight w k (find t k) ≡ total w (entries t)
  pub entries-find : (t : Table) → All (λ (e : K × V). find t e.0 ≡ some e.1) (entries t)

-- `same` as the test of two numbers.
pub same_test : {V : Type 0} → (t : StTable ℕ V) (k j : ℕ) → t.same k j ≡ (j == k)
same_test t k j = elim (Bool-cases (j == k)) [
  | inl eq ↦ (t.same_iff k j).1 (sym ((==_iff j k).0 eq)) ∙ sym eq
  | inr ne ↦ elim (Bool-cases (t.same k j)) [
    | inl eq ↦ let q : k ≡ j = (t.same_iff k j).0 eq in absurd (ground (arith, q, ne))
    | inr n ↦ n ∙ sym ne
  ]
]

module _ {K V : Type 0} where
  total_one : (es : List (K × V)) → total (λ k v. 1) es ≡ length es
  total_one [] = refl
  total_one (e ∷ es) = omega (arith, total_one es)

  pub length-insert :
      (t : StTable K V) (s : t.Table) (k : K) (v : V)
      → length (t.entries (t.insert s k v)) ≤ length (t.entries s) + 1
  length-insert t s k v = omega (
    arith,
    t.total-insert (λ k v. 1) s k v,
    total_one (t.entries s),
    total_one (t.entries (t.insert s k v)),
  )

  pub length-remove :
      (t : StTable K V) (s : t.Table) (k : K)
      → length (t.entries (t.remove s k)) ≤ length (t.entries s)
  length-remove t s k = omega (
    arith,
    t.total-remove (λ k v. 1) s k,
    total_one (t.entries s),
    total_one (t.entries (t.remove s k)),
  )
