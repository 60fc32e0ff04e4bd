-- ===== src/Allocation/Strings/Pool.antt =====
-- The pool of shared strings: the count of each is the number of its references.
use rbkit.Prelude.{
  ℕ, ◌+◌, ◌-◌, ◌≤◌, ◌<◌, ◌≡◌, ◌≢◌, sym, ap, ◌∙◌, inl, inr, false, none, some, ◌==◌, ==_iff,
  Bool-cases, if◌then◌else◌, arith,
}
use rbkit.Event.{CString}
use rbkit.Allocation.Table.{StTable}
use rbkit.Allocation.Strings.{Shared, StringPool}

-- One reference more, and one less, to the string at `a`.
abbrev pub plus : ℕ → (ℕ → ℕ) → ℕ → ℕ
plus a refs b = if b == a then refs b + 1 else refs b

abbrev pub minus : ℕ → (ℕ → ℕ) → ℕ → ℕ
minus a refs b = if b == a then refs b - 1 else refs b

module _ ⦃t : StTable CString Shared⦄ where
  open t use {find, insert, remove, same, same_iff, find-insert, find-remove}

  -- `refs` counts the references to each address from outside of the pool.
  pub record IsCounted (p : StringPool) (refs : ℕ → ℕ) : Type 0 where
    pub null : p.heap.text_at 0 ≡ none
    pub positive : 0 < p.heap.fresh
    pub unused : (a : ℕ) → p.heap.fresh ≤ a → p.heap.text_at a ≡ none
    pub stored :
        (s : CString) (e : Shared) → find p.table s ≡ some e → p.heap.text_at e.key ≡ some s
    pub live :
        (a : ℕ) (s : CString)
        → p.heap.text_at a ≡ some s
        → find p.table s ≡ some (record { key = a; count = refs a })
    pub needed : (a : ℕ) (s : CString) → p.heap.text_at a ≡ some s → 0 < refs a
    pub dead : (a : ℕ) → p.heap.text_at a ≡ none → 0 < a → refs a ≡ 0

  pub positive_of :
      (p : StringPool) (refs : ℕ → ℕ)
      → IsCounted p refs
      → (a : ℕ) (s : CString) → p.heap.text_at a ≡ some s
      → 0 < a
  positive_of p refs c a s h = elim (Bool-cases (a == 0)) [
    | inl eq ↦ cc ((==_iff a 0).0 eq, c.null, h)
    | inr ne ↦ ground (arith, ne)
  ]

  -- Only references to addresses matter, not NULL pointers.
  pub IsCounted-same :
      (p : StringPool) (refs refs' : ℕ → ℕ)
      → ((a : ℕ) → 0 < a → refs a ≡ refs' a)
      → IsCounted p refs
      → IsCounted p refs'
  IsCounted-same p refs refs' e c = record {
    null = c.null;
    positive = c.positive;
    unused = c.unused;
    stored = c.stored;
    live = λ a s h. rw (← e a (positive_of p refs c a s h)) (c.live a s h);
    needed = λ a s h. rw (← e a (positive_of p refs c a s h)) (c.needed a s h);
    dead = λ a h pos. sym (e a pos) ∙ c.dead a h pos;
  }

  module _ (p : StringPool) (refs : ℕ → ℕ) (c : IsCounted p refs) where
    -- The key of a live string has that string's entry.
    pub entry_of :
        (key : CString) (e : Shared)
        → find p.table key ≡ some e
        → e ≡ record { key = e.key; count = refs e.key }
    entry_of key e f = cc (f, c.live e.key key (c.stored key e f))

    -- The table with another count for the string at `a`.
    abbrev pub recounted : CString → ℕ → ℕ → StringPool
    recounted key a n = record p { table = insert p.table key (record { key = a; count = n }) }

    other_key :
        (key s : CString) (e : Shared)
        → find p.table key ≡ some e
        → (a : ℕ) → p.heap.text_at a ≡ some s
        → same key s ≡ false
        → a ≢ e.key
    other_key key s e f a h ne q =
        let sk : key ≡ s = cc (q, h, c.stored key e f) in cc ((same_iff key s).1 sk, ne)

    recounted-stored :
        (key : CString) (e : Shared) (n : ℕ)
        → find p.table key ≡ some e
        → (s : CString) (e' : Shared) → find (recounted key e.key n).table s ≡ some e'
        → p.heap.text_at e'.key ≡ some s
    recounted-stored key e n f s e' h = elim (Bool-cases (same key s)) [
      | inl eq ↦
          let g = rw (find-insert p.table key (record { key = e.key; count = n }) s, eq) at h in
          cc ((same_iff key s).0 eq, c.stored key e f, g)
      | inr ne ↦
          c.stored s e'
            (rw (find-insert p.table key (record { key = e.key; count = n }) s, ne) at h)
    ]

    recounted-live :
        (key : CString) (e : Shared) (refs' : ℕ → ℕ)
        → find p.table key ≡ some e
        → ((b : ℕ) → b ≢ e.key → refs' b ≡ refs b)
        → (a : ℕ) (s : CString) → p.heap.text_at a ≡ some s
        → find (recounted key e.key (refs' e.key)).table s
          ≡ some (record { key = a; count = refs' a })
    recounted-live key e refs' f others a s h = elim (Bool-cases (same key s)) [
      | inl eq ↦
          let se : key ≡ s = (same_iff key s).0 eq in
          let ak : e.key ≡ a = cc (f, se, c.live a s h) in
          rw (find-insert p.table key (record { key = e.key; count = refs' e.key }) s, eq)
            (ap (λ x. some (record { key = x; count = refs' x })) ak)
      | inr ne ↦
          rw
            (
              find-insert p.table key (record { key = e.key; count = refs' e.key }) s,
              ne,
              others a (other_key key s e f a h ne),
            )
            (c.live a s h)
    ]

    pub recounted-IsCounted :
        (key : CString) (e : Shared) (refs' : ℕ → ℕ)
        → find p.table key ≡ some e
        → ((b : ℕ) → b ≢ e.key → refs' b ≡ refs b)
        → 0 < refs' e.key
        → IsCounted (recounted key e.key (refs' e.key)) refs'
    recounted-IsCounted key e refs' f others pos = record {
      null = c.null;
      positive = c.positive;
      unused = c.unused;
      stored = recounted-stored key e (refs' e.key) f;
      live = recounted-live key e refs' f others;
      needed = λ a s h. elim (Bool-cases (a == e.key)) [
        | inl eq ↦ rw ((==_iff a e.key).0 eq) pos
        | inr ne ↦ let q : a ≢ e.key = ground (arith, ne) in rw (others a q) (c.needed a s h)
      ];
      dead = λ a h pos'.
          let q : a ≢ e.key = λ q. cc (q, h, c.stored key e f) in others a q ∙ c.dead a h pos';
    }
