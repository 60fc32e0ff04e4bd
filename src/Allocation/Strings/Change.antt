-- ===== src/Allocation/Strings/Change.antt =====
-- A string that is added to the pool, and one that is freed.
use rbkit.Prelude.{
  ℕ, ◌+◌, ◌<◌, ◌≡◌, ◌≢◌, sym, ap, ◌∙◌, inl, inr, true, false, Option, none, some, ◌==◌, ==_iff,
  Bool-cases, ok, arith,
}
use rbkit.Event.{CString}
use rbkit.Allocation.Table.{StTable}
use rbkit.Allocation.Strings.{StringHeap, put, deref, free_string, Shared, StringPool}
use rbkit.Allocation.Strings.Pool.{plus, minus, IsCounted}

module _ (h : StringHeap) where
  pub text_at-put_self : (a : ℕ) (s : Option CString) → (put h a s).text_at a ≡ s
  unfolding put
  text_at-put_self a s = ground arith

  pub deref-some : (a : ℕ) (s : CString) → h.text_at a ≡ some s → deref h a ≡ ok s
  unfolding deref
  deref-some a s e = ground (arith, e)

  pub free_string-some :
      (a : ℕ) (s : CString) → 0 < a → h.text_at a ≡ some s → free_string h a ≡ ok (put h a none)
  unfolding free_string deref
  free_string-some a s pos e = ground (arith, pos, e)

  pub text_at-put_ne : (a b : ℕ) (s : Option CString) → b ≢ a → (put h a s).text_at b ≡ h.text_at b
  unfolding put
  text_at-put_ne a b s ne = ground arith

module _ ⦃t : StTable CString Shared⦄ where
  open t use {find, insert, remove, same, same_iff, find-insert, find-remove}

  module _ (p : StringPool) (refs : ℕ → ℕ) (c : IsCounted p refs) where
    abbrev pub with_string : CString → StringPool
    with_string key = record {
      heap = record {
        fresh = p.heap.fresh + 1;
        text_at = (put p.heap p.heap.fresh (some key)).text_at;
      };
      table = insert p.table key (record { key = p.heap.fresh; count = 1 });
    }

    no_references : refs p.heap.fresh ≡ 0
    no_references = c.dead p.heap.fresh (c.unused p.heap.fresh (omega arith)) c.positive

    pub not_fresh : (a : ℕ) (s : CString) → p.heap.text_at a ≡ some s → a ≢ p.heap.fresh
    not_fresh a s h q = cc (q, h, c.unused p.heap.fresh (omega arith))

    module _ (key : CString) (f : find p.table key ≡ none) where
      text_at-fresh : (with_string key).heap.text_at p.heap.fresh ≡ some key
      text_at-fresh = text_at-put_self p.heap p.heap.fresh (some key)

      text_at-old : (a : ℕ) → a ≢ p.heap.fresh → (with_string key).heap.text_at a ≡ p.heap.text_at a
      text_at-old a ne = text_at-put_ne p.heap p.heap.fresh a (some key) ne

      -- No live string has the new key.
      new_key : (a : ℕ) (s : CString) → p.heap.text_at a ≡ some s → same key s ≡ false
      new_key a s h = elim (Bool-cases (same key s)) [
        | inl eq ↦ cc ((same_iff key s).0 eq, f, c.live a s h)
        | inr ne ↦ ne
      ]

      with_string-stored :
          (s : CString) (e : Shared)
          → find (with_string key).table s ≡ some e
          → (with_string key).heap.text_at e.key ≡ some s
      with_string-stored s e h = elim (Bool-cases (same key s)) [
        | inl eq ↦
            let g =
              rw (find-insert p.table key (record { key = p.heap.fresh; count = 1 }) s, eq) at h in
            cc ((same_iff key s).0 eq, text_at-fresh, g)
        | inr ne ↦
            let g = c.stored s e (
              rw (find-insert p.table key (record { key = p.heap.fresh; count = 1 }) s, ne) at h) in
            text_at-old e.key (not_fresh e.key s g) ∙ g
      ]

      with_string-live :
          (a : ℕ) (s : CString)
          → (with_string key).heap.text_at a ≡ some s
          → find (with_string key).table s
            ≡ some (record { key = a; count = plus p.heap.fresh refs a })
      with_string-live a s h = elim (Bool-cases (a == p.heap.fresh)) [
        | inl eq ↦
            let q : a ≡ p.heap.fresh = (==_iff a p.heap.fresh).0 eq in
            let one : plus p.heap.fresh refs a ≡ 1 = ground (arith, q, no_references) in
            let st : same key s ≡ true = (same_iff key s).1 (cc (q, h, text_at-fresh)) in
            rw (find-insert p.table key (record { key = p.heap.fresh; count = 1 }) s, st, one)
              (ap (λ x. some (record { key = x; count = 1 })) (sym q))
        | inr ne ↦
            let q : a ≢ p.heap.fresh = ground (arith, ne) in
            let g : p.heap.text_at a ≡ some s = sym (text_at-old a q) ∙ h in
            let old : plus p.heap.fresh refs a ≡ refs a = ground (arith, ne) in
            rw
              (
                find-insert p.table key (record { key = p.heap.fresh; count = 1 }) s,
                new_key a s g,
                old,
              )
              (c.live a s g)
      ]

      with_string-needed :
          (a : ℕ) (s : CString)
          → (with_string key).heap.text_at a ≡ some s
          → 0 < plus p.heap.fresh refs a
      with_string-needed a s h = elim (Bool-cases (a == p.heap.fresh)) [
        | inl eq ↦ ground (arith, eq)
        | inr ne ↦
            let q : a ≢ p.heap.fresh = ground (arith, ne) in
            ground (arith, ne, c.needed a s (sym (text_at-old a q) ∙ h))
      ]

      with_string-dead :
          (a : ℕ) → (with_string key).heap.text_at a ≡ none → 0 < a → plus p.heap.fresh refs a ≡ 0
      with_string-dead a h pos = elim (Bool-cases (a == p.heap.fresh)) [
        | inl eq ↦ cc ((==_iff a p.heap.fresh).0 eq, h, text_at-fresh)
        | inr ne ↦
            let q : a ≢ p.heap.fresh = ground (arith, ne) in
            ground (arith, ne, c.dead a (sym (text_at-old a q) ∙ h) pos)
      ]

      pub with_string-IsCounted : IsCounted (with_string key) (plus p.heap.fresh refs)
      with_string-IsCounted = record {
        null = text_at-old 0 (omega (arith, c.positive)) ∙ c.null;
        positive = omega arith;
        unused = λ a le. text_at-old a (omega arith) ∙ c.unused a (omega arith);
        stored = with_string-stored;
        live = with_string-live;
        needed = with_string-needed;
        dead = with_string-dead;
      }

    -- The string at `a` freed, with its entry.
    abbrev pub without_string : ℕ → CString → StringPool
    without_string a key = record { heap = put p.heap a none; table = remove p.table key }

    module _ (a : ℕ) (key : CString) (h : p.heap.text_at a ≡ some key) (one : refs a ≡ 1) where
      gone : (put p.heap a none).text_at a ≡ none
      gone = text_at-put_self p.heap a none

      others : (b : ℕ) → b ≢ a → (put p.heap a none).text_at b ≡ p.heap.text_at b
      others b ne = text_at-put_ne p.heap a b none ne

      -- Two live strings differ in their bytes.
      other_text : (b : ℕ) (s : CString) → p.heap.text_at b ≡ some s → b ≢ a → same key s ≡ false
      other_text b s g ne = elim (Bool-cases (same key s)) [
        | inl eq ↦ absurd (ne (cc ((same_iff key s).0 eq, c.live a key h, c.live b s g)))
        | inr n ↦ n
      ]

      -- What is read in the new heap was there.
      still :
          (b : ℕ) (s : CString)
          → (put p.heap a none).text_at b ≡ some s
          → (b ≢ a) × (p.heap.text_at b ≡ some s)
      still b s g = let ne : b ≢ a = λ q. cc (q, g, gone) in (ne, sym (others b ne) ∙ g)

      without_string-stored :
          (s : CString) (e : Shared)
          → find (remove p.table key) s ≡ some e
          → (put p.heap a none).text_at e.key ≡ some s
      without_string-stored s e g = elim (Bool-cases (same key s)) [
        | inl eq ↦ let g' = rw (find-remove p.table key s, eq) at g in cc g'
        | inr ne ↦
            let g' = c.stored s e (rw (find-remove p.table key s, ne) at g) in
            let q : e.key ≢ a = λ q. cc ((same_iff key s).1 (cc (q, g', h)), ne) in
            others e.key q ∙ g'
      ]

      without_string-live :
          (b : ℕ) (s : CString)
          → (put p.heap a none).text_at b ≡ some s
          → find (remove p.table key) s ≡ some (record { key = b; count = minus a refs b })
      without_string-live b s g =
          let (ne, g') = still b s g in
          let same_refs : minus a refs b ≡ refs b = ground (arith, ne) in
          rw (find-remove p.table key s, other_text b s g' ne, same_refs) (c.live b s g')

      pub without_string-IsCounted : IsCounted (without_string a key) (minus a refs)
      unfolding put
      without_string-IsCounted = record {
        null = ground (arith, c.null);
        positive = c.positive;
        unused = λ b le. ground (arith, c.unused b le);
        stored = without_string-stored;
        live = without_string-live;
        needed = λ b s g. let (ne, g') = still b s g in ground (arith, ne, c.needed b s g');
        dead = λ b g pos. elim (Bool-cases (b == a)) [
          | inl eq ↦ ground (arith, eq, one)
          | inr ne ↦
              let q : b ≢ a = ground (arith, ne) in
              ground (arith, ne, c.dead b (sym (others b q) ∙ g) pos)
        ];
      }
