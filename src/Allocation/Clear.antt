-- ===== src/Allocation/Clear.antt =====
-- The tables when the server stops: every string is freed once.
use rbkit.Prelude.{
  ℕ, ◌<◌, ◌≡◌, ◌≢◌, refl, sym, inl, inr, Option, none, some, List, [], ◌∷◌, All, ◌==◌, ==_iff,
  Bool-cases, Option-cases, if◌then◌else◌, ok, arith,
}
use rbkit.Event.{CString}
use rbkit.Allocation.{Info, Allocations, free_keys, clear_tables, new_tables}
use rbkit.Allocation.Table.{StTable, total}
use rbkit.Allocation.Strings.{StringHeap, put, Shared, StringPool}
use rbkit.Allocation.Strings.Pool.{IsCounted, positive_of}
use rbkit.Allocation.Strings.Change.{free_string-some, text_at-put_self, text_at-put_ne}
use rbkit.Allocation.Counts.{IsValid}
use rbkit.Allocation.History.{Holds, new_tables-Holds}

-- Whether an entry is that of the string at `a`.
abbrev holds : ℕ → CString → Shared → ℕ
holds a s e = if e.key == a then 1 else 0

abbrev live : Option CString → ℕ
live none = 0
live (some s) = 1

-- Each live string has one of the entries, and no other address has.
abbrev HeldOnce : List (CString × Shared) → StringHeap → Type 0
HeldOnce es h = (a : ℕ) → total (holds a) es ≡ live (h.text_at a)

total_none :
    {K V : Type 0} (w : K → V → ℕ) (es : List (K × V))
    → All (λ (e : K × V). w e.0 e.1 ≡ 0) es
    → total w es ≡ 0
total_none w [] h = refl
total_none w ((k, v) ∷ es) (z, h) = omega (arith, z, total_none w es h)

live-some : (o : Option CString) → 0 < live o → (s : CString) × (o ≡ some s)
live-some none pos = absurd (omega (arith, pos))
live-some (some s) pos = (s, refl)

left_once :
    (es : List (CString × Shared)) (k : CString) (e : Shared) (h : StringHeap) (s : CString)
    → HeldOnce ((k, e) ∷ es) h
    → h.text_at e.key ≡ some s
    → HeldOnce es (put h e.key none)
left_once es k e h s once f b = elim (Bool-cases (b == e.key)) [
  | inl eq ↦
      let q : b ≡ e.key = (==_iff b e.key).0 eq in
      let one = rw f at (once e.key) in rw (q, text_at-put_self h e.key none) (ground (arith, one))
  | inr ne ↦
      let q : b ≢ e.key = ground (arith, ne) in
      rw (text_at-put_ne h e.key b none q) (ground (arith, once b, q))
]

-- Freeing the keys of the entries leaves no string, and frees none twice.
free_keys-HeldOnce :
    (es : List (CString × Shared)) (h : StringHeap)
    → All (λ (e : CString × Shared). 0 < e.1.key) es
    → HeldOnce es h
    → (h' : StringHeap) × (free_keys es h ≡ ok h')
      × (h'.fresh ≡ h.fresh)
      × ((a : ℕ) → h'.text_at a ≡ none)
unfolding free_keys put
free_keys-HeldOnce [] h pos once = (
  h,
  refl,
  refl,
  λ a. elim (Option-cases (h.text_at a)) [
    | inl e ↦ e
    | inr (s, e) ↦ let z = rw e at (once a) in absurd (omega (arith, z))
  ],
)
free_keys-HeldOnce ((k, e) ∷ es) h (pos, more) once =
    let (s, f) = live-some (h.text_at e.key) (ground (arith, once e.key)) in
    let (h', q, same, gone) =
      free_keys-HeldOnce es (put h e.key none) more (left_once es k e h s once f) in
    (h', rw (free_string-some h e.key s pos f, q) refl, same, gone)

module _ ⦃t : StTable CString Shared⦄ where
  module _ (p : StringPool) (refs : ℕ → ℕ) (c : IsCounted p refs) where
    -- An entry of which the string is known.
    abbrev Stored : CString × Shared → Type 0
    Stored e = p.heap.text_at e.1.key ≡ some e.0

    keys_positive :
        (es : List (CString × Shared))
        → All Stored es
        → All (λ (e : CString × Shared). 0 < e.1.key) es
    keys_positive [] h = tt
    keys_positive ((k, e) ∷ es) (f, h) = (positive_of p refs c e.key k f, keys_positive es h)

    entries-Stored :
        (tb : t.Table)
        → ((s : CString) (e : Shared) → t.find tb s ≡ some e → p.heap.text_at e.key ≡ some s)
        → (es : List (CString × Shared))
        → All (λ (e : CString × Shared). t.find tb e.0 ≡ some e.1) es
        → All Stored es
    entries-Stored tb st [] h = tt
    entries-Stored tb st ((k, e) ∷ es) (f, h) = (st k e f, entries-Stored tb st es h)

    no_entry :
        (es : List (CString × Shared)) (a : ℕ)
        → p.heap.text_at a ≡ none
        → All Stored es
        → total (holds a) es ≡ 0
    no_entry [] a g h = refl
    no_entry ((k, e) ∷ es) a g (f, h) =
        let ne : e.key ≢ a = λ q. cc (q, f, g) in ground (arith, ne, no_entry es a g h)

    found-remove :
        (k s : CString) (e : Shared)
        → t.find (t.remove p.table s) k ≡ some e
        → (t.find p.table k ≡ some e) × (k ≢ s)
    found-remove k s e f = elim (Bool-cases (t.same s k)) [
      | inl eq ↦ let f' = rw (t.find-remove p.table s k, eq) at f in cc f'
      | inr ne ↦ (rw (t.find-remove p.table s k, ne) at f, λ q. cc ((t.same_iff s k).1 (sym q), ne))
    ]

    -- The other entries are of other strings.
    other_entries :
        (es : List (CString × Shared)) (a : ℕ) (s : CString)
        → p.heap.text_at a ≡ some s
        → All (λ (e : CString × Shared). t.find (t.remove p.table s) e.0 ≡ some e.1) es
        → total (holds a) es ≡ 0
    other_entries [] a s g h = refl
    other_entries ((k, e) ∷ es) a s g (f, h) =
        let ne : e.key ≢ a = λ q.
          let (g', other) = found-remove k s e f in
          let st = c.stored k e g' in other (cc (q, g, st)) in
        ground (arith, ne, other_entries es a s g h)

    entries-HeldOnce : HeldOnce (t.entries p.table) p.heap
    entries-HeldOnce a = elim (Option-cases (p.heap.text_at a)) [
      | inl g ↦ rw g (
          no_entry (t.entries p.table) a g
            (entries-Stored p.table c.stored (t.entries p.table) (t.entries-find p.table)))
      | inr (s, g) ↦
          let all_lem = rw (c.live a s g) at (t.total-remove (holds a) p.table s) in
          let z =
            other_entries (t.entries (t.remove p.table s)) a s g
              (t.entries-find (t.remove p.table s)) in
          rw g (ground (arith, all_lem, z))
    ]

module _ ⦃strings : StTable CString Shared⦄ ⦃objects : StTable ℕ Info⦄ where
  -- When the server stops, on tables whose counts are exact, every string of the table is freed
  -- once, without a fault: no string is left, nothing is known of any object, and the counts are
  -- exact.
  pub clear_tables-all_freed :
      (a : Allocations)
      → IsValid a
      → (a' : Allocations) × (clear_tables a ≡ ok a')
        × ((addr : ℕ) → a'.str_table.heap.text_at addr ≡ none)
        × Holds (λ obj. none) a'
  unfolding clear_tables new_tables
  clear_tables-all_freed a v =
      let p : StringPool = a.str_table in
      let es : List (CString × Shared) = strings.entries p.table in
      let known = entries-Stored p _ v p.table v.stored es (strings.entries-find p.table) in
      let (h, q, same, gone) =
        free_keys-HeldOnce es p.heap (keys_positive p _ v es known) (entries-HeldOnce p _ v) in
      (new_tables h, rw q refl, gone, new_tables-Holds h (omega (arith, same, v.positive)) gone)
