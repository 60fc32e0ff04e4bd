-- ===== src/Allocation/Counts.antt =====
-- The two operations keep the counts of the shared strings, and change the allocation of one object.
use rbkit.Prelude.{
  ℕ, ◌*◌, ◌≤◌, ◌<◌, ◌≡◌, refl, sym, ap, ◌∙◌, inl, inr, Option, none, some, length, ◌==◌, ==_iff,
  Bool-cases, Option-cases, arith,
}
use rbkit.Event.{CString, AllocationInfo}
use rbkit.Allocation.{Info, info_text, Allocations}
use rbkit.Allocation.Table.{StTable, total, total_le, weight}
use rbkit.Allocation.Strings.{StringHeap, Shared, StringPool}
use rbkit.Allocation.Strings.Pool.{IsCounted}
use rbkit.Allocation.Release.{points_to}

module _ ⦃strings : StTable CString Shared⦄ ⦃objects : StTable ℕ Info⦄ where
  -- How often the infos of the table refer to each string.
  abbrev pub refs_of : objects.Table → ℕ → ℕ
  refs_of t b = total (points_to b) (objects.entries t)

  -- Every string is counted exactly, and none that an info refers to was freed.
  abbrev pub IsValid : Allocations → Type 0
  IsValid a = IsCounted a.str_table (refs_of a.object_table)

  abbrev pub text_found : StringHeap → Option Info → Option AllocationInfo
  text_found h none = none
  text_found h (some info) = some (info_text h info)

  -- The abstract table: what is known of the allocation of each object.
  abbrev pub allocation_of : Allocations → ℕ → Option AllocationInfo
  allocation_of a obj = text_found a.str_table.heap (objects.find a.object_table obj)

  pub refs_of_le : (t : objects.Table) (b : ℕ) → refs_of t b ≤ 2 * length (objects.entries t)
  refs_of_le t b = total_le 2 (points_to b) (objects.entries t) (λ obj info. ground arith)

  -- An info in the table holds its references.
  pub refs_of_held :
      (t : objects.Table) (obj b : ℕ) → weight (points_to b) obj (objects.find t obj) ≤ refs_of t b
  refs_of_held t obj b = omega (arith, objects.total-remove (points_to b) t obj)

  -- A pointer that holds a reference, or is NULL, reads the same string where the strings are kept.
  pub text_kept :
      (p p' : StringPool) (refs refs' : ℕ → ℕ) (a : ℕ)
      → IsCounted p refs
      → IsCounted p' refs'
      → ((b : ℕ) (s : CString)
          → p.heap.text_at b ≡ some s
          → 0 < refs' b
          → p'.heap.text_at b ≡ some s)
      → 0 < refs a
      → 0 < refs' a
      → p'.heap.text_at a ≡ p.heap.text_at a
  text_kept p p' refs refs' a c c' kept held held' = elim (Option-cases (p.heap.text_at a)) [
    | inr (s, h) ↦ kept a s h held' ∙ sym h
    | inl h ↦ elim (Bool-cases (a == 0)) [
      | inl eq ↦ let q : a ≡ 0 = (==_iff a 0).0 eq in rw (q, c.null, c'.null) refl
      | inr ne ↦ let z = c.dead a h (ground (arith, ne)) in absurd (omega (arith, z, held))
    ]
  ]

  -- The text of an info that stays, where its strings are kept.
  info_text_kept :
      (p p' : StringPool) (refs refs' : ℕ → ℕ) (info : Info)
      → IsCounted p refs
      → IsCounted p' refs'
      → ((b : ℕ) (s : CString)
          → p.heap.text_at b ≡ some s
          → 0 < refs' b
          → p'.heap.text_at b ≡ some s)
      → ((b : ℕ) → points_to b 0 info ≤ refs b)
      → ((b : ℕ) → points_to b 0 info ≤ refs' b)
      → info_text p'.heap info ≡ info_text p.heap info
  info_text_kept p p' refs refs' info c c' kept held held' =
      let path_lem : p'.heap.text_at info.path ≡ p.heap.text_at info.path =
        text_kept p p' refs refs' info.path c c' kept (ground (arith, held info.path))
          (ground (arith, held' info.path)) in
      let class_lem : p'.heap.text_at info.class_path ≡ p.heap.text_at info.class_path =
        text_kept p p' refs refs' info.class_path c c' kept (ground (arith, held info.class_path))
          (ground (arith, held' info.class_path)) in
      rw (path_lem, class_lem) refl

  -- An object with the same info has the same allocation, where the strings are kept.
  pub allocation_of_same :
      (a a' : Allocations)
      → IsValid a
      → IsValid a'
      → ((b : ℕ) (s : CString)
          → a.str_table.heap.text_at b ≡ some s
          → 0 < refs_of a'.object_table b
          → a'.str_table.heap.text_at b ≡ some s)
      → (j : ℕ) → objects.find a'.object_table j ≡ objects.find a.object_table j
      → allocation_of a' j ≡ allocation_of a j
  allocation_of_same a a' v v' kept j e = elim (Option-cases (objects.find a.object_table j)) [
    | inl f ↦ rw (e, f) refl
    | inr (info, f) ↦
        let g : objects.find a'.object_table j ≡ some info = e ∙ f in
        rw (e, f)
          (ap some (
            info_text_kept a.str_table a'.str_table _ _ info v v' kept
              (λ b. rw f at (refs_of_held a.object_table j b))
              (λ b. rw g at (refs_of_held a'.object_table j b))))
  ]
