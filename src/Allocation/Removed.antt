-- ===== src/Allocation/Removed.antt =====
-- delete_rbkit_allocation_info forgets where an object was allocated.
use rbkit.Prelude.{
  ℕ, ◌+◌, ◌^◌, ◌≤◌, ◌<◌, ◌≡◌, refl, inl, inr, none, some, length, ◌==◌, ==_iff, Bool-cases,
  Option-cases, ok, arith,
}
use rbkit.Event.{CString}
use rbkit.Allocation.{Info, Allocations, release, delete_found, delete_rbkit_allocation_info}
use rbkit.Allocation.Table.{StTable, same_test, length-remove}
use rbkit.Allocation.Strings.{Shared, StringPool}
use rbkit.Allocation.Strings.Pool.{IsCounted-same}
use rbkit.Allocation.Release.{points_to, Released, release-Released}
use rbkit.Allocation.Counts.{
  refs_of, IsValid, allocation_of, refs_of_le, refs_of_held, allocation_of_same,
}
use rbkit.Allocation.Created.{with_allocation}

module _ ⦃strings : StTable CString Shared⦄ ⦃objects : StTable ℕ Info⦄ where
  -- Nothing is known of the object any more.
  pub record Forgotten (obj : ℕ) (a a' : Allocations) : Type 0 where
    pub valid : IsValid a'
    pub size : length (objects.entries a'.object_table) ≤ length (objects.entries a.object_table)
    pub table : (j : ℕ) → allocation_of a' j ≡ with_allocation obj none (allocation_of a) j

  module _ (obj : ℕ) (a : Allocations) (v : IsValid a) where
    nothing_known :
        objects.find a.object_table obj ≡ none
        → (j : ℕ) → allocation_of a j ≡ with_allocation obj none (allocation_of a) j
    nothing_known f j = elim (Bool-cases (j == obj)) [
      | inl eq ↦ let q : j ≡ obj = (==_iff j obj).0 eq in rw (eq, q, f) refl
      | inr ne ↦ rw ne refl
    ]

    module _ (info : Info) (f : objects.find a.object_table obj ≡ some info) where
      abbrev forgot : StringPool → Allocations
      forgot p = record { str_table = p; object_table = objects.remove a.object_table obj }

      delete_found_runs :
          (p : StringPool)
          → release (some info) a.str_table ≡ ok p
          → delete_rbkit_allocation_info obj a ≡ ok (forgot p)
      unfolding delete_rbkit_allocation_info delete_found
      delete_found_runs p q = rw (f, q) refl

      module _ (p : StringPool)
          (r : Released a.str_table (refs_of a.object_table) obj (some info) p) where
        refs_left :
            (b : ℕ)
            → refs_of (forgot p).object_table b + points_to b obj info ≡ refs_of a.object_table b
        refs_left b = rw f at (objects.total-remove (points_to b) a.object_table obj)

        forgot-IsValid : IsValid (forgot p)
        forgot-IsValid = IsCounted-same p _ _ (λ b pos. omega (arith, refs_left b)) r.counted

        forgot_table :
            (j : ℕ) → allocation_of (forgot p) j ≡ with_allocation obj none (allocation_of a) j
        forgot_table j = elim (Bool-cases (j == obj)) [
          | inl eq ↦
              rw (eq, objects.find-remove a.object_table obj j, same_test objects obj j, eq) refl
          | inr ne ↦ rw ne (
              allocation_of_same a (forgot p) v forgot-IsValid
                (λ b s g pos. r.kept b s g (omega (arith, pos, refs_left b))) j
                (rw (objects.find-remove a.object_table obj j, same_test objects obj j, ne) refl))
        ]

    -- delete_rbkit_allocation_info, on tables whose counts are exact and that hold fewer than 2 ^ 62
    -- objects, ends without a fault: nothing is known of the object afterwards, what is known of
    -- every other object stays, and the counts are exact again.
    pub delete_rbkit_allocation_info-Forgotten :
        length (objects.entries a.object_table) < 2 ^ 62
        → (a' : Allocations) × (delete_rbkit_allocation_info obj a ≡ ok a') × Forgotten obj a a'
    unfolding delete_rbkit_allocation_info delete_found
    delete_rbkit_allocation_info-Forgotten few =
        elim (Option-cases (objects.find a.object_table obj)) [
          | inl f ↦
              (a, rw f refl, record { valid = v; size = omega arith; table = nothing_known f })
          | inr (info, f) ↦
              let (p, q, r) =
                release-Released a.str_table (refs_of a.object_table) obj (some info) v
                  (λ b. rw f at (refs_of_held a.object_table obj b))
                  (λ b. omega (arith, few, refs_of_le a.object_table b)) in
              (
                forgot info f p,
                delete_found_runs info f p q,
                record {
                  valid = forgot-IsValid info f p r;
                  size = length-remove objects a.object_table obj;
                  table = forgot_table info f p r;
                },
              )
        ]
