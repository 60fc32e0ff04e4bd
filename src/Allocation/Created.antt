-- ===== src/Allocation/Created.antt =====
-- new_rbkit_allocation_info records where an object was allocated.
use rbkit.Prelude.{
  ℕ, ◌+◌, ◌^◌, ◌≤◌, ◌<◌, ◌≡◌, refl, ap, ◌∙◌, inl, inr, Option, some, length, lt→ltb, ◌==◌,
  Bool-cases, if◌then◌else◌, ok, arith,
}
use rbkit.Event.{CString, AllocationInfo}
use rbkit.Allocation.{
  Info, info_text, TraceArg, class_path_of, Allocations, release, new_rbkit_allocation_info,
}
use rbkit.Allocation.Table.{StTable, weight, same_test, length-insert}
use rbkit.Allocation.Strings.{Shared, StringPool, make_unique_str}
use rbkit.Allocation.Strings.Pool.{plus, IsCounted-same}
use rbkit.Allocation.Strings.Unique.{text_of, Made, make_unique_str-IsCounted}
use rbkit.Allocation.Release.{points_to, Released, release-Released}
use rbkit.Allocation.Counts.{
  refs_of, IsValid, allocation_of, refs_of_le, refs_of_held, text_kept, allocation_of_same,
}

-- What Ruby reports of an allocation, as a value.
abbrev pub reported : TraceArg → AllocationInfo
reported arg = record {
  path = text_of arg.path;
  line = arg.line;
  class_path = text_of (class_path_of arg);
  method_id = arg.method_id;
  generation = arg.gc_count;
}

-- The abstract operation: one object's allocation is replaced.
abbrev pub with_allocation :
    ℕ → Option AllocationInfo → (ℕ → Option AllocationInfo) → ℕ → Option AllocationInfo
with_allocation obj v table j = if j == obj then v else table j

module _ ⦃strings : StTable CString Shared⦄ ⦃objects : StTable ℕ Info⦄ where
  -- The info that is returned and the table say what Ruby reported.
  pub record Recorded (arg : TraceArg) (a : Allocations) (info : Info) (a' : Allocations)
      : Type 0 where
    pub valid : IsValid a'
    pub returned : info_text a'.str_table.heap info ≡ reported arg
    pub size :
        length (objects.entries a'.object_table) ≤ length (objects.entries a.object_table) + 1
    pub table :
        (j : ℕ)
        → allocation_of a' j ≡ with_allocation arg.object (some (reported arg)) (allocation_of a) j

  module _ (arg : TraceArg) (a : Allocations) where
    abbrev path_made : ℕ × StringPool
    path_made = make_unique_str arg.path a.str_table

    abbrev class_made : ℕ × StringPool
    class_made = make_unique_str (class_path_of arg) path_made.1

    abbrev info_made : Info
    info_made = record {
      path = path_made.0;
      line = arg.line;
      class_path = class_made.0;
      method_id = arg.method_id;
      generation = arg.gc_count;
    }

    abbrev made : StringPool → Allocations
    made p = record {
      str_table = p;
      object_table = objects.insert a.object_table arg.object info_made;
    }

    -- The references while the two strings are made.
    abbrev refs₁ : ℕ → ℕ
    refs₁ = plus path_made.0 (refs_of a.object_table)

    abbrev refs₂ : ℕ → ℕ
    refs₂ = plus class_made.0 refs₁

    new_rbkit_allocation_info_runs :
        (p : StringPool)
        → release (objects.find a.object_table arg.object) class_made.1 ≡ ok p
        → arg.line < 2 ^ 31
        → new_rbkit_allocation_info arg a ≡ ok (info_made, made p)
    unfolding new_rbkit_allocation_info
    new_rbkit_allocation_info_runs p q small = rw (q, lt→ltb arg.line (2 ^ 31) small) refl

    -- The table's references once the info is in it.
    refs_of-made :
        (p : StringPool) (b : ℕ)
        → refs_of (made p).object_table b
            + weight (points_to b) arg.object (objects.find a.object_table arg.object)
          ≡ refs₂ b
    refs_of-made p b =
        let e = objects.total-insert (points_to b) a.object_table arg.object info_made in
        ground (arith, e)

    module _ (v : IsValid a) (few : length (objects.entries a.object_table) < 2 ^ 62) where
      refs_few : (b : ℕ) → refs_of a.object_table b + 2 < 2 ^ 64
      refs_few b = omega (arith, few, refs_of_le a.object_table b)

      path_made-Made : Made a.str_table (refs_of a.object_table) arg.path path_made
      path_made-Made =
          make_unique_str-IsCounted a.str_table (refs_of a.object_table) v arg.path
            (λ b. omega (arith, refs_few b))

      class_made-Made : Made path_made.1 refs₁ (class_path_of arg) class_made
      class_made-Made =
          make_unique_str-IsCounted path_made.1 refs₁ path_made-Made.counted (class_path_of arg)
            (λ b. ground (arith, refs_few b))

      released :
          (p : StringPool) × (release (objects.find a.object_table arg.object) class_made.1 ≡ ok p)
          × Released class_made.1 refs₂ arg.object (objects.find a.object_table arg.object) p
      released =
          release-Released class_made.1 refs₂ arg.object (objects.find a.object_table arg.object)
            class_made-Made.counted (λ b. ground (arith, refs_of_held a.object_table arg.object b))
            (λ b. ground (arith, refs_few b))

      module _ (p : StringPool)
          (r : Released class_made.1 refs₂ arg.object
            (objects.find a.object_table arg.object)
            p) where
        made-IsValid : IsValid (made p)
        made-IsValid = IsCounted-same p _ _ (λ b pos. omega (arith, refs_of-made p b)) r.counted

        -- A string that is referenced in the end was never freed.
        kept_from_class :
            (b : ℕ) (s : CString)
            → class_made.1.heap.text_at b ≡ some s
            → 0 < refs_of (made p).object_table b
            → p.heap.text_at b ≡ some s
        kept_from_class b s g pos = r.kept b s g (omega (arith, pos, refs_of-made p b))

        made_held : (b : ℕ) → points_to b arg.object info_made ≤ refs_of (made p).object_table b
        made_held b = omega (arith, refs_of-made p b, refs_of_held a.object_table arg.object b)

        made_path_text : p.heap.text_at path_made.0 ≡ text_of arg.path
        made_path_text =
            text_kept path_made.1 p refs₁ (refs_of (made p).object_table) path_made.0
              path_made-Made.counted made-IsValid
              (λ b s g pos. kept_from_class b s (class_made-Made.kept b s g) pos) (ground arith)
              (ground (arith, made_held path_made.0))
            ∙ path_made-Made.text

        made_class_text : p.heap.text_at class_made.0 ≡ text_of (class_path_of arg)
        made_class_text =
            text_kept class_made.1 p refs₂ (refs_of (made p).object_table) class_made.0
              class_made-Made.counted made-IsValid kept_from_class (ground arith)
              (ground (arith, made_held class_made.0))
            ∙ class_made-Made.text

        made_returned : info_text p.heap info_made ≡ reported arg
        made_returned = rw (made_path_text, made_class_text) refl

        made_table :
            (j : ℕ)
            → allocation_of (made p) j
              ≡ with_allocation arg.object (some (reported arg)) (allocation_of a) j
        made_table j = elim (Bool-cases (j == arg.object)) [
          | inl eq ↦
              rw
                (
                  eq,
                  objects.find-insert a.object_table arg.object info_made j,
                  same_test objects arg.object j,
                  eq,
                )
                (ap some made_returned)
          | inr ne ↦ rw ne (
              allocation_of_same a (made p) v made-IsValid
                (λ b s g pos.
                  kept_from_class b s (class_made-Made.kept b s (path_made-Made.kept b s g)) pos)
                j
                (rw
                  (
                    objects.find-insert a.object_table arg.object info_made j,
                    same_test objects arg.object j,
                    ne,
                  )
                  refl))
        ]

      -- new_rbkit_allocation_info, on tables whose counts are exact and that hold fewer than 2 ^ 62
      -- objects, and for a line that fits an int, ends without a fault: it returns and records for
      -- the object what Ruby reported, replaces what was known of that object, leaves what is known
      -- of every other object, and the counts are exact again.
      pub new_rbkit_allocation_info-Recorded :
          arg.line < 2 ^ 31
          → (info : Info) × (a' : Allocations) × (new_rbkit_allocation_info arg a ≡ ok (info, a'))
            × Recorded arg a info a'
      new_rbkit_allocation_info-Recorded small =
          let (p, q, r) = released in
          (
            info_made,
            made p,
            new_rbkit_allocation_info_runs p q small,
            record {
              valid = made-IsValid p r;
              returned = made_returned p r;
              size = length-insert objects a.object_table arg.object info_made;
              table = made_table p r;
            },
          )
