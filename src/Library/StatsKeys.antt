-- ===== src/Library/StatsKeys.antt =====
-- The statistics of the collector have the keys that the comment of RbkitGC.stat lists.
use rbkit.Prelude.{
  ℕ, ◌*◌, ◌^◌, ◌<◌, ◌≡◌, refl, sym, ap, ◌∙◌, true, false, Bool-cases, inl, inr, Option, some, List,
  [], ◌∷◌, ◌++◌, map, length, All, ascii, Outcome, ok, raised, type_error, none, ◌>>=◌, ◌⊎◌,
  if◌then◌else◌, if_true, if_false, arith,
}
use rbkit.Event.{CString}
use rbkit.Packer.Hash.{has_zero}
use rbkit.Library.GcStats.{
  at_least, counts, renamed, heap_keys, VmStats, Stats, lookup, copied, same_key, heap_sources,
  total_heap_size, stat,
}

-- The keys that the comment of `RbkitGC.stat` lists, in its order, but for the last two, and the
-- names that they have in Ruby 2.1.
abbrev pub documented : List (CString × CString)
documented =
    (ascii "count", ascii "count")
    ∷ (ascii "minor_gc_count", ascii "minor_gc_count")
    ∷ (ascii "major_gc_count", ascii "major_gc_count")
    ∷ (ascii "heap_allocated_pages", ascii "heap_used")
    ∷ (ascii "heap_eden_pages", ascii "heap_eden_page_length")
    ∷ (ascii "heap_tomb_pages", ascii "heap_tomb_page_length")
    ∷ (ascii "heap_allocatable_pages", ascii "heap_increment")
    ∷ (ascii "heap_sorted_length", ascii "heap_length")
    ∷ (ascii "heap_live_slots", ascii "heap_live_slot")
    ∷ (ascii "heap_free_slots", ascii "heap_free_slot")
    ∷ (ascii "heap_final_slots", ascii "heap_final_slot")
    ∷ (ascii "heap_swept_slots", ascii "heap_swept_slot")
    ∷ (ascii "old_objects", ascii "old_object")
    ∷ (ascii "old_objects_limit", ascii "old_object_limit")
    ∷ (ascii "total_allocated_objects", ascii "total_allocated_object")
    ∷ (ascii "total_freed_objects", ascii "total_freed_object")
    ∷ (ascii "malloc_increase_bytes", ascii "malloc_increase")
    ∷ (ascii "malloc_increase_bytes_limit", ascii "malloc_limit")
    ∷ (ascii "oldmalloc_increase_bytes", ascii "oldmalloc_increase")
    ∷ (ascii "oldmalloc_increase_bytes_limit", ascii "oldmalloc_limit")
    ∷ (ascii "remembered_wb_unprotected_objects", ascii "remembered_shady_object")
    ∷ (ascii "remembered_wb_unprotected_objects_limit", ascii "remembered_shady_object_limit")
    ∷ []

abbrev pub documented_keys : List CString
documented_keys =
    map (λ (p : CString × CString). p.0) documented
    ++ (ascii "total_heap_size" ∷ ascii "total_memsize" ∷ [])

abbrev keys_of : Stats → List CString
keys_of stats = map (λ (p : CString × Option ℕ). p.0) stats

-- What Ruby calls the number of its pages.
abbrev pub pages_key : CString → CString
pages_key version =
    if at_least version (ascii "2.2.0") then ascii "heap_allocated_pages" else ascii "heap_used"

-- All statistics, with the sources of those of the heap.
abbrev pub all_stats : VmStats → List (CString × CString) → ℕ → Stats
all_stats vm sources heap_size =
    copied vm.gc_stat (map same_key counts ++ sources)
    ++ ((ascii "total_heap_size", some heap_size)
        ∷ (ascii "total_memsize", some vm.memsize_of_all)
        ∷ [])

-- The statistics: every key of that comment once, in order, with what Ruby says under its name for it.
pub record Documented (vm : VmStats) (heap_size : ℕ) (stats : Stats) : Type 0 where
  pub keys_lem : keys_of stats ≡ documented_keys
  pub values_lem :
      All
        (λ (p : CString × CString).
          lookup p.0 stats
          ≡ vm.gc_stat (if at_least vm.ruby_version (ascii "2.2.0") then p.0 else p.1))
        documented
  pub size_lem : lookup (ascii "total_heap_size") stats ≡ some heap_size
  pub memsize_lem : lookup (ascii "total_memsize") stats ≡ some vm.memsize_of_all

-- What is left of `stat` when the size of the heap was computed.
abbrev pub with_size : VmStats → List (CString × CString) → Outcome ℕ → Outcome Stats
with_size vm sources size = size >>= (λ heap_size. ok (all_stats vm sources heap_size))

new_stats :
    (vm : VmStats) (pages : ℕ)
    → heap_sources vm.ruby_version ≡ map same_key heap_keys
    → vm.gc_stat (ascii "heap_allocated_pages") ≡ some pages
    → stat vm
      ≡ with_size vm
          (map same_key heap_keys)
          (total_heap_size (some pages) vm.heap_obj_limit vm.rvalue_size)
unfolding stat copied lookup
new_stats vm pages e p = rw (e, p) refl

renamed_stats :
    (vm : VmStats) (pages : ℕ)
    → heap_sources vm.ruby_version ≡ renamed
    → vm.gc_stat (ascii "heap_used") ≡ some pages
    → stat vm ≡ with_size vm renamed (total_heap_size (some pages) vm.heap_obj_limit vm.rvalue_size)
unfolding stat copied lookup
renamed_stats vm pages e p = rw (e, p) refl

total_heap_size_nil :
    (pages : ℕ) (limit size : Option ℕ)
    → (limit ≡ none) ⊎ (size ≡ none)
    → total_heap_size (some pages) limit size ≡ raised type_error
unfolding total_heap_size
total_heap_size_nil pages none size h = refl
total_heap_size_nil pages (some limit) none h = refl
total_heap_size_nil pages (some limit) (some size) (inl e) = cc e
total_heap_size_nil pages (some limit) (some size) (inr e) = cc e

pub total_heap_size_lem :
    (vm : VmStats) (pages limit size : ℕ)
    → vm.heap_obj_limit ≡ some limit
    → vm.rvalue_size ≡ some size
    → total_heap_size (some pages) vm.heap_obj_limit vm.rvalue_size ≡ ok (pages * limit * size)
unfolding total_heap_size
total_heap_size_lem vm pages limit size e e' = rw (e, e') refl

-- A key that can be packed.
abbrev pub IsKey : CString × CString → Type 0
IsKey p = (length p.0 < 2 ^ 31) × (has_zero p.0 ≡ false)

heap_keys-IsKey : All IsKey (map same_key heap_keys)
heap_keys-IsKey = ground arith

renamed-IsKey : All IsKey renamed
renamed-IsKey = ground arith

-- The sources of the heap's values, and the statistics that are made of them.
pub stat_sources :
    (vm : VmStats) (pages : ℕ)
    → at_least vm.ruby_version (ascii "2.1.0") ≡ true
    → vm.gc_stat (pages_key vm.ruby_version) ≡ some pages
    → (sources : List (CString × CString)) × All IsKey sources
      × (length sources ≡ 19)
      × (stat vm
          ≡ with_size vm sources (total_heap_size (some pages) vm.heap_obj_limit vm.rvalue_size))
      × ((heap_size : ℕ) → Documented vm heap_size (all_stats vm sources heap_size))
unfolding heap_sources copied lookup
stat_sources vm pages new_enough p = elim (Bool-cases (at_least vm.ruby_version (ascii "2.2.0"))) [
  | inl two ↦ (
    map same_key heap_keys,
    heap_keys-IsKey,
    refl,
    new_stats vm pages (if_true _ _ two) (sym (ap vm.gc_stat (if_true _ _ two)) ∙ p),
    λ heap_size. record {
      keys_lem = refl;
      values_lem = rw two (ground arith);
      size_lem = refl;
      memsize_lem = refl;
    },
  )
  | inr one ↦ (
    renamed,
    renamed-IsKey,
    refl,
    renamed_stats vm pages (if_false _ _ one ∙ if_true _ _ new_enough)
        (sym (ap vm.gc_stat (if_false _ _ one)) ∙ p),
    λ heap_size. record {
      keys_lem = refl;
      values_lem = rw one (ground arith);
      size_lem = refl;
      memsize_lem = refl;
    },
  )
]

-- On Ruby 2.1 and above, if Ruby says how many pages it has, and its two constants, the statistics
-- have the keys that the comment of the method lists, in their order. The three counts, and the 19
-- values of the heap, are what Ruby says under its name for them, which is the key from Ruby 2.2 on
-- and the name of Ruby 2.1 before; the heap's size is the product of the pages, the slots of a page
-- and the size of a slot; and the memory's size is what Ruby says.
pub stat-Documented :
    (vm : VmStats) (pages limit size : ℕ)
    → at_least vm.ruby_version (ascii "2.1.0") ≡ true
    → vm.gc_stat (pages_key vm.ruby_version) ≡ some pages
    → vm.heap_obj_limit ≡ some limit
    → vm.rvalue_size ≡ some size
    → (stats : Stats) × (stat vm ≡ ok stats) × Documented vm (pages * limit * size) stats
stat-Documented vm pages limit size new_enough p l z =
    let (sources, keys, count, e, d) = stat_sources vm pages new_enough p in
    (
      all_stats vm sources (pages * limit * size),
      e ∙ ap (with_size vm sources) (total_heap_size_lem vm pages limit size l z),
      d (pages * limit * size),
    )

-- With nil for one of the two constants, the method raises a TypeError.
stat_nil :
    (vm : VmStats) (pages : ℕ)
    → at_least vm.ruby_version (ascii "2.1.0") ≡ true
    → vm.gc_stat (pages_key vm.ruby_version) ≡ some pages
    → (vm.heap_obj_limit ≡ none) ⊎ (vm.rvalue_size ≡ none)
    → stat vm ≡ raised type_error
stat_nil vm pages new_enough p h =
    let (sources, keys, count, e, d) = stat_sources vm pages new_enough p in
    e ∙ ap (with_size vm sources) (total_heap_size_nil pages _ _ h)
