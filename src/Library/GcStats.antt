-- ===== src/Library/GcStats.antt =====
-- lib/rbkit/rbkit_gc.rb: the statistics of Ruby's collector under the names of Ruby 2.2. Versions
-- are compared as texts, as the source compares them.
use rbkit.Prelude.{
  ℕ, ◌*◌, pos, Bool, true, false, Option, none, some, List, [], ◌∷◌, ◌++◌, map, ascii, ltb, ◌==◌,
  ◌&&◌, ◌||◌, if◌then◌else◌, Outcome, ok, raised, no_method_error, type_error, ◌^◌, suc, ◌>>=◌,
}
use rbkit.Event.{CString, RubyValue, fixnum, other}
use rbkit.Allocation.Tables.{same_bytes}
use rbkit.Tracing.Sockets.{digits}

-- `>=` on texts.
unfoldable pub at_least : CString → CString → Bool
at_least xs [] = true
at_least [] (y ∷ ys) = false
at_least (x ∷ xs) (y ∷ ys) = ltb y x || (x == y && at_least xs ys)

-- The keys that are copied as they are, and on Ruby 2.2.
abbrev pub counts : List CString
counts = ascii "count" ∷ ascii "minor_gc_count" ∷ ascii "major_gc_count" ∷ []

-- Keys of Ruby 2.2, and what Ruby 2.1 calls them.
abbrev pub renamed : List (CString × CString)
renamed =
    (ascii "heap_allocated_pages", ascii "heap_used")
    ∷ (ascii "heap_eden_pages", ascii "heap_eden_page_length")
    ∷ (ascii "heap_tomb_pages", ascii "heap_tomb_page_length")
    ∷ (ascii "heap_allocatable_pages", ascii "heap_increment")
    ∷ (ascii "heap_sorted_length", ascii "heap_length")
    ∷ (ascii "heap_live_slots", ascii "heap_live_slot")
    ∷ (ascii "heap_free_slots", ascii "heap_free_slot")
    ∷ (ascii "heap_final_slots", ascii "heap_final_slot")
    ∷ (ascii "heap_swept_slots", ascii "heap_swept_slot")
    ∷ (ascii "old_objects", ascii "old_object")
    ∷ (ascii "old_objects_limit", ascii "old_object_limit")
    ∷ (ascii "total_allocated_objects", ascii "total_allocated_object")
    ∷ (ascii "total_freed_objects", ascii "total_freed_object")
    ∷ (ascii "malloc_increase_bytes", ascii "malloc_increase")
    ∷ (ascii "malloc_increase_bytes_limit", ascii "malloc_limit")
    ∷ (ascii "oldmalloc_increase_bytes", ascii "oldmalloc_increase")
    ∷ (ascii "oldmalloc_increase_bytes_limit", ascii "oldmalloc_limit")
    ∷ (ascii "remembered_wb_unprotected_objects", ascii "remembered_shady_object")
    ∷ (ascii "remembered_wb_unprotected_objects_limit", ascii "remembered_shady_object_limit")
    ∷ []

abbrev pub heap_keys : List CString
heap_keys =
    ascii "heap_allocated_pages"
    ∷ ascii "heap_eden_pages"
    ∷ ascii "heap_tomb_pages"
    ∷ ascii "heap_allocatable_pages"
    ∷ ascii "heap_sorted_length"
    ∷ ascii "heap_live_slots"
    ∷ ascii "heap_free_slots"
    ∷ ascii "heap_final_slots"
    ∷ ascii "heap_swept_slots"
    ∷ ascii "old_objects"
    ∷ ascii "old_objects_limit"
    ∷ ascii "total_allocated_objects"
    ∷ ascii "total_freed_objects"
    ∷ ascii "malloc_increase_bytes"
    ∷ ascii "malloc_increase_bytes_limit"
    ∷ ascii "oldmalloc_increase_bytes"
    ∷ ascii "oldmalloc_increase_bytes_limit"
    ∷ ascii "remembered_wb_unprotected_objects"
    ∷ ascii "remembered_wb_unprotected_objects_limit"
    ∷ []

-- What Ruby says: its version, GC.stat, the two constants and ObjectSpace.memsize_of_all. A key
-- that GC.stat has not, and a constant that GC::INTERNAL_CONSTANTS has not, is none, for nil.
pub record VmStats : Type 0 where
  pub ruby_version : CString
  pub gc_stat : CString → Option ℕ
  pub heap_obj_limit : Option ℕ
  pub rvalue_size : Option ℕ
  pub memsize_of_all : ℕ

abbrev pub Stats : Type 0
Stats = List (CString × Option ℕ)

-- stats[key], and nil where there is no such key
unfoldable pub lookup : CString → Stats → Option ℕ
lookup key [] = none
lookup key ((k, v) ∷ stats) = if same_bytes key k then v else lookup key stats

unfoldable pub copied : (CString → Option ℕ) → List (CString × CString) → Stats
copied data_of [] = []
copied data_of ((key, source) ∷ keys) = (key, data_of source) ∷ copied data_of keys

abbrev pub same_key : CString → CString × CString
same_key key = (key, key)

-- The new keys and those that they are read from.
unfoldable pub heap_sources : CString → List (CString × CString)
unfolding at_least
heap_sources version =
    if at_least version (ascii "2.2.0")
    then map same_key heap_keys
    else if at_least version (ascii "2.1.0")
    then renamed
    else []

-- nil has no method `*`: the `rescue` of the source does not see that.
-- A product with nil is a TypeError.
unfoldable pub total_heap_size : Option ℕ → Option ℕ → Option ℕ → Outcome ℕ
total_heap_size none limit size = raised no_method_error
total_heap_size (some pages) none size = raised type_error
total_heap_size (some pages) (some limit) none = raised type_error
total_heap_size (some pages) (some limit) (some size) = ok (pages * limit * size)

-- The keys are all different, so that each assignment appends an entry.
unfoldable pub stat : VmStats → Outcome Stats
unfolding heap_sources copied lookup total_heap_size
stat vm = do
  let stats = copied vm.gc_stat (map same_key counts ++ heap_sources vm.ruby_version)
  size ←
      total_heap_size (lookup (ascii "heap_allocated_pages") stats) vm.heap_obj_limit vm.rvalue_size
  ok (
      stats
      ++ ((ascii "total_heap_size", some size)
          ∷ (ascii "total_memsize", some vm.memsize_of_all)
          ∷ []))

-- The hash as the extension sees it; nil is packed as an empty text, and a number of 2 ^ 62 or more,
-- which is no Fixnum, as its decimal digits.
unfoldable pub ruby_value : {D : Type 0} → Option ℕ → RubyValue D
unfolding digits
ruby_value none = other []
ruby_value (some n) = if ltb n (2 ^ 62) then fixnum (pos n) else other (digits (suc n) n)

unfoldable pub ruby_hash : {D : Type 0} → Stats → List (RubyValue D × RubyValue D)
unfolding ruby_value
ruby_hash [] = []
ruby_hash ((key, v) ∷ stats) = (other key, ruby_value v) ∷ ruby_hash stats
