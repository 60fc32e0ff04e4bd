-- ===== src/Allocation.antt =====
-- ext/rbkit_allocation_info.c: where each traced object was allocated. The strings are shared and
-- counted (Allocation/Strings); the hash tables are those of Ruby's st.h (Allocation/Table).
pub mod Table
pub mod Strings
pub mod Release
pub mod Counts
pub mod Created
pub mod Removed
pub mod History
pub mod Clear
pub mod Assoc
pub mod Tables
pub mod Dumped
use rbkit.Prelude.{
  ℕ, ◌^◌, Bool, true, false, not, Option, none, some, List, [], ◌∷◌, ltb, if◌then◌else◌, Outcome,
  ok, raised, range_error, ◌>>=◌,
}
use rbkit.Event.{CString, AllocationInfo}
use Table.{StTable}
use Strings.{StringHeap, free_string, Shared, StringPool, make_unique_str, delete_unique_str}

-- rbkit_allocation_info; `path` and `class_path` are addresses of shared strings, 0 for NULL
pub record Info : Type 0 where
  pub path : ℕ
  pub line : ℕ
  pub class_path : ℕ
  pub method_id : ℕ
  pub generation : ℕ

-- What an info says, with its strings read.
abbrev pub info_text : StringHeap → Info → AllocationInfo
info_text h info = record {
  path = h.text_at info.path;
  line = info.line;
  class_path = h.text_at info.class_path;
  method_id = info.method_id;
  generation = info.generation;
}

-- A class as rb_tracearg_defined_class gives it, with its name if Ruby has cached one.
pub record DefinedClass : Type 0 where
  pub is_frozen : Bool
  pub cached_path : Option (List ℕ)

-- What Ruby reports of an allocation; `path` is none for nil.
pub record TraceArg : Type 0 where
  pub object : ℕ
  pub path : Option (List ℕ)
  pub line : ℕ
  pub method_id : ℕ
  pub defined_class : Option DefinedClass
  pub gc_count : ℕ

-- class_path: nil for a frozen class
unfoldable pub class_path_of : TraceArg → Option (List ℕ)
class_path_of arg = elim arg.defined_class [
  | none ↦ none
  | some c ↦ if c.is_frozen then none else c.cached_path
]

-- free_keys_i for each entry of str_table
unfoldable pub free_keys : List (CString × Shared) → StringHeap → Outcome StringHeap
free_keys [] h = ok h
free_keys ((_, e) ∷ es) h = do h' ← free_string h e.key; free_keys es h'

module _ ⦃strings : StTable CString Shared⦄ ⦃objects : StTable ℕ Info⦄ where
  -- str_table with its strings, and object_table with its infos
  pub record Allocations : Type 0 where
    pub str_table : StringPool
    pub object_table : objects.Table

  -- The references of an info that is replaced or deleted.
  unfoldable pub release : Option Info → StringPool → Outcome StringPool
  release none p = ok p
  release (some info) p = do
    p' ← delete_unique_str info.path p
    delete_unique_str info.class_path p'

  -- NUM2INT raises for a line that does not fit an int.
  unfoldable pub new_rbkit_allocation_info : TraceArg → Allocations → Outcome (Info × Allocations)
  unfolding class_path_of release
  new_rbkit_allocation_info arg a = do
    let (path_cstr, p₁) = make_unique_str arg.path a.str_table
    let (class_path_cstr, p₂) = make_unique_str (class_path_of arg) p₁
    p₃ ← release (objects.find a.object_table arg.object) p₂
    let info : Info = record {
      path = path_cstr;
      line = arg.line;
      class_path = class_path_cstr;
      method_id = arg.method_id;
      generation = arg.gc_count;
    }
    if ltb arg.line (2 ^ 31)
        then ok (
          info,
          record { str_table = p₃; object_table = objects.insert a.object_table arg.object info },
        )
        else raised range_error

  unfoldable pub delete_found : ℕ → Option Info → Allocations → Outcome Allocations
  unfolding release
  delete_found obj none a = ok a
  delete_found obj (some info) a = do
    p ← release (some info) a.str_table
    ok (record { str_table = p; object_table = objects.remove a.object_table obj })

  unfoldable pub delete_rbkit_allocation_info : ℕ → Allocations → Outcome Allocations
  unfolding delete_found
  delete_rbkit_allocation_info obj a = delete_found obj (objects.find a.object_table obj) a

  -- What get_trace_logger makes: tables with no entries.
  unfoldable pub new_tables : StringHeap → Allocations
  new_tables h = record {
    str_table = record { heap = h; table = strings.empty };
    object_table = objects.empty;
  }

  -- The tables when the server stops. The infos are the values of object_table.
  unfoldable pub clear_tables : Allocations → Outcome Allocations
  unfolding free_keys new_tables
  clear_tables a = do
    h ← free_keys (strings.entries a.str_table.table) a.str_table.heap
    ok (new_tables h)
