-- ===== src/ObjectGraph.antt =====
-- ext/rbkit_object_graph.h and ext/rbkit_object_graph.c: the dump of the Ruby heap as a linked list of
-- pages. The pages are those of ObjectGraph/Pages.antt.
pub mod Pages
pub mod Shape
pub mod Build
pub mod Collect
use rbkit.Prelude.{
  ℕ, zero, suc, ◌+◌, Bool, true, false, Option, none, some, List, [], ◌∷◌, ◌++◌, length, set,
  get_elem?, ltb, ◌==◌, ◌&&◌, not, if◌then◌else◌, Outcome, ok, fault, ◌>>=◌,
}
use rbkit.Event.{CString, AllocationInfo}
use rbkit.ObjectGraph.Pages.{
  page_size, References, null, freed, array, ObjectData, Page, Heap, write, load, set_slot,
  rbkit_object_dump_page_new,
}

-- rbkit_object_dump; the counts are indeterminate (`none`) until the first object
pub record ObjectDump : Type 0 where
  pub page_count : Option ℕ
  pub object_count : Option ℕ
  pub first : ℕ
  pub last : ℕ

-- The fields that `initialize_object_data` sets. The caller sets `object_id` at once.
unfoldable pub blank : ℕ → ObjectData
blank id = record {
  object_id = id;
  class_name = none;
  references = null;
  reference_count = 0;
  file = none;
  line = 0;
  size = 0;
}

abbrev pub add_one : Option ℕ → Option ℕ
add_one none = none
add_one (some n) = some (n + 1)

-- The page that the next object goes to, which is a new one if there is none or the last is full.
unfoldable pub initialize_object_data : ObjectDump → Heap → Outcome (ObjectDump × Heap)
unfolding rbkit_object_dump_page_new load write
initialize_object_data dump h =
    if dump.first == 0
    then (let (page, h') = rbkit_object_dump_page_new h in
        ok (record { page_count = some 1; object_count = some 0; first = page; last = page }, h'))
    else do
      last ← load h dump.last
      if last.count == page_size
          then (let (page, h') = rbkit_object_dump_page_new h in
              ok (
                record dump { page_count = add_one dump.page_count; last = page },
                write h' dump.last (some (record last { next = page })),
              ))
          else ok (dump, h)

-- BUILTIN_TYPE(obj), as far as the code tells the types apart
pub data BuiltinType : Type 0 where
  t_none t_zombie t_iclass t_imemo t_other : BuiltinType

-- What the Ruby VM reports of an object that refers from another: its id, and whether it is its
-- own class.
pub record Reference : Type 0 where
  pub object_id : ℕ
  pub is_own_class : Bool

-- What the Ruby VM reports of a slot of its heap.
pub record RubyObject : Type 0 where
  pub value : ℕ
  pub object_id : ℕ
  pub klass_nil : Bool
  pub builtin_type : BuiltinType
  pub class_name : CString
  pub reachable : List Reference
  pub memsize : ℕ

-- set_size
unfoldable pub set_size : RubyObject → ObjectData → ObjectData
set_size obj data' = if ltb 0 obj.memsize then record data' { size = obj.memsize } else data'

abbrev pub push_reference : ℕ → References → References
push_reference id (array ids) = array (ids ++ id ∷ [])
push_reference id _ = array (id ∷ [])

-- reachable_object_i, called on each object reachable from the dumped one
unfoldable pub reachable_object_i : ObjectData → Reference → ObjectData
reachable_object_i data' ref = if ref.is_own_class then data' else record data' {
  reference_count = data'.reference_count + 1;
  references = push_reference ref.object_id data'.references;
}

unfoldable pub reachable_objects : ObjectData → List Reference → ObjectData
unfolding reachable_object_i
reachable_objects data' [] = data'
reachable_objects data' (ref ∷ refs) = reachable_objects (reachable_object_i data' ref) refs

abbrev pub set_location : Option AllocationInfo → ObjectData → ObjectData
set_location none data' = data'
set_location (some info) data' = record data' { file = info.path; line = info.line }

-- The slot as `dump_heap_object` fills it; `table` is a lookup in `dump->object_table`.
unfoldable pub object_data : (ℕ → Option AllocationInfo) → RubyObject → ObjectData
unfolding set_size reachable_objects blank
object_data table obj = set_size obj (
    set_location (table obj.value) (
      reachable_objects (record (blank obj.object_id) { class_name = some obj.class_name })
        obj.reachable))

unfoldable pub dump_heap_object :
    (ℕ → Option AllocationInfo) → RubyObject → ObjectDump × Heap → Outcome (ObjectDump × Heap)
unfolding initialize_object_data set_slot
dump_heap_object table obj (dump, h) = do
  (dump', h') ← initialize_object_data dump h
  page ← load h' dump'.last
  page' ← set_slot page page.count (object_data table obj)
  ok (
    record dump' { object_count = add_one dump'.object_count },
    write h' dump'.last (some (record page' { count = page'.count + 1 })),
  )

abbrev pub is_dumped_type : BuiltinType → Bool
is_dumped_type t_other = true
is_dumped_type _ = false

-- The test of `heap_obj_i`, on Ruby 2.3 and above.
unfoldable pub is_dumped : RubyObject → Bool
is_dumped obj = not obj.klass_nil && is_dumped_type obj.builtin_type

-- heap_obj_i over the slots of one range of the heap
unfoldable pub heap_obj_i :
    (ℕ → Option AllocationInfo) → List RubyObject → ObjectDump × Heap → Outcome (ObjectDump × Heap)
unfolding is_dumped
heap_obj_i table [] s = ok s
heap_obj_i table (obj ∷ objs) s =
    (if is_dumped obj then dump_heap_object table obj s else ok s) >>= heap_obj_i table objs

-- collect_heap_objects; the Ruby VM calls back once for each range
unfoldable pub collect_heap_objects :
    (ℕ → Option AllocationInfo)
    → List (List RubyObject)
    → ObjectDump × Heap
    → Outcome (ObjectDump × Heap)
collect_heap_objects table [] s = ok s
collect_heap_objects table (range ∷ ranges) s =
    heap_obj_i table range s >>= collect_heap_objects table ranges

unfoldable pub get_object_dump :
    (ℕ → Option AllocationInfo) → List (List RubyObject) → Heap → Outcome (ObjectDump × Heap)
get_object_dump table ranges h =
    collect_heap_objects table ranges
      (record { page_count = none; object_count = none; first = 0; last = 0 }, h)
