-- ===== src/ObjectGraph/Collect.antt =====
-- `get_object_dump`: the dump holds every dumped object of the Ruby heap once, in the heap's order.
use rbkit.Prelude.{
  ℕ, ◌<◌, ◌≡◌, length-append, refl, ap, ◌∙◌, Option, none, List, [], ◌∷◌, ◌++◌, length, flatten, ok,
  append_assoc, append-nil, Bool-cases, inl, inr, if◌then◌else◌, arith,
}
use rbkit.Event.{AllocationInfo}
use rbkit.ObjectGraph.Pages.{ObjectData, Heap}
use rbkit.ObjectGraph.Shape.{IsFresh, Built}
use rbkit.ObjectGraph.{
  ObjectDump, RubyObject, is_dumped, object_data, dump_heap_object, heap_obj_i,
  collect_heap_objects, get_object_dump,
}
use rbkit.ObjectGraph.Build.{dump_heap_object_first, dump_heap_object-Built}

-- The slots of the dump for the objects that `heap_obj_i` does not pass over.
abbrev pub dumped : (ℕ → Option AllocationInfo) → List RubyObject → List ObjectData
dumped table [] = []
dumped table (obj ∷ objs) =
    if is_dumped obj then object_data table obj ∷ dumped table objs else dumped table objs

-- The dump before the first object: its counts are indeterminate.
abbrev pub no_objects : ObjectDump
no_objects = record { page_count = none; object_count = none; first = 0; last = 0 }

-- `Built`, or nothing yet.
data Holds (old : Heap) (s : ObjectDump × Heap) (objects : List ObjectData) : Type 0 where
  nothing : objects ≡ [] → s ≡ (no_objects, old) → Holds old s objects
  something : Built old s objects → Holds old s objects

module _ (table : ℕ → Option AllocationInfo) (old : Heap) (f : IsFresh old) where
  dump_heap_object-Holds :
      (obj : RubyObject) (s : ObjectDump × Heap) (objects : List ObjectData)
      → Holds old s objects
      → (s' : ObjectDump × Heap) × (dump_heap_object table obj s ≡ ok s')
        × Holds old s' (objects ++ object_data table obj ∷ [])
  dump_heap_object-Holds obj s objects (nothing e d) =
      let (s', i, b) = dump_heap_object_first old f table obj no_objects refl in
      (s', rw d i, rw e (something b))
  dump_heap_object-Holds obj s objects (something b) =
      let (s', e, b') = dump_heap_object-Built old f table obj s objects b in (s', e, something b')

  heap_obj_i-Holds :
      (objs : List RubyObject) (s : ObjectDump × Heap) (objects : List ObjectData)
      → Holds old s objects
      → (s' : ObjectDump × Heap) × (heap_obj_i table objs s ≡ ok s')
        × Holds old s' (objects ++ dumped table objs)
  unfolding heap_obj_i
  heap_obj_i-Holds [] s objects h = (s, refl, rw (append-nil objects) h)
  heap_obj_i-Holds (obj ∷ objs) s objects h = elim (Bool-cases (is_dumped obj)) [
    | inl e ↦
        let (s₁, d, h₁) = dump_heap_object-Holds obj s objects h in
        let (s', i, h') = heap_obj_i-Holds objs s₁ (objects ++ object_data table obj ∷ []) h₁ in
        (
          s',
          rw (e, d) i,
          rw (e, ← append_assoc objects (object_data table obj ∷ []) (dumped table objs)) h',
        )
    | inr e ↦ let (s', i, h') = heap_obj_i-Holds objs s objects h in (s', rw e i, rw e h')
  ]

  dumped-append :
      (xs ys : List RubyObject) → dumped table (xs ++ ys) ≡ dumped table xs ++ dumped table ys
  dumped-append [] ys = refl
  dumped-append (x ∷ xs) ys = ground (arith, dumped-append xs ys)

  collect_heap_objects-Holds :
      (ranges : List (List RubyObject)) (s : ObjectDump × Heap) (objects : List ObjectData)
      → Holds old s objects
      → (s' : ObjectDump × Heap) × (collect_heap_objects table ranges s ≡ ok s')
        × Holds old s' (objects ++ dumped table (flatten ranges))
  unfolding collect_heap_objects
  collect_heap_objects-Holds [] s objects h = (s, refl, rw (append-nil objects) h)
  collect_heap_objects-Holds (range ∷ ranges) s objects h =
      let (s₁, i, h₁) = heap_obj_i-Holds range s objects h in
      let (s', c, h') = collect_heap_objects-Holds ranges s₁ (objects ++ dumped table range) h₁ in
      (s', rw i c, rw (dumped-append, ← append_assoc) h')

  -- With at least one object to dump, `get_object_dump` succeeds: every object that the filter lets
  -- through stands in the pages once, in the order in which the Ruby VM reports them, the counts
  -- of objects and pages are exact, every page but the last is full and none is empty, and the
  -- rest of the heap is as before.
  pub get_object_dump-Built :
      (ranges : List (List RubyObject))
      → 0 < length (dumped table (flatten ranges))
      → (s : ObjectDump × Heap) × (get_object_dump table ranges old ≡ ok s)
        × Built old s (dumped table (flatten ranges))
  unfolding get_object_dump
  get_object_dump-Built ranges h =
      let (s, e, held) =
        collect_heap_objects-Holds ranges (no_objects, old) [] (nothing refl refl) in
      (s, e, built s held)
    where
      built :
          (s : ObjectDump × Heap)
          → Holds old s (dumped table (flatten ranges))
          → Built old s (dumped table (flatten ranges))
      built s (nothing e d) = absurd (omega (arith, ap length e))
      built s (something b) = b

  -- With no object to dump, the counts of the dump are never set, and no page is allocated.
  pub get_object_dump_nothing :
      (ranges : List (List RubyObject))
      → dumped table (flatten ranges) ≡ []
      → get_object_dump table ranges old ≡ ok (no_objects, old)
  unfolding get_object_dump
  get_object_dump_nothing ranges h =
      let (s, e, held) =
        collect_heap_objects-Holds ranges (no_objects, old) [] (nothing refl refl) in
      e ∙ ap ok (empty s held)
    where
      empty :
          (s : ObjectDump × Heap)
          → Holds old s (dumped table (flatten ranges))
          → s ≡ (no_objects, old)
      empty s (nothing e d) = d
      empty s (something b) = absurd (
          omega (
            arith,
            b.not_empty,
            ap length b.split,
            ap length h,
            length-append (flatten b.full) b.last,
          ))
