-- ===== src/Allocation/Dumped.antt =====
-- The dump of the object space reads the allocation tables.
use rbkit.Prelude.{
  ℕ, ◌+◌, ◌^◌, ◌<◌, ◌≤◌, ◌≡◌, refl, ap, ◌∙◌, Bool, true, false, Bool-cases, inl, inr, ltb, Option,
  none, some, List, [], ◌∷◌, map, length, flatten, All, ok, if◌then◌else◌, if_true, if_false,
}
use rbkit.Event.{CString, AllocationInfo}
use rbkit.ObjectGraph.Shape.{IsFresh, Built}
use rbkit.ObjectGraph.Pages.{ObjectData, Heap}
use rbkit.ObjectGraph.{
  ObjectDump, Reference, RubyObject, is_dumped, set_size, set_location, push_reference, blank,
  reachable_object_i, reachable_objects, object_data, get_object_dump,
}
use rbkit.ObjectGraph.Collect.{dumped, get_object_dump-Built}
use rbkit.Allocation.{Info, Allocations}
use rbkit.Allocation.Table.{StTable}
use rbkit.Allocation.Strings.{Shared}
use rbkit.Allocation.Counts.{allocation_of}
use rbkit.Allocation.History.{
  no_allocations, Action, HasIntLine, replay, act_all, tables_after-Holds,
}

-- An object, with the file and line where it was allocated: NULL and 0 where that is not known.
abbrev pub Location : Type 0
Location = ℕ × Option CString × ℕ

abbrev location_of : ℕ → Option AllocationInfo → Location
location_of id none = (id, none, 0)
location_of id (some info) = (id, info.path, info.line)

-- What the table says of the objects of the heap that are dumped.
abbrev pub locations : (ℕ → Option AllocationInfo) → List RubyObject → List Location
locations table [] = []
locations table (obj ∷ objs) =
    if is_dumped obj
    then location_of obj.object_id (table obj.value) ∷ locations table objs
    else locations table objs

-- What a slot of the dump says.
abbrev pub recorded : ObjectData → Location
recorded d = (d.object_id, d.file, d.line)

reachable_objects-recorded :
    (refs : List Reference) (d : ObjectData) → recorded (reachable_objects d refs) ≡ recorded d
unfolding reachable_objects
reachable_objects-recorded [] d = refl
reachable_objects-recorded (ref ∷ refs) d =
    reachable_objects-recorded refs (reachable_object_i d ref) ∙ one ref.is_own_class
  where
    one :
        (b : Bool)
        → recorded (
            if b then d else record d {
              reference_count = d.reference_count + 1;
              references = push_reference ref.object_id d.references;
            })
          ≡ recorded d
    one true = refl
    one false = refl

set_size-recorded : (obj : RubyObject) (d : ObjectData) → recorded (set_size obj d) ≡ recorded d
unfolding set_size
set_size-recorded obj d = elim (Bool-cases (ltb 0 obj.memsize)) [
  | inl e ↦ ap recorded (if_true _ _ e)
  | inr e ↦ ap recorded (if_false _ _ e)
]

set_location-recorded :
    (found : Option AllocationInfo) (id : ℕ) (d : ObjectData)
    → recorded d ≡ (id, none, 0)
    → recorded (set_location found d) ≡ location_of id found
set_location-recorded none id d e = e
set_location-recorded (some info) id d e = ap (λ (p : Location). (p.0, info.path, info.line)) e

object_data-recorded :
    (table : ℕ → Option AllocationInfo) (obj : RubyObject)
    → recorded (object_data table obj) ≡ location_of obj.object_id (table obj.value)
unfolding object_data blank
object_data-recorded table obj =
    set_size-recorded obj _
    ∙ set_location-recorded (table obj.value) obj.object_id _ (
        reachable_objects-recorded obj.reachable
          (record (blank obj.object_id) { class_name = some obj.class_name }))

dumped-recorded :
    (table : ℕ → Option AllocationInfo) (objs : List RubyObject)
    → map recorded (dumped table objs) ≡ locations table objs
dumped-recorded table [] = refl
dumped-recorded table (obj ∷ objs) = elim (Bool-cases (is_dumped obj)) [
  | inl e ↦ rw (e, object_data-recorded table obj, dumped-recorded table objs) refl
  | inr e ↦ rw (e, dumped-recorded table objs) refl
]

module _ ⦃strings : StTable CString Shared⦄ ⦃objects : StTable ℕ Info⦄ where
  -- After at most 2 ^ 62 allocations, whose lines fit an int, and frees from an empty table, a dump
  -- of at least one object succeeds, on a heap of which only the used addresses hold pages: it
  -- holds each dumped object once, in order, with its id and the file and line that the last
  -- allocation of that object reported, if the object was not freed since, and else with none.
  pub get_object_dump_after :
      (xs : List Action)
      → All HasIntLine xs
      → length xs ≤ 2 ^ 62
      → (old : Heap) → IsFresh old
      → (ranges : List (List RubyObject))
      → 0 < length (dumped (replay xs (λ j. none)) (flatten ranges))
      → (a : Allocations) × (act_all xs no_allocations ≡ ok a)
        × ((s : ObjectDump × Heap) × (get_object_dump (allocation_of a) ranges old ≡ ok s)
            × Built old s (dumped (replay xs (λ j. none)) (flatten ranges)))
        × (map recorded (dumped (replay xs (λ j. none)) (flatten ranges))
            ≡ locations (replay xs (λ j. none)) (flatten ranges))
  get_object_dump_after xs fit few old f ranges some_dumped =
      let (a, q, h) = tables_after-Holds xs fit few in
      let (s, q', b) = get_object_dump-Built (replay xs (λ j. none)) old f ranges some_dumped in
      (
        a,
        q,
        (s, ap (λ t. get_object_dump t ranges old) (λ i j. h.table j i) ∙ q', b),
        dumped-recorded _ (flatten ranges),
      )
