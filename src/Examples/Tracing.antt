-- ===== src/Examples/Tracing.antt =====
-- Objects that are made, freed and dumped, at concrete inputs.
use rbkit.Prelude.{◌<◌, ◌≡◌, ap, false, none, List, [], ◌∷◌, map, length, flatten, ok, arith}
use rbkit.Event.{
  AllocationInfo, created, destroyed, new_rbkit_obj_created_event, new_rbkit_obj_destroyed_event,
  event_type_of,
}
use rbkit.Event.Codes.{code}
use rbkit.Aggregator.{unset}
use rbkit.Aggregator.Refine.{message_list_new-Represents}
use rbkit.Allocation.{Info, Allocations}
use rbkit.Allocation.Counts.{allocation_of}
use rbkit.Allocation.Created.{Recorded}
use rbkit.Allocation.Removed.{Forgotten}
use rbkit.Allocation.History.{no_allocations, Action, replay, act_all}
use rbkit.Allocation.Dumped.{recorded, locations, get_object_dump_after}
use rbkit.Allocation.Tables.{object_table, str_table}
use rbkit.Msgpack.Wire.{message_pack, encode, big_endian}
use rbkit.Msgpack.Reader.{wire}
use rbkit.ObjectGraph.{ObjectDump, t_other, get_object_dump, is_dumped}
use rbkit.ObjectGraph.Pages.{Heap}
use rbkit.ObjectGraph.Shape.{Built}
use rbkit.ObjectGraph.Collect.{dumped}
use rbkit.Packer.{pack_event, pack_obj_created_event, pack_obj_destroyed_event}
use rbkit.Packer.Calls.{pack_event_header, pack_string, int_as_size}
use rbkit.Packer.Frames.{obj_created_frame, obj_destroyed_frame}
use rbkit.Packer.Pieces.{Packable}
use rbkit.Server.{Server}
use rbkit.Server.Hooks.{Fits, Delivered}
use rbkit.Server.Objects.{
  NewObject, name_seen, newobj_i, freeobj_i, newobj_i-Delivered, freeobj_i-Delivered,
}
use rbkit.Examples.Sending.{midnight, new_server, packed_bytes}
use rbkit.Examples.Dumping.{ruby_heap, empty_heap, empty_heap-IsFresh}
use rbkit.Examples.Allocating.{first_report, one_object, one_object-IsValid, one_object-few}

-- The object is allocated once more, at the same address.
abbrev new_object : NewObject
new_object = record {
  trace = first_report;
  object_id = 8;
  klass_nil = false;
  builtin_type = t_other;
  klass_name = 65 ∷ [];
}

new_object_name : Packable (name_seen new_object)
new_object_name = omega arith

created-Fits :
    (info : AllocationInfo)
    → Fits midnight
        (created (new_rbkit_obj_created_event 8 (name_seen new_object) info))
        new_server
        []
unfolding pack_event pack_obj_created_event pack_event_header pack_string int_as_size wire
    message_pack encode big_endian event_type_of code new_rbkit_obj_created_event
created-Fits info p e = omega (arith, ap packed_bytes e)

destroyed-Fits : Fits midnight (destroyed (new_rbkit_obj_destroyed_event 8)) new_server []
unfolding pack_event pack_obj_destroyed_event pack_event_header wire message_pack encode big_endian
    event_type_of code new_rbkit_obj_destroyed_event
destroyed-Fits p e = omega (arith, ap packed_bytes e)

newobj_i-Delivered_example :
    (info : Info) × (s' : Server) × (a' : Allocations) × (newobj_i midnight new_object new_server
        one_object
      ≡ ok (s', a'))
    × Recorded first_report one_object info a'
    × Delivered new_server [] (obj_created_frame midnight 8 (name_seen new_object)) s'
newobj_i-Delivered_example =
    newobj_i-Delivered midnight new_server [] (message_list_new-Represents unset) (omega arith)
      one_object one_object-IsValid one_object-few new_object (omega arith) (omega arith)
      new_object_name created-Fits

freeobj_i-Delivered_example :
    (s' : Server) × (a' : Allocations) × (freeobj_i midnight 16 8 new_server one_object
      ≡ ok (s', a'))
    × Forgotten 16 one_object a'
    × Delivered new_server [] (obj_destroyed_frame midnight 8) s'
freeobj_i-Delivered_example =
    freeobj_i-Delivered midnight new_server [] (message_list_new-Represents unset) (omega arith)
      one_object one_object-IsValid one_object-few 16 8 (omega arith) destroyed-Fits

-- The set in the heap was made last by the method that is reported.
abbrev set_reports : List Action
set_reports = Action.freed 1000 ∷ Action.created (record first_report { object = 1000 }) ∷ []

heap_dumped : 0 < length (dumped (replay set_reports (λ j. none)) (flatten ruby_heap))
unfolding is_dumped
heap_dumped = omega arith

get_object_dump_after_example :
    (a : Allocations) × (act_all set_reports no_allocations ≡ ok a)
    × ((s : ObjectDump × Heap) × (get_object_dump (allocation_of a) ruby_heap empty_heap ≡ ok s)
        × Built empty_heap s (dumped (replay set_reports (λ j. none)) (flatten ruby_heap)))
    × (map recorded (dumped (replay set_reports (λ j. none)) (flatten ruby_heap))
        ≡ locations (replay set_reports (λ j. none)) (flatten ruby_heap))
get_object_dump_after_example =
    get_object_dump_after set_reports (tt, (omega arith, tt)) (omega arith) empty_heap
      empty_heap-IsFresh ruby_heap heap_dumped
