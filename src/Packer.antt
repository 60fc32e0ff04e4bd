-- ===== src/Packer.antt =====
-- ext/rbkit_event_packer.c: `pack_event`, which clears the buffer of the packer and packs one event.
-- The packers of the single events stand here and in the modules below.
pub mod Calls
pub mod Hash
pub mod Sample
pub mod Dump
pub mod Frames
pub mod Pieces
pub mod Messages
pub mod HashFrames
pub mod SampleFrames
pub mod Errors
pub mod Cursor
pub mod DumpObjects
pub mod Walk
pub mod DumpCalls
pub mod DumpFrames
use rbkit.Prelude.{
  ℕ, ◌+◌, ◌%◌, ◌^◌, List, [], ◌∷◌, ◌++◌, ◌==◌, if◌then◌else◌, Outcome, ok, raised, fault,
  not_implemented, ◌>>=◌,
}
use rbkit.Memory.{copy_out}
use rbkit.Time.{Timeval}
use rbkit.Event.{
  ObjCreatedEvent, ObjDestroyedEvent, HashEvent, ObjectSpaceDumpEvent, CpuSampleEvent,
  EventCollectionEvent, Event, header, created, destroyed, hash, dump, sample, collection,
  event_type_of,
}
use rbkit.Event.Codes.{
  EventType, code, obj_created, obj_destroyed, gc_start, gc_end_m, gc_end_s, object_space_dump,
  gc_stats, event_collection, handshake, cpu_sample, payload, object_id, class_name,
  message_counter,
}
use rbkit.ObjectGraph.Pages.{Heap}
use rbkit.Msgpack.{Call, Msgpack, pack_unsigned, pack_array, pack_map}
use rbkit.Msgpack.Reader.{wire}
use Calls.{key, pack_string, pack_event_header}
use Hash.{pack_hash_event}
use Sample.{pack_cpu_sample_event}
use Dump.{pack_object_space_dump_event}

-- What packing reads and changes besides the buffer: the static `message_counter`, and the pages.
pub record PackerState : Type 0 where
  pub counter : ℕ
  pub heap : Heap

-- get_message_counter
unfoldable pub get_message_counter : PackerState → ℕ × PackerState
get_message_counter s = (s.counter, record s { counter = (s.counter + 1) % 2 ^ 64 })

module _ ⦃m : Msgpack⦄ where
  open m use {Double}

  -- A packed event: the calls on the packer, the bytes that were copied into the buffer behind
  -- them, the event as it is left, and the state.
  pub record Packed : Type 0 where
    pub calls : List (Call Double)
    pub raw : List ℕ
    pub event : Event Double
    pub state : PackerState

  -- The bytes of the buffer afterwards.
  abbrev pub contents : Packed → List ℕ
  contents p = wire p.calls p.raw

  unfoldable pub pack_obj_created_event : Timeval → ObjCreatedEvent → Outcome (List (Call Double))
  unfolding pack_event_header
  pack_obj_created_event tv e = do
    name ← pack_string e.klass
    ok (
        pack_map 3
        ∷ (pack_event_header tv e.event_type
            ++ (key payload
                ∷ pack_map 2
                ∷ key object_id
                ∷ pack_unsigned e.object_id
                ∷ key class_name
                ∷ name)))

  unfoldable pub pack_obj_destroyed_event : Timeval → ObjDestroyedEvent → List (Call Double)
  unfolding pack_event_header
  pack_obj_destroyed_event tv e =
      pack_map 3
      ∷ (pack_event_header tv e.event_type
          ++ (key payload ∷ pack_map 1 ∷ key object_id ∷ pack_unsigned e.object_id ∷ []))

  unfoldable pub pack_event_header_only : Timeval → ℕ → List (Call Double)
  unfolding pack_event_header
  pack_event_header_only tv t = pack_map 2 ∷ pack_event_header tv t

  -- The array's elements are copied behind the calls as they are.
  unfoldable pub pack_event_collection_event :
      Timeval
      → EventCollectionEvent
      → PackerState
      → Outcome (List (Call Double) × List ℕ × PackerState)
  unfolding pack_event_header get_message_counter
  pack_event_collection_event tv e s = do
    let (counter, s') = get_message_counter s
    raw ← copy_out e.buffer e.buffer_size
    ok (
      pack_map 4
          ∷ (pack_event_header tv e.event_type
              ++ (key message_counter
                  ∷ pack_unsigned counter
                  ∷ key payload
                  ∷ pack_array e.message_count
                  ∷ [])),
      raw,
      s',
    )

  -- The casts of `pack_event`. An event whose structure is not that of its type is outside the model,
  -- and comes out as a fault, also where the two structures have the same layout.
  as_created : Event Double → Outcome ObjCreatedEvent
  as_created (created e) = ok e
  as_created _ = fault

  as_destroyed : Event Double → Outcome ObjDestroyedEvent
  as_destroyed (destroyed e) = ok e
  as_destroyed _ = fault

  as_hash : Event Double → Outcome (HashEvent Double)
  as_hash (hash e) = ok e
  as_hash _ = fault

  unfoldable pub as_dump : Event Double → Outcome ObjectSpaceDumpEvent
  as_dump (dump e) = ok e
  as_dump _ = fault

  as_sample : Event Double → Outcome CpuSampleEvent
  as_sample (sample e) = ok e
  as_sample _ = fault

  as_collection : Event Double → Outcome EventCollectionEvent
  as_collection (collection e) = ok e
  as_collection _ = fault

  packed : Event Double → PackerState → List (Call Double) → Outcome Packed
  packed e s cs = ok (record { calls = cs; raw = []; event = e; state = s })

  unfoldable pub pack_event : Timeval → Event Double → PackerState → Outcome Packed
  unfolding event_type_of code as_created as_destroyed as_hash as_dump as_sample as_collection
      packed
  pack_event tv e s =
      let t = event_type_of e in
      if t == code obj_created
      then (do c ← as_created e; cs ← pack_obj_created_event tv c; packed e s cs)
      else if t == code obj_destroyed
      then (do d ← as_destroyed e; packed e s (pack_obj_destroyed_event tv d))
      else if t == code gc_start
      then packed e s (pack_event_header_only tv t)
      else if t == code gc_end_m
      then packed e s (pack_event_header_only tv t)
      else if t == code gc_end_s
      then packed e s (pack_event_header_only tv t)
      else if t == code object_space_dump
      then (do
        d ← as_dump e
        (cs, d', heap') ← pack_object_space_dump_event tv d s.heap
        packed (dump d') (record s { heap = heap' }) cs)
      else if t == code gc_stats
      then (do h ← as_hash e; cs ← pack_hash_event tv h; packed e s cs)
      else if t == code handshake
      then (do h ← as_hash e; cs ← pack_hash_event tv h; packed e s cs)
      else if t == code cpu_sample
      then (do c ← as_sample e; cs ← pack_cpu_sample_event tv c; packed e s cs)
      else if t == code event_collection
      then (do
        c ← as_collection e
        (cs, raw, s') ← pack_event_collection_event tv c s
        ok (record { calls = cs; raw = raw; event = e; state = s' }))
      else raised not_implemented
