-- ===== src/Packer/DumpFrames.antt =====
-- One message of an object space dump: up to 1000 objects from the cursor on.
use rbkit.Prelude.{
  ℕ, ◌^◌, ◌<◌, ◌≡◌, refl, ◌∙◌, List, [], ◌++◌, length, drop, take, ok, some, arith, All,
  take-append-drop, length-append,
}
use rbkit.Time.{Timeval}
use rbkit.Event.{ObjectSpaceDumpEvent, dump}
use rbkit.Event.Codes
use rbkit.Event.Codes.{code}
use rbkit.ObjectGraph.Pages.{ObjectData, Heap}
use rbkit.Msgpack.{Call, Msgpack}
use rbkit.Msgpack.Reader.{wire, read}
use rbkit.Msgpack.Parses.{wire_rest}
use rbkit.Packer.{PackerState, Packed, contents, pack_event}
use rbkit.Packer.Dump.{
  max_object_dumps_in_message, pack_objects, objects_in_batch, pack_object_space_dump_event,
}
use rbkit.Packer.Walk.{Advanced}
use rbkit.Packer.DumpObjects.{PackableObject}
use rbkit.Packer.Frames.{object_space_dump_frame}
use rbkit.Packer.Messages.{message_depth}
use rbkit.Packer.DumpCalls.{
  batch_small, Pending, objects_in_batch-Pending, All-append, objects_calls, pack_objects-At,
  dump_calls, dump_calls-Packs,
}

module _ ⦃m : Msgpack⦄ where
  open m use {Double}

  -- What one message of a dump does: it packs and reads as the frame with the next objects, and
  -- leaves the event before the others.
  pub record Sent (tv : Timeval) (old : Heap) (e : ObjectSpaceDumpEvent) (s : PackerState)
      (front back : List ObjectData) (p : Packed) : Type 0 where
    pub event' : ObjectSpaceDumpEvent
    pub event_lem : p.event ≡ dump event'
    pub pending : Pending old event' p.state.heap back
    pub advanced : Advanced (length front) e event'
    pub counter_lem : p.state.counter ≡ s.counter
    pub contents_lem : contents p ≡ wire (dump_calls tv e.correlation_id e.object_count front) []
    pub reads :
        (rest : List ℕ)
        → read message_depth (contents p ++ rest)
          ≡ some (object_space_dump_frame tv e.correlation_id e.object_count front, rest)

  pub dump_calls-reads :
      (tv : Timeval) (correlation count : ℕ) (ds : List ObjectData) (rest : List ℕ)
      → All PackableObject ds
      → correlation < 2 ^ 31
      → count < 2 ^ 64
      → length ds < 2 ^ 32
      → read message_depth (wire (dump_calls tv correlation count ds) [] ++ rest)
        ≡ some (object_space_dump_frame tv correlation count ds, rest)
  dump_calls-reads tv correlation count ds rest h c n l =
      rw (wire_rest (dump_calls tv correlation count ds) [] rest)
        ((dump_calls-Packs tv correlation count ds h c n l rest).at)

  pack_event-dump :
      (tv : Timeval) (e e' : ObjectSpaceDumpEvent) (s : PackerState) (cs : List (Call Double))
      (h' : Heap)
      → e.event_type ≡ code Codes.object_space_dump
      → pack_object_space_dump_event tv e s.heap ≡ ok (cs, e', h')
      → pack_event tv (dump e) s
        ≡ ok (record { calls = cs; raw = []; event = dump e'; state = record s { heap = h' } })
  unfolding pack_event
  pack_event-dump tv e e' s cs h' t q = ground (arith, t, q)

  pack_object_space_dump_event_lem :
      (tv : Timeval) (e e' : ObjectSpaceDumpEvent) (h h' : Heap) (front : List ObjectData)
      → e.event_type ≡ code Codes.object_space_dump
      → objects_in_batch e ≡ length front
      → pack_objects (length front) e h ≡ ok (objects_calls front, e', h')
      → pack_object_space_dump_event tv e h
        ≡ ok (dump_calls tv e.correlation_id e.object_count front, e', h')
  unfolding pack_object_space_dump_event
  pack_object_space_dump_event_lem tv e e' h h' front t size q = rw (size, q, t) refl

  dump_message :
      (tv : Timeval) (old : Heap) (e : ObjectSpaceDumpEvent) (s : PackerState)
      (front back : List ObjectData)
      → Pending old e s.heap (front ++ back)
      → All PackableObject front
      → objects_in_batch e ≡ length front
      → length front < 2 ^ 32
      → (p : Packed) × (pack_event tv (dump e) s ≡ ok p) × Sent tv old e s front back p
  dump_message tv old e s front back p h size fits =
      let (e', h', q, at', adv) = pack_objects-At old e s.heap front back p.at h in
      (
        record {
          calls = dump_calls tv e.correlation_id e.object_count front;
          raw = [];
          event = dump e';
          state = record s { heap = h' };
        },
        pack_event-dump tv e e' s _ h' p.type_lem
            (pack_object_space_dump_event_lem tv e e' s.heap h' front p.type_lem size q),
        record {
          event' = e';
          event_lem = refl;
          pending = record {
            at = at';
            counted =
                omega (arith, adv.packed, adv.same_count, p.counted, length-append front back);
            few = omega (arith, adv.same_count, p.few);
            type_lem = adv.same_type ∙ p.type_lem;
            correlation_fits = omega (arith, adv.same_correlation, p.correlation_fits);
          };
          advanced = adv;
          counter_lem = refl;
          contents_lem = refl;
          reads = λ rest.
              dump_calls-reads tv e.correlation_id e.object_count front rest h p.correlation_fits
                p.few fits;
        },
      )

  -- A dump event that has `objects` left to pack, all of them with strings and counts that fit the
  -- format, is packed without an error: the message reads as an object space dump frame with the
  -- next 1000 objects (or as many as are left), and the event is left with exactly the others.
  pub pack_event-object_space_dump :
      (tv : Timeval) (old : Heap) (e : ObjectSpaceDumpEvent) (s : PackerState)
      (objects : List ObjectData)
      → Pending old e s.heap objects
      → All PackableObject objects
      → (p : Packed) × (pack_event tv (dump e) s ≡ ok p)
        × Sent tv old e s
            (take max_object_dumps_in_message objects)
            (drop max_object_dumps_in_message objects)
            p
  pack_event-object_space_dump tv old e s objects p h =
      let n = max_object_dumps_in_message in
      dump_message tv old e s (take n objects) (drop n objects) (rw (take-append-drop n objects) p)
        (All-append (take n objects) (drop n objects) (rw (take-append-drop n objects) h)).0
        (objects_in_batch-Pending old e s.heap objects p) (batch_small objects)
