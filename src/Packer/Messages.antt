-- ===== src/Packer/Messages.antt =====
-- `pack_event` writes the frame that the protocol documents, event by event.
use rbkit.Prelude.{
  ◌+◌, ◌%◌, ℕ, ◌^◌, ◌<◌, ◌≡◌, refl, Option, some, List, [], ◌∷◌, ◌++◌, Outcome, ok, arith,
}
use rbkit.Time.{Timeval}
use rbkit.Memory.{Pointer, copy_out}
use rbkit.Event.{
  CString, AllocationInfo, Event, header, created, destroyed, new_rbkit_obj_created_event,
  new_rbkit_obj_destroyed_event, new_rbkit_event_collection_event, collection,
}
use rbkit.Event.Codes
use rbkit.Event.Codes.{EventType, code, Field}
use rbkit.Msgpack.{Call, Msgpack, pack_map, pack_array, pack_unsigned}
use rbkit.Msgpack.Value.{no_pairs}
use rbkit.Msgpack.Reader.{read}
use rbkit.Msgpack.Parses.{
  Packs, Parses-unsigned, Parses-map, ParsesPairs-end, wire_rest, ParsesPairs-done,
}
use rbkit.Packer.{
  PackerState, Packed, contents, pack_event, pack_obj_created_event, pack_obj_destroyed_event,
  pack_event_header_only, pack_event_collection_event,
}
use rbkit.Packer.Calls.{key, pack_event_header}
use rbkit.Packer.Frames.{Object, frame, obj_created_frame, obj_destroyed_frame}
use rbkit.Packer.Pieces.{
  Packable, ParsesPairs-entry, string_calls, pack_string_lem, Parses-last_string, Parses-frame,
}

-- How deep a message nests: the map, its payload, an entry's map, its references and a number.
abbrev pub message_depth : ℕ
message_depth = 5

module _ ⦃m : Msgpack⦄ where
  open m use {Double}

  -- Packing succeeds, and a client that unpacks the buffer has exactly `v`, whatever follows. The
  -- state is left alone.
  abbrev pub Sends : Outcome Packed → Object → PackerState → Type 0
  Sends r v s =
      (p : Packed) × (r ≡ ok p)
      × ((rest : List ℕ) → read message_depth (contents p ++ rest) ≡ some (v, rest))
      × (p.state ≡ s)

  -- An event that copies nothing into the buffer is read from its calls.
  pub Sends-calls :
      {r : Outcome Packed} {s : PackerState} (cs : List (Call Double)) (e : Event Double)
      (v : Object)
      → r ≡ ok (record { calls = cs; raw = []; event = e; state = s })
      → Packs message_depth cs v
      → Sends r v s
  Sends-calls cs e v q p = (_, q, (λ rest. rw (wire_rest cs [] rest) ((p rest).at)), refl)

  -- The calls for an obj_created event.
  abbrev created_calls : Timeval → ℕ → Option CString → List (Call Double)
  created_calls tv id klass =
      pack_map 3
      ∷ (pack_event_header tv (code Codes.obj_created)
          ++ (key Codes.payload
              ∷ pack_map 2
              ∷ key Codes.object_id
              ∷ pack_unsigned id
              ∷ key Codes.class_name
              ∷ string_calls klass))

  -- A new object whose id fits 64 bits and whose class name fits an int is announced as an
  -- obj_created frame with exactly that id and that name, nil for a NULL name.
  pub pack_event-obj_created :
      (tv : Timeval) (id : ℕ) (klass : Option CString) (info : AllocationInfo) (s : PackerState)
      → id < 2 ^ 64
      → Packable klass
      → Sends
          (pack_event tv (created (new_rbkit_obj_created_event id klass info)) s)
          (obj_created_frame tv id klass)
          s
  unfolding pack_event pack_obj_created_event new_rbkit_obj_created_event
  pack_event-obj_created tv id klass info s h k =
      Sends-calls (created_calls tv id klass) (created (new_rbkit_obj_created_event id klass info))
        (obj_created_frame tv id klass) (rw (pack_string_lem klass k))
        (λ rest. Parses-frame tv Codes.obj_created _ rest (omega arith) (
          ParsesPairs-entry Codes.payload _ rest
            (Parses-map _ rest (omega arith) (
              ParsesPairs-entry Codes.object_id _ rest (Parses-unsigned _ rest h) (
                ParsesPairs-entry Codes.class_name _ rest (Parses-last_string klass rest k)
                  ParsesPairs-end)))
            ParsesPairs-end))

  -- A freed object whose id fits 64 bits is announced as an obj_destroyed frame with that id.
  pub pack_event-obj_destroyed :
      (tv : Timeval) (id : ℕ) (s : PackerState)
      → id < 2 ^ 64
      → Sends
          (pack_event tv (destroyed (new_rbkit_obj_destroyed_event id)) s)
          (obj_destroyed_frame tv id)
          s
  unfolding pack_event pack_obj_destroyed_event new_rbkit_obj_destroyed_event
  pack_event-obj_destroyed tv id s h =
      Sends-calls _ (destroyed (new_rbkit_obj_destroyed_event id)) (obj_destroyed_frame tv id) refl
        (λ rest. Parses-frame tv Codes.obj_destroyed _ rest (omega arith) (
          ParsesPairs-entry Codes.payload _ rest
            (Parses-map _ rest (omega arith) (
              ParsesPairs-entry Codes.object_id _ rest (Parses-unsigned _ rest h)
                (ParsesPairs-done rest)))
            ParsesPairs-end))

  -- The three events of the garbage collector.
  abbrev pub IsGcType : EventType → Type 0
  IsGcType Codes.gc_start = Unit
  IsGcType Codes.gc_end_m = Unit
  IsGcType Codes.gc_end_s = Unit
  IsGcType _ = ⊥

  header_only-Packs :
      (tv : Timeval) (t : EventType)
      → Packs message_depth (pack_event_header_only tv (code t)) (frame tv t no_pairs)
  unfolding pack_event_header_only
  header_only-Packs tv t rest = Parses-frame tv t [] rest (omega arith) (ParsesPairs-done rest)

  -- The start of a collection, the end of its mark phase and the end of its sweep are announced
  -- as frames with no payload.
  pub pack_event-gc :
      (tv : Timeval) (t : EventType) (s : PackerState)
      → IsGcType t
      → Sends (pack_event tv (header (code t)) s) (frame tv t no_pairs) s
  unfolding pack_event
  pack_event-gc tv Codes.gc_start s h =
      Sends-calls _ (header 2) _ refl (header_only-Packs tv Codes.gc_start)
  pack_event-gc tv Codes.gc_end_m s h =
      Sends-calls _ (header 3) _ refl (header_only-Packs tv Codes.gc_end_m)
  pack_event-gc tv Codes.gc_end_s s h =
      Sends-calls _ (header 4) _ refl (header_only-Packs tv Codes.gc_end_s)
  pack_event-gc tv _ s h = absurd h

  -- The calls for the head of a collection of `n` messages.
  abbrev pub collection_calls : Timeval → ℕ → ℕ → List (Call Double)
  collection_calls tv counter n =
      pack_map 4
      ∷ (pack_event_header tv (code Codes.event_collection)
          ++ (key Codes.message_counter
              ∷ pack_unsigned counter
              ∷ key Codes.payload
              ∷ pack_array n
              ∷ []))

  -- A collection is its head and the bytes copied from the array; the counter goes up.
  pub pack_event-event_collection :
      (tv : Timeval) (buffer : Pointer) (size n : ℕ) (raw : List ℕ) (s : PackerState)
      → copy_out buffer size ≡ ok raw
      → let e = new_rbkit_event_collection_event buffer size n in
        pack_event tv (collection e) s
        ≡ ok (record {
          calls = collection_calls tv s.counter n;
          raw = raw;
          event = collection e;
          state = record s { counter = (s.counter + 1) % 2 ^ 64 };
        })
  unfolding pack_event pack_event_collection_event new_rbkit_event_collection_event
  pack_event-event_collection tv buffer size n raw s h = rw h
