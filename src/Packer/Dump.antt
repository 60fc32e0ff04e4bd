-- ===== src/Packer/Dump.antt =====
-- pack_object_space_dump_event of ext/rbkit_event_packer.c: one message of an object space dump. The
-- loop walks the pages, frees each page that it leaves and the references of each object it packs.
use rbkit.Prelude.{
  ℕ, zero, suc, ◌+◌, ◌-◌, ◌%◌, ◌^◌, some, List, [], ◌∷◌, ◌++◌, ltb, ◌==◌, if◌then◌else◌, Outcome,
  ok, fault, ◌>>=◌,
}
use rbkit.Time.{Timeval}
use rbkit.Event.{ObjectSpaceDumpEvent}
use rbkit.Event.Codes.{
  payload, object_id, class_name, references, file, line, size, correlation_id,
  complete_message_count,
}
use rbkit.ObjectGraph.Pages.{
  page_size, References, freed, array, ObjectData, Heap, write, load, free, slot, set_slot,
}
use rbkit.Msgpack.{Call, Msgpack, pack_nil, pack_unsigned, pack_array, pack_map}
use rbkit.Packer.Calls.{int, key, pack_string, pack_event_header}

-- MAX_OBJECT_DUMPS_IN_MESSAGE
abbrev pub max_object_dumps_in_message : ℕ
max_object_dumps_in_message = 1000

-- if(event->current_page_index == RBKIT_OBJECT_DUMP_PAGE_SIZE): go to the next page
unfoldable pub turn_page : ObjectSpaceDumpEvent → Heap → Outcome (ObjectSpaceDumpEvent × Heap)
unfolding load free
turn_page e h =
    if e.current_page_index == page_size
    then (do
      prev ← load h e.current_page
      h' ← free h e.current_page
      ok (record e { current_page_index = 0; current_page = prev.next }, h'))
    else ok (e, h)

module _ {D : Type 0} where
  -- for(; count < data->reference_count; count++): the first number is the rounds left
  unfoldable pub pack_ids : ℕ → List ℕ → Outcome (List (Call D))
  pack_ids zero ids = ok []
  pack_ids (suc n) [] = fault
  pack_ids (suc n) (id ∷ ids) = do rest ← pack_ids n ids; ok (pack_unsigned id ∷ rest)

  unfoldable pub read_references : References → ℕ → Outcome (List (Call D))
  unfolding pack_ids
  read_references (array ids) n = pack_ids n ids
  read_references _ n = fault

  -- the references, and the object after free(data->references)
  unfoldable pub pack_references : ObjectData → Outcome (List (Call D) × ObjectData)
  unfolding read_references
  pack_references d = if d.reference_count == 0 then ok ([], d) else do
    ids ← read_references d.references d.reference_count
    ok (ids, record d { references = freed })

  -- nil for 0
  unfoldable pub pack_known : ℕ → Call D
  pack_known n = if n == 0 then pack_nil else pack_unsigned n

  -- the map of one object, and the object as it is left behind
  unfoldable pub pack_object : ObjectData → Outcome (List (Call D) × ObjectData)
  unfolding pack_references pack_known
  pack_object d = do
    name ← pack_string d.class_name
    (ids, d') ← pack_references d
    path ← pack_string d.file
    ok (
      pack_map 6
          ∷ key object_id
          ∷ pack_unsigned d.object_id
          ∷ key class_name
          ∷ (name
              ++ (key references
                  ∷ pack_array d.reference_count
                  ∷ (ids
                      ++ (key file
                          ∷ (path
                              ++ (key line
                                  ∷ pack_known d.line
                                  ∷ key size
                                  ∷ pack_known d.size
                                  ∷ [])))))),
      d',
    )

  -- the body of the loop
  unfoldable pub pack_next :
      ObjectSpaceDumpEvent → Heap → Outcome (List (Call D) × ObjectSpaceDumpEvent × Heap)
  unfolding turn_page pack_object
  pack_next e h = do
    (e₁, h₁) ← turn_page e h
    page ← load h₁ e₁.current_page
    data' ← slot page e₁.current_page_index
    (cs, data'') ← pack_object data'
    page' ← set_slot page e₁.current_page_index data''
    ok (
      cs,
      record e₁ {
        current_page_index = e₁.current_page_index + 1;
        packed_objects = e₁.packed_objects + 1;
      },
      write h₁ e₁.current_page (some page'),
    )

  -- while(count < objects_in_batch): the number is the rounds left
  unfoldable pub pack_objects :
      ℕ → ObjectSpaceDumpEvent → Heap → Outcome (List (Call D) × ObjectSpaceDumpEvent × Heap)
  unfolding pack_next
  pack_objects zero e h = ok ([], e, h)
  pack_objects (suc n) e h = do
    (cs, e', h') ← pack_next e h
    (rest, e'', h'') ← pack_objects n e' h'
    ok (cs ++ rest, e'', h'')

-- The number of objects that the next message takes.
unfoldable pub objects_in_batch : ObjectSpaceDumpEvent → ℕ
objects_in_batch e =
    let left = (e.object_count + 2 ^ 64 - e.packed_objects) % 2 ^ 64 in
    if ltb left max_object_dumps_in_message then left else max_object_dumps_in_message

module _ ⦃m : Msgpack⦄ where
  open m use {Double}

  unfoldable pub pack_object_space_dump_event :
      Timeval
      → ObjectSpaceDumpEvent
      → Heap
      → Outcome (List (Call Double) × ObjectSpaceDumpEvent × Heap)
  unfolding pack_event_header objects_in_batch pack_objects
  pack_object_space_dump_event tv e h = do
    (cs, e', h') ← pack_objects (objects_in_batch e) e h
    ok (
      pack_map 5
          ∷ (pack_event_header tv e.event_type
              ++ (key correlation_id
                  ∷ int e.correlation_id
                  ∷ key complete_message_count
                  ∷ pack_unsigned e.object_count
                  ∷ key payload
                  ∷ pack_array (objects_in_batch e)
                  ∷ cs)),
      e',
      h',
    )
