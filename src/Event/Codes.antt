-- ===== src/Event/Codes.antt =====
-- The numbers of the protocol: `rbkit_event_type` of ext/rbkit_event.h and `rbkit_message_fields` of
-- ext/rbkit_event_packer.h, and the tables of them that Ruby code reads.
use Prim.Native.String.{String}
use rbkit.Prelude.{ℕ, List, [], ◌∷◌}

pub data EventType : Type 0 where
  obj_created obj_destroyed gc_start gc_end_m gc_end_s : EventType
  object_space_dump gc_stats event_collection handshake cpu_sample : EventType

unfoldable pub code : EventType → ℕ
code obj_created = 0
code obj_destroyed = 1
code gc_start = 2
code gc_end_m = 3
code gc_end_s = 4
code object_space_dump = 5
code gc_stats = 6
code event_collection = 7
code handshake = 8
code cpu_sample = 9

pub data Field : Type 0 where
  event_type timestamp payload object_id class_name references file line size : Field
  message_counter correlation_id complete_message_count : Field
  method_name label singleton_method thread_id : Field

unfoldable pub field_code : Field → ℕ
field_code event_type = 0
field_code timestamp = 1
field_code payload = 2
field_code object_id = 3
field_code class_name = 4
field_code references = 5
field_code file = 6
field_code line = 7
field_code size = 8
field_code message_counter = 9
field_code correlation_id = 10
field_code complete_message_count = 11
field_code method_name = 12
field_code label = 13
field_code singleton_method = 14
field_code thread_id = 15

-- rbkit_event_types_as_hash, in the order of its calls
unfoldable pub rbkit_event_types_as_hash : List (String × ℕ)
rbkit_event_types_as_hash =
    ("obj_created", code obj_created)
    ∷ ("obj_destroyed", code obj_destroyed)
    ∷ ("gc_start", code gc_start)
    ∷ ("gc_end_m", code gc_end_m)
    ∷ ("gc_end_s", code gc_end_s)
    ∷ ("object_space_dump", code object_space_dump)
    ∷ ("gc_stats", code gc_stats)
    ∷ ("event_collection", code event_collection)
    ∷ ("handshake", code handshake)
    ∷ ("cpu_sample", code cpu_sample)
    ∷ []

-- rbkit_message_fields_as_hash
unfoldable pub rbkit_message_fields_as_hash : List (String × ℕ)
rbkit_message_fields_as_hash =
    ("event_type", field_code event_type)
    ∷ ("timestamp", field_code timestamp)
    ∷ ("payload", field_code payload)
    ∷ ("object_id", field_code object_id)
    ∷ ("class_name", field_code class_name)
    ∷ ("references", field_code references)
    ∷ ("file", field_code file)
    ∷ ("line", field_code line)
    ∷ ("size", field_code size)
    ∷ ("message_counter", field_code message_counter)
    ∷ ("correlation_id", field_code correlation_id)
    ∷ ("complete_message_count", field_code complete_message_count)
    ∷ ("method_name", field_code method_name)
    ∷ ("label", field_code label)
    ∷ ("singleton_method", field_code singleton_method)
    ∷ ("thread_id", field_code thread_id)
    ∷ []

-- RBKIT_PROTOCOL_VERSION
abbrev pub rbkit_protocol_version : String
rbkit_protocol_version = "2.1"
