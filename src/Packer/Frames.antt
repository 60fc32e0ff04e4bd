-- ===== src/Packer/Frames.antt =====
-- The message frames of docs/protocol.md, as msgpack objects. A key is the number of its field.
use rbkit.Prelude.{ℕ, Option, none, some, List, [], ◌∷◌, map, pos, ◌==◌, if◌then◌else◌}
use rbkit.Time.{Timeval, get_wall_time_in_msec}
use rbkit.Event.{CString, RubyValue, fixnum, float, other, FrameData}
use rbkit.Event.Codes
use rbkit.Event.Codes.{EventType, code, Field, field_code}
use rbkit.ObjectGraph.Pages.{References, array, ObjectData}
use rbkit.Msgpack.{Msgpack}
use rbkit.Msgpack.Value.{Value, Pairs, no_pairs, pair, values}

-- The ids of references that were not freed.
abbrev pub ids_of : References → List ℕ
ids_of (array ids) = ids
ids_of _ = []

module _ ⦃m : Msgpack⦄ where
  open m use {Double, from_long}

  abbrev pub Object : Type 0
  Object = Value Double

  abbrev pub number : ℕ → Object
  number n = Value.int (pos n)

  -- An entry of a map under one of the protocol's fields.
  abbrev pub entry : Field → Object → Pairs Double → Pairs Double
  entry f v ps = pair (number (field_code f)) v ps

  -- A string, or nil for a NULL pointer.
  abbrev pub text : Option CString → Object
  text none = Value.nil
  text (some s) = Value.str s

  -- A number, or nil for 0.
  abbrev pub known : ℕ → Object
  known n = if n == 0 then Value.nil else number n

  -- The two entries that every frame begins with, and the others.
  abbrev pub frame : Timeval → EventType → Pairs Double → Object
  frame tv t ps = Value.map (
      entry Codes.event_type (number (code t))
        (entry Codes.timestamp (Value.double (from_long (get_wall_time_in_msec tv))) ps))

  abbrev pub payload_of : Object → Pairs Double
  payload_of v = entry Codes.payload v no_pairs

  abbrev pub obj_created_frame : Timeval → ℕ → Option CString → Object
  obj_created_frame tv id klass = frame tv Codes.obj_created (
      payload_of (
        Value.map
          (entry Codes.object_id (number id) (entry Codes.class_name (text klass) no_pairs))))

  abbrev pub obj_destroyed_frame : Timeval → ℕ → Object
  obj_destroyed_frame tv id =
      frame tv Codes.obj_destroyed
        (payload_of (Value.map (entry Codes.object_id (number id) no_pairs)))

  abbrev pub ruby_object : RubyValue Double → Object
  ruby_object (fixnum z) = Value.int z
  ruby_object (float x) = Value.double x
  ruby_object (other bytes) = Value.str bytes

  abbrev pub ruby_pairs : List (RubyValue Double × RubyValue Double) → Pairs Double
  ruby_pairs [] = no_pairs
  ruby_pairs ((k, v) ∷ ps) = pair (ruby_object k) (ruby_object v) (ruby_pairs ps)

  abbrev pub hash_frame : Timeval → EventType → List (RubyValue Double × RubyValue Double) → Object
  hash_frame tv t h = frame tv t (payload_of (Value.map (ruby_pairs h)))

  abbrev pub frame_object : FrameData → Object
  frame_object f = Value.map (
      entry Codes.method_name (text f.method_name) (
        entry Codes.label (text f.label) (
          entry Codes.file (text f.file) (
            entry Codes.line (number f.line) (
              entry Codes.singleton_method (number f.is_singleton_method)
                (entry Codes.thread_id (number f.thread_id) no_pairs))))))

  abbrev pub cpu_sample_frame : Timeval → List FrameData → Object
  cpu_sample_frame tv frames =
      frame tv Codes.cpu_sample (payload_of (Value.array (values (map frame_object frames))))

  abbrev pub object_object : ObjectData → Object
  object_object d = Value.map (
      entry Codes.object_id (number d.object_id) (
        entry Codes.class_name (text d.class_name) (
          entry Codes.references (Value.array (values (map number (ids_of d.references)))) (
            entry Codes.file (text d.file)
              (entry Codes.line (known d.line) (entry Codes.size (known d.size) no_pairs))))))

  abbrev pub object_space_dump_frame : Timeval → ℕ → ℕ → List ObjectData → Object
  object_space_dump_frame tv correlation count objects = frame tv Codes.object_space_dump (
      entry Codes.correlation_id (number correlation) (
        entry Codes.complete_message_count (number count)
          (payload_of (Value.array (values (map object_object objects))))))

  abbrev pub event_collection_frame : Timeval → ℕ → List Object → Object
  event_collection_frame tv counter messages =
      frame tv Codes.event_collection
        (entry Codes.message_counter (number counter) (payload_of (Value.array (values messages))))
