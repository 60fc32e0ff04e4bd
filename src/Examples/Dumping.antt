-- ===== src/Examples/Dumping.antt =====
-- Dumps of a small Ruby heap.
use rbkit.Prelude.{
  ℕ, ◌+◌, ◌≡◌, refl, true, false, Option, none, some, List, [], ◌∷◌, length, flatten, All, ok,
  arith,
}
use rbkit.Time.{Timeval}
use rbkit.Event.{AllocationInfo, ObjectSpaceDumpEvent, dump}
use rbkit.Aggregator.{unset, message_list_new}
use rbkit.Aggregator.Refine.{message_list_new-Represents}
use rbkit.ObjectGraph.{
  ObjectDump, RubyObject, t_other, t_none, is_dumped, object_data, set_size, reachable_objects,
  reachable_object_i, blank, get_object_dump,
}
use rbkit.ObjectGraph.Pages.{array, ObjectData, Heap}
use rbkit.ObjectGraph.Shape.{IsFresh, Built}
use rbkit.ObjectGraph.Collect.{dumped, get_object_dump-Built}
use rbkit.Msgpack.Reader.{wire}
use rbkit.Packer.Calls.{pack_event_header}
use rbkit.Msgpack.Wire.{message_pack, encode, big_endian, twos_complement}
use rbkit.Packer.{PackerState, Packed, pack_event}
use rbkit.Packer.Dump.{max_object_dumps_in_message}
use rbkit.Packer.DumpObjects.{PackableObject}
use rbkit.Packer.DumpCalls.{Pending}
use rbkit.Packer.DumpFrames.{Sent, pack_event-object_space_dump}
use rbkit.Examples.Sockets.{both_sockets}
use rbkit.Server.{Server}
use rbkit.Server.Dump.{send_batches, send_objectspace_dump}
use rbkit.Server.Dump.Start.{started, started-Pending}
use rbkit.Server.Dump.Loop.{Walked, send_batches-Pending}
use rbkit.Server.Dump.Batches.{batch_messages, in_batches}
use rbkit.Server.Dump.Whole.{DumpSent, send_objectspace_dump-DumpSent}

abbrev pub empty_heap : Heap
empty_heap = record { fresh = 1; page_at = λ a. none }

pub empty_heap-IsFresh : IsFresh empty_heap
empty_heap-IsFresh = record { positive = omega arith; unused = λ b le. refl }

abbrev pub no_table : ℕ → Option AllocationInfo
no_table value = none

-- A set that refers to its class and to another object, and an empty slot of the heap.
abbrev a_set : RubyObject
a_set = record {
  value = 1000;
  object_id = 70;
  klass_nil = false;
  builtin_type = t_other;
  class_name = 83 ∷ 101 ∷ 116 ∷ [];
  reachable =
      record { object_id = 8; is_own_class = true }
      ∷ record { object_id = 71; is_own_class = false }
      ∷ [];
  memsize = 40;
}

abbrev free_slot : RubyObject
free_slot = record a_set { builtin_type = t_none; reachable = [] }

abbrev pub ruby_heap : List (List RubyObject)
ruby_heap = (a_set ∷ free_slot ∷ []) ∷ []

abbrev pub set_data : ObjectData
set_data = record {
  object_id = 70;
  class_name = some (83 ∷ 101 ∷ 116 ∷ []);
  references = array (71 ∷ []);
  reference_count = 1;
  file = none;
  line = 0;
  size = 40;
}

pub dumped-ruby_heap : dumped no_table (flatten ruby_heap) ≡ set_data ∷ []
unfolding is_dumped object_data set_size reachable_objects reachable_object_i blank
dumped-ruby_heap = refl

dumped-free_slot : dumped no_table (flatten ((free_slot ∷ []) ∷ [])) ≡ []
unfolding is_dumped
dumped-free_slot = refl

pub set_data_packable : All PackableObject (set_data ∷ [])
set_data_packable = (
  record {
    id_fits = omega arith;
    name_fits = omega arith;
    file_fits = tt;
    line_fits = omega arith;
    size_fits = omega arith;
    counted = refl;
    ids_fit = (omega arith, tt);
    ids_few = omega arith;
  },
  tt,
)

get_object_dump-Built_example :
    (s : ObjectDump × Heap) × (get_object_dump no_table ruby_heap empty_heap ≡ ok s)
    × Built empty_heap s (dumped no_table (flatten ruby_heap))
get_object_dump-Built_example =
    get_object_dump-Built no_table empty_heap empty_heap-IsFresh ruby_heap
      (rw dumped-ruby_heap (omega arith))

-- The dump of the heap, with the event that packs it.
set_dump :
    (s : ObjectDump × Heap) × (get_object_dump no_table ruby_heap empty_heap ≡ ok s)
    × Built empty_heap s (set_data ∷ [])
set_dump = rw (← dumped-ruby_heap) (
    get_object_dump-Built no_table empty_heap empty_heap-IsFresh ruby_heap
      (rw dumped-ruby_heap (omega arith)))

abbrev set_event : ObjectSpaceDumpEvent
set_event = started 0 set_dump.0.0 1

abbrev set_packer : PackerState
set_packer = record { counter = 0; heap = set_dump.0.1 }

set_event-Pending : Pending empty_heap set_event set_dump.0.1 (set_data ∷ [])
set_event-Pending =
    started-Pending empty_heap empty_heap-IsFresh 0 set_dump.0.0 set_dump.0.1 (set_data ∷ [])
      set_dump.2 (omega arith) (omega arith)

abbrev pub clock : ℕ → Timeval
clock k = record { tv_sec = 1427360400 + k; tv_usec = 0 }

pack_event-object_space_dump_example :
    (p : Packed) × (pack_event (clock 0) (dump set_event) set_packer ≡ ok p)
    × Sent (clock 0) empty_heap set_event set_packer (set_data ∷ []) [] p
pack_event-object_space_dump_example =
    pack_event-object_space_dump (clock 0) empty_heap set_event set_packer (set_data ∷ [])
      set_event-Pending set_data_packable

pub set_message_length :
    length (
      flatten
        (batch_messages clock 1 1 0 (in_batches max_object_dumps_in_message 1 (set_data ∷ []))))
    ≡ 192
unfolding wire pack_event_header message_pack encode big_endian twos_complement
set_message_length = refl

abbrev set_server : Server
set_server = record {
  has_logger = true;
  messages = message_list_new unset;
  packer = set_packer;
  last_correlation_id = 1;
  test_mode_enabled = false;
  registered_jobs = 0;
  channels = both_sockets;
}

send_batches-Pending_example :
    (e' : ObjectSpaceDumpEvent) × (s' : Server) × (send_batches 1 clock 0 set_event set_server
      ≡ ok (e', s'))
    × Walked empty_heap set_event set_server []
        (batch_messages clock 1 1 0 (in_batches max_object_dumps_in_message 1 (set_data ∷ [])))
        e'
        s'
send_batches-Pending_example =
    send_batches-Pending empty_heap 1 clock 0 1 1 set_event set_server [] (set_data ∷ []) refl refl
      (omega arith) set_event-Pending set_data_packable (message_list_new-Represents unset)
      (omega (arith, set_message_length)) (omega arith)

abbrev idle_server : Server
idle_server = record set_server {
  packer = record { counter = 0; heap = empty_heap };
  last_correlation_id = 0;
}

send_objectspace_dump-DumpSent_example :
    (s' : Server) × (send_objectspace_dump clock no_table ruby_heap idle_server ≡ ok s')
    × DumpSent clock no_table ruby_heap idle_server [] s'
send_objectspace_dump-DumpSent_example =
    send_objectspace_dump-DumpSent clock no_table ruby_heap idle_server [] empty_heap-IsFresh
      (message_list_new-Represents unset) (rw dumped-ruby_heap (omega arith))
      (rw dumped-ruby_heap set_data_packable) (omega arith)
      (rw dumped-ruby_heap (omega (arith, set_message_length))) (rw dumped-ruby_heap (omega arith))
