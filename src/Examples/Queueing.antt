-- ===== src/Examples/Queueing.antt =====
-- The message list and the server's queue at concrete inputs.
use rbkit.Prelude.{ℕ, ◌≡◌, false, true, none, some, List, [], ◌∷◌, ◌++◌, ok, out_of_fuel, arith}
use rbkit.Time.{Timeval}
use rbkit.Aggregator.{MessageList, unset, message_list_new, queue_message, make_room, room_fuel}
use rbkit.Aggregator.Grow.{Represents, HasRoom, make_room-HasRoom}
use rbkit.Aggregator.Refine.{message_list_new-Represents, queue_message-Represents}
use rbkit.Aggregator.History.{Action, queue, clear, run, run-message_list_new, make_room-unset}
use rbkit.Msgpack.Value.{Value}
use rbkit.Msgpack.Reader.{wire, read}
use rbkit.Msgpack.Parses.{Parses-nil}
use rbkit.Msgpack.Wire.{message_pack, encode}
use rbkit.Packer.{PackerState}
use rbkit.Packer.Frames.{event_collection_frame}
use rbkit.ObjectGraph.Pages.{Heap}
use rbkit.Collection.{get_event_collection_message}
use rbkit.Collection.Batch.{
  Readable, none, more, collection_depth, get_event_collection_message-run,
}
use rbkit.Examples.Sockets.{both_sockets}
use rbkit.Server.{Server, send_message, trigger_publish_callback}
use rbkit.Server.Publish.{
  Queued, Published, send_message-Represents, trigger_publish_callback-Represents,
}

-- nil, packed.
abbrev message : List ℕ
message = 0xc0 ∷ []

abbrev now : Timeval
now = record { tv_sec = 1427360000; tv_usec = 250000 }

abbrev no_pages : Heap
no_pages = record { fresh = 1; page_at = λ a. none }

abbrev new_packer_state : PackerState
new_packer_state = record { counter = 0; heap = no_pages }

abbrev three_calls : List Action
three_calls = queue (1 ∷ 2 ∷ []) ∷ clear ∷ queue message ∷ []

run-message_list_new_example :
    (l : MessageList) × (run three_calls (message_list_new unset) ≡ ok l)
    × Represents l (message ∷ [])
run-message_list_new_example = run-message_list_new three_calls unset (omega arith) (omega arith)

queue_message-Represents_example :
    (l : MessageList) × (queue_message message (message_list_new unset) ≡ ok l)
    × Represents l (message ∷ [])
queue_message-Represents_example =
    queue_message-Represents (message_list_new unset) [] message (message_list_new-Represents unset)
      (unfold message_list_new in omega arith) (unfold message_list_new in omega arith)

make_room-HasRoom_example :
    (l : MessageList) × (make_room room_fuel 5000 (message_list_new unset) ≡ ok l)
    × HasRoom (message_list_new unset) [] 5000 l
make_room-HasRoom_example =
    make_room-HasRoom room_fuel 5000 (message_list_new unset) [] (message_list_new-Represents unset)
      (unfold message_list_new in omega arith) (unfold message_list_new in omega arith)

make_room-unset_example : make_room room_fuel 1 unset ≡ out_of_fuel
make_room-unset_example = make_room-unset room_fuel message (omega arith)

-- A client reads the message as nil.
message-Readable : Readable (message ∷ []) (Value.nil ∷ [])
unfolding wire encode message_pack
message-Readable = more (λ rest. (Parses-nil [] rest).at) none

queued_once :
    (l : MessageList) × (queue_message message (message_list_new unset) ≡ ok l)
    × Represents l (message ∷ [])
queued_once =
    queue_message-Represents (message_list_new unset) [] message (message_list_new-Represents unset)
      (unfold message_list_new in omega arith) (unfold message_list_new in omega arith)

abbrev one_queued : MessageList
one_queued = queued_once.0

get_event_collection_message-run_example :
    (l : MessageList) × (run three_calls (message_list_new unset) ≡ ok l)
    × (out : List ℕ) × (get_event_collection_message now [] l new_packer_state
        ≡ ok (out, record new_packer_state { counter = 1 }))
    × ((rest : List ℕ)
        → read collection_depth (out ++ rest)
          ≡ some (event_collection_frame now 0 (Value.nil ∷ []), rest))
get_event_collection_message-run_example =
    get_event_collection_message-run three_calls unset (Value.nil ∷ []) now [] new_packer_state
      (omega arith) (omega arith) message-Readable (omega arith) (omega arith) (omega arith)

abbrev server : Server
server = record {
  has_logger = true;
  messages = message_list_new unset;
  packer = new_packer_state;
  last_correlation_id = 0;
  test_mode_enabled = false;
  registered_jobs = 0;
  channels = both_sockets;
}

send_message-Represents_example :
    (s : Server) × (send_message message server ≡ ok s) × Queued server [] message s
send_message-Represents_example =
    send_message-Represents server [] message (message_list_new-Represents unset)
      (unfold message_list_new in omega arith) (omega arith)

abbrev full_server : Server
full_server = record server { messages = one_queued }

trigger_publish_callback-Represents_example :
    (s : Server) × (trigger_publish_callback now full_server ≡ ok s)
    × Published now full_server (Value.nil ∷ []) s
trigger_publish_callback-Represents_example =
    trigger_publish_callback-Represents now full_server (message ∷ []) (Value.nil ∷ [])
      queued_once.2 message-Readable (omega arith) (omega arith) (omega arith)
