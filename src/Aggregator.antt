-- ===== src/Aggregator.antt =====
-- ext/rbkit_message_aggregator.c: the queue of packed messages, one growing byte array.
-- `get_event_collection_message` stands in Packer/Collection.antt, which has the packer that it calls.
pub mod Grow
pub mod Refine
pub mod History
use rbkit.Prelude.{
  ℕ, zero, suc, ◌+◌, ◌-◌, ◌*◌, ◌%◌, ◌^◌, Bool, List, length, leb, if◌then◌else◌, Outcome, ok,
  out_of_fuel, ◌>>=◌,
}
use rbkit.Memory.{Pointer, null, dangling, live, malloc, realloc, copy_in}

-- MESSAGE_BATCH_SIZE
abbrev pub message_batch_size : ℕ
message_batch_size = 400

-- `size_t` arithmetic wraps at this.
abbrev pub size_max : ℕ
size_max = 2 ^ 64

-- The file's static variables.
pub record MessageList : Type 0 where
  pub message_array : Pointer
  pub used_memsize : ℕ
  pub total_capacity : ℕ
  pub no_of_messages : ℕ

-- Static storage starts at zero.
abbrev pub unset : MessageList
unset = record { message_array = null; used_memsize = 0; total_capacity = 0; no_of_messages = 0 }

pub has_enough_space_for : MessageList → ℕ → Bool
has_enough_space_for l size = leb size ((l.total_capacity + size_max - l.used_memsize) % size_max)

pub double_the_capacity : MessageList → Outcome MessageList
double_the_capacity l = do
  let capacity = l.total_capacity * 2 % size_max
  array ← realloc l.message_array capacity
  ok (record l { message_array = array; total_capacity = capacity })

unfoldable pub message_list_new : MessageList → MessageList
message_list_new l = record {
  message_array = live (malloc 1024);
  total_capacity = 1024;
  used_memsize = 0;
  no_of_messages = 0;
}

-- `free(message_array)` leaves the pointer dangling.
unfoldable pub message_list_destroy : MessageList → MessageList
message_list_destroy l = record {
  message_array = dangling;
  used_memsize = 0;
  total_capacity = 0;
  no_of_messages = 0;
}

unfoldable pub message_list_clear : MessageList → MessageList
message_list_clear l = record l { used_memsize = 0; no_of_messages = 0 }

-- while(!has_enough_space_for(size)) double_the_capacity();
pub make_room : ℕ → ℕ → MessageList → Outcome MessageList
make_room zero size l = if has_enough_space_for l size then ok l else out_of_fuel
make_room (suc fuel) size l =
    let more = (double_the_capacity l >>= make_room fuel size) in
    if has_enough_space_for l size then ok l else more

-- A capacity of 64 bits doubles 64 times at most before it is 0.
abbrev pub room_fuel : ℕ
room_fuel = 64

pub queue_message : List ℕ → MessageList → Outcome MessageList
queue_message buffer l = do
  l' ← make_room room_fuel (length buffer) l
  array ← copy_in l'.message_array l'.used_memsize buffer
  ok (record l' {
    message_array = array;
    used_memsize = (l'.used_memsize + length buffer) % size_max;
    no_of_messages = (l'.no_of_messages + 1) % size_max;
  })

unfoldable pub queued_message_count : MessageList → ℕ
queued_message_count l = l.no_of_messages
