-- ===== src/Aggregator/Refine.antt =====
-- The byte array of the aggregator refines a list of messages.
use rbkit.Prelude.{
  ℕ, ◌+◌, ◌*◌, ◌%◌, ◌^◌, ◌≤◌, ◌<◌, ◌≡◌, refl, some, List, [], ◌∷◌, ◌++◌, map, length, flatten, drop,
  ok, arith, length-append, length-drop, length-map, append_assoc, append-nil, flatten-append,
}
use mathlib.Core.List.{map-append}
use rbkit.Memory.{Block, live, malloc, copy_in, copy_out}
use rbkit.Memory.Laws.{copy_in-map, copy_out-map, length-malloc}
use rbkit.Aggregator.{
  MessageList, size_max, room_fuel, make_room, queue_message, message_list_new, message_list_clear,
}
use rbkit.Aggregator.Grow.{Represents, HasRoom, make_room-HasRoom}

-- A new list is empty.
pub message_list_new-Represents : (l : MessageList) → Represents (message_list_new l) []
unfolding message_list_new
message_list_new-Represents l = record {
  spare = malloc 1024;
  array = refl;
  used = refl;
  capacity = omega (arith, length-malloc 1024);
  count = refl;
  positive = omega arith;
  bounded = omega arith;
}

module _ {l : MessageList} {messages : List (List ℕ)} (r : Represents l messages) where
  -- Clearing forgets the messages and keeps the block.
  pub message_list_clear-Represents : Represents (message_list_clear l) []
  unfolding message_list_clear
  message_list_clear-Represents = record {
    spare = map some (flatten messages) ++ r.spare;
    array = r.array;
    used = refl;
    capacity = omega (
      arith,
      r.capacity,
      r.used,
      length-append (map some (flatten messages)) r.spare,
      length-map some (flatten messages),
    );
    count = refl;
    positive = r.positive;
    bounded = r.bounded;
  }

  -- What `memcpy` takes from the array is the messages one behind the other: no indeterminate byte
  -- and no byte past the block is read.
  pub copy_out-Represents : copy_out l.message_array l.used_memsize ≡ ok (flatten messages)
  copy_out-Represents = rw (r.array, r.used) (copy_out-map (flatten messages) r.spare)

pub flatten-snoc :
    (xss : List (List ℕ)) (xs : List ℕ) → flatten (xss ++ xs ∷ []) ≡ flatten xss ++ xs
flatten-snoc xss xs = rw (flatten-append xss (xs ∷ []), append-nil xs)

-- The state after `queue_message` has found room.
abbrev queued : List ℕ → MessageList → Block → Block → MessageList
queued buffer l front spare = record {
  message_array = live (front ++ (map some buffer ++ drop (length buffer) spare));
  used_memsize = l.used_memsize + length buffer;
  total_capacity = l.total_capacity;
  no_of_messages = l.no_of_messages + 1;
}

queued-Represents :
    (l : MessageList) (messages : List (List ℕ)) (buffer : List ℕ) (r : Represents l messages)
    → length buffer ≤ length r.spare
    → Represents (queued buffer l (map some (flatten messages)) r.spare) (messages ++ buffer ∷ [])
queued-Represents l messages buffer r fits = record {
  spare = drop (length buffer) r.spare;
  array = rw (flatten-snoc, map-append, append_assoc);
  used = rw flatten-snoc (omega (arith, r.used, length-append (flatten messages) buffer));
  capacity = omega (arith, r.capacity, length-drop (length buffer) r.spare);
  count = omega (arith, r.count, length-append messages (buffer ∷ []));
  positive = r.positive;
  bounded = r.bounded;
}

module _ {l l₁ : MessageList} {messages : List (List ℕ)} (buffer : List ℕ)
    (m : make_room room_fuel (length buffer) l ≡ ok l₁)
    (h : HasRoom l messages (length buffer) l₁) where
  copy_in-HasRoom :
      copy_in l₁.message_array l₁.used_memsize buffer
      ≡ ok (queued buffer l₁ (map some (flatten messages)) h.room.spare).message_array
  copy_in-HasRoom =
      rw (h.room.array, h.room.used) (copy_in-map (flatten messages) buffer h.room.spare h.fits)

  queue_message-HasRoom :
      l.used_memsize + length buffer ≤ 2 ^ 62
      → l.no_of_messages < 2 ^ 62
      → queue_message buffer l ≡ ok (queued buffer l₁ (map some (flatten messages)) h.room.spare)
  unfolding queue_message
  queue_message-HasRoom small few =
      let used : (l₁.used_memsize + length buffer) % size_max ≡ l₁.used_memsize + length buffer =
        omega (arith, h.same_used) in
      let count : (l₁.no_of_messages + 1) % size_max ≡ l₁.no_of_messages + 1 =
        omega (arith, h.same_count) in
      rw (m, copy_in-HasRoom, used, count)

-- Queueing a message of any size ends, writes inside the block, and appends exactly that message,
-- as long as at most 2 ^ 62 bytes are queued then, and fewer than 2 ^ 62 messages were before.
pub queue_message-Represents :
    (l : MessageList) (messages : List (List ℕ)) (buffer : List ℕ)
    → Represents l messages
    → l.used_memsize + length buffer ≤ 2 ^ 62
    → l.no_of_messages < 2 ^ 62
    → (l' : MessageList) × (queue_message buffer l ≡ ok l')
      × Represents l' (messages ++ buffer ∷ [])
queue_message-Represents l messages buffer r small few =
    let (l₁, m, h) =
      make_room-HasRoom room_fuel (length buffer) l messages r
        (enough_fuel _ l.total_capacity r.positive small) small in
    (
      queued buffer l₁ (map some (flatten messages)) h.room.spare,
      queue_message-HasRoom buffer m h small few,
      queued-Represents l₁ messages buffer h.room h.fits,
    )
  where
    enough_fuel : (n c : ℕ) → 0 < c → n ≤ 2 ^ 62 → n ≤ c * 2 ^ room_fuel
    enough_fuel n c p q = omega arith
