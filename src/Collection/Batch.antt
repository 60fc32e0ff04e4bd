-- ===== src/Collection/Batch.antt =====
-- A client unpacks a collection into the messages that were queued.
use rbkit.Prelude.{
  ℕ, ◌+◌, ◌%◌, ◌^◌, ◌<◌, ◌≤◌, ◌≡◌, List, [], ◌∷◌, ◌++◌, length, flatten, ok, some, false, arith,
  append_assoc, ◌==◌,
}
use rbkit.Time.{Timeval}
use rbkit.Event.Codes
use rbkit.Event.Codes.{code}
use rbkit.Aggregator.{MessageList, message_list_new}
use rbkit.Aggregator.Grow.{Represents}
use rbkit.Aggregator.Refine.{copy_out-Represents}
use rbkit.Aggregator.History.{Action, run, expected, volume, run-message_list_new}
use rbkit.Msgpack.{Msgpack}
use rbkit.Msgpack.Value.{values}
use rbkit.Msgpack.Reader.{wire, read}
use rbkit.Msgpack.Parses.{
  Parses, ParsesItems, Parses-unsigned, Parses-array, ParsesPairs-end, ParsesItems-end,
  ParsesItems-item, ParsesItems-raw, wire_rest,
}
use rbkit.Packer.{PackerState}
use rbkit.Packer.Frames.{Object, event_collection_frame}
use rbkit.Packer.Pieces.{ParsesPairs-entry, Parses-frame}
use rbkit.Packer.Messages.{message_depth, collection_calls, pack_event-event_collection}
use rbkit.Collection.{get_event_collection_message}

-- A collection nests its messages in an array in a map.
abbrev pub collection_depth : ℕ
collection_depth = 7

module _ ⦃m : Msgpack⦄ where
  open m use {Double}

  -- The messages are the objects, one for one: a client that reads a message has its object,
  -- whatever follows.
  pub data Readable : List (List ℕ) → List Object → Type 0 where
    none : Readable [] []
    more :
        {bs : List ℕ} {bss : List (List ℕ)} {v : Object} {vs : List Object}
        → ((rest : List ℕ) → read message_depth (bs ++ rest) ≡ some (v, rest))
        → Readable bss vs
        → Readable (bs ∷ bss) (v ∷ vs)

  ParsesItems-Readable :
      {messages : List (List ℕ)} {objects : List Object} (rest : List ℕ)
      → Readable messages objects
      → ParsesItems message_depth (length messages) (flatten messages ++ rest) (values objects) rest
  ParsesItems-Readable rest none = ParsesItems-end
  ParsesItems-Readable rest (more {bs} {bss} {v} {vs} p r) =
      rw append_assoc
        (ParsesItems-item (record { at = p (flatten bss ++ rest) }) (ParsesItems-Readable rest r))

  read-collection_calls :
      {messages : List (List ℕ)} {objects : List Object} (tv : Timeval) (counter : ℕ)
      → Readable messages objects
      → counter < 2 ^ 64
      → length messages < 2 ^ 32
      → (rest : List ℕ)
      → read collection_depth
          (wire (collection_calls tv counter (length messages)) (flatten messages) ++ rest)
        ≡ some (event_collection_frame tv counter objects, rest)
  read-collection_calls {messages} {objects} tv counter r c few rest =
      rw (wire_rest (collection_calls tv counter (length messages)) (flatten messages) rest)
        (frame_parses.at)
    where
      frame_parses :
          Parses collection_depth
            (wire (collection_calls tv counter (length messages)) (flatten messages ++ rest))
            (event_collection_frame tv counter objects)
            rest
      frame_parses = Parses-frame tv Codes.event_collection _ _ (omega arith) (
          ParsesPairs-entry Codes.message_counter _ _ (Parses-unsigned _ _ c) (
            ParsesPairs-entry Codes.payload _ _
              (Parses-array _ _ few (ParsesItems-raw _ (ParsesItems-Readable rest r)))
              ParsesPairs-end))

  -- A list that holds at least one message and fewer than 2 ^ 32, each of them readable, is packed
  -- into one event_collection message: whatever was in the buffer is gone, the payload is exactly
  -- the queued messages in order, the message counter is the current one, and it goes up by one.
  pub get_event_collection_message-Represents :
      (tv : Timeval) (sbuf : List ℕ) (l : MessageList) (s : PackerState) (messages : List (List ℕ))
      (objects : List Object)
      → Represents l messages
      → Readable messages objects
      → 0 < length messages
      → length messages < 2 ^ 32
      → s.counter < 2 ^ 64
      → (out : List ℕ) × (get_event_collection_message tv sbuf l s
          ≡ ok (out, record s { counter = (s.counter + 1) % 2 ^ 64 }))
        × ((rest : List ℕ)
            → read collection_depth (out ++ rest)
              ≡ some (event_collection_frame tv s.counter objects, rest))
  unfolding get_event_collection_message
  get_event_collection_message-Represents tv sbuf l s messages objects r h some_queued few c = (
    wire (collection_calls tv s.counter (length messages)) (flatten messages),
    rw (
      r.count,
      not_empty (length messages) some_queued,
      pack_event-event_collection tv l.message_array l.used_memsize (length messages)
          (flatten messages) s (copy_out-Represents r),
    ),
    read-collection_calls tv s.counter h c few,
  )
    where
      not_empty : (n : ℕ) → 0 < n → (n == 0) ≡ false
      not_empty n p = ground arith

  -- From `message_list_new` on, after any sequence of `queue_message` and `message_list_clear` that
  -- queues at most 2 ^ 62 bytes in at most 2 ^ 62 calls, the messages queued since the last clear
  -- reach the client in order as one event_collection message, if each is readable and there are
  -- some, but fewer than 2 ^ 32.
  pub get_event_collection_message-run :
      (actions : List Action) (l : MessageList) (objects : List Object) (tv : Timeval)
      (sbuf : List ℕ) (s : PackerState)
      → volume actions ≤ 2 ^ 62
      → length actions ≤ 2 ^ 62
      → Readable (expected actions []) objects
      → 0 < length (expected actions [])
      → length (expected actions []) < 2 ^ 32
      → s.counter < 2 ^ 64
      → (l' : MessageList) × (run actions (message_list_new l) ≡ ok l')
        × (out : List ℕ) × (get_event_collection_message tv sbuf l' s
            ≡ ok (out, record s { counter = (s.counter + 1) % 2 ^ 64 }))
        × ((rest : List ℕ)
            → read collection_depth (out ++ rest)
              ≡ some (event_collection_frame tv s.counter objects, rest))
  get_event_collection_message-run actions l objects tv sbuf s small calls h some_queued few c =
      let (l', e, r) = run-message_list_new actions l small calls in
      let (out, g, p) =
        get_event_collection_message-Represents tv sbuf l' s (expected actions []) objects r h
          some_queued few c in
      (l', e, out, g, p)
