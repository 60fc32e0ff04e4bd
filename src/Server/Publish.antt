-- ===== src/Server/Publish.antt =====
-- What sending and publishing do to the queued messages.
use rbkit.Prelude.{
  ℕ, suc, ◌+◌, ◌%◌, ◌^◌, ◌<◌, ◌≤◌, ◌≡◌, refl, ap, ◌∙◌, sym, List, [], ◌∷◌, ◌++◌, length, not, ltb,
  ◌==◌, if◌then◌else◌, ok, some, arith, length-append, ◌&&◌, Bool-cases, inl, inr, true, ℤ, pos,
  Option, none,
}
use rbkit.Time.{Timeval}
use rbkit.Aggregator.{MessageList, queued_message_count, message_list_clear, message_batch_size}
use rbkit.Aggregator.Grow.{Represents}
use rbkit.Aggregator.Refine.{queue_message-Represents, message_list_clear-Represents}
use rbkit.Msgpack.{Msgpack}
use rbkit.Msgpack.Value.{Value}
use rbkit.Msgpack.Parses.{Parses-nil, Parses-int}
use rbkit.Msgpack.Reader.{read}
use rbkit.Packer.Frames.{Object, event_collection_frame}
use rbkit.Collection.{get_event_collection_message}
use rbkit.Collection.Batch.{Readable, collection_depth, get_event_collection_message-Represents}
use rbkit.Server.Outlets.{give, publish_message}
use rbkit.Server.{Server, send_messages, send_message, trigger_publish_callback}

-- `s'` is `s` with the message queued behind `messages`, and a job if that fills the batch.
pub record Queued (s : Server) (messages : List (List ℕ)) (buffer : List ℕ) (s' : Server)
    : Type 0 where
  pub represents : Represents s'.messages (messages ++ buffer ∷ [])
  pub same_packer : s'.packer ≡ s.packer
  pub same_correlation : s'.last_correlation_id ≡ s.last_correlation_id
  pub same_channels : s'.channels ≡ s.channels
  pub same_mode : s'.test_mode_enabled ≡ s.test_mode_enabled
  pub jobs : s'.registered_jobs ≡ (
      if (length messages + 1 == message_batch_size) && not s.test_mode_enabled
      then s.registered_jobs + 1
      else s.registered_jobs)

-- The state when the list was extended to `list`.
abbrev extended : Server → MessageList → Server
extended s list =
    let s' : Server = record s { messages = list } in
    if queued_message_count list == message_batch_size then send_messages s' else s'

extended-Queued :
    (s : Server) (messages : List (List ℕ)) (buffer : List ℕ) (list : MessageList)
    → Represents list (messages ++ buffer ∷ [])
    → Queued s messages buffer (extended s list)
unfolding send_messages queued_message_count
extended-Queued s messages buffer list r =
    let count : list.no_of_messages ≡ length messages + 1 =
      omega (arith, r.count, length-append messages (buffer ∷ [])) in
    elim (Bool-cases (list.no_of_messages == message_batch_size)) [
      | inl full ↦ elim (Bool-cases s.test_mode_enabled) [
        | inl on ↦ record {
          represents = rw (full, on) r;
          same_packer = rw (full, on) refl;
          same_correlation = rw (full, on) refl;
          same_channels = rw (full, on) refl;
          same_mode = rw (full, on) refl;
          jobs = rw (← count, full, on) refl;
        }
        | inr off ↦ record {
          represents = rw (full, off) r;
          same_packer = rw (full, off) refl;
          same_correlation = rw (full, off) refl;
          same_channels = rw (full, off) refl;
          same_mode = rw (full, off) refl;
          jobs = rw (← count, full, off) refl;
        }
      ]
      | inr more ↦ record {
        represents = rw more r;
        same_packer = rw more refl;
        same_correlation = rw more refl;
        same_channels = rw more refl;
        same_mode = rw more refl;
        jobs = rw (← count, more) refl;
      }
    ]

-- A message sent joins the queue as its last, whatever its size, if at most 2 ^ 62 bytes and
-- messages are queued then. Exactly the message that makes the batch 400 long registers the job
-- that publishes them, unless the test mode is on.
pub send_message-Represents :
    (s : Server) (messages : List (List ℕ)) (buffer : List ℕ)
    → Represents s.messages messages
    → s.messages.used_memsize + length buffer ≤ 2 ^ 62
    → length messages < 2 ^ 62
    → (s' : Server) × (send_message buffer s ≡ ok s') × Queued s messages buffer s'
unfolding send_message
send_message-Represents s messages buffer r small few =
    let (list, q, r') =
      queue_message-Represents s.messages messages buffer r small (omega (arith, r.count)) in
    (extended s list, rw q refl, extended-Queued s messages buffer list r')

module _ ⦃m : Msgpack⦄ where
  open m use {Double}

  -- `s'` is `s` with the batch published as one more message, and nothing queued.
  pub record Published (tv : Timeval) (s : Server) (objects : List Object) (s' : Server)
      : Type 0 where
    pub message : List ℕ
    pub channels_lem : s'.channels ≡ record s.channels {
      published =
          if s.channels.has_publisher
          then s.channels.published ++ message ∷ []
          else s.channels.published;
      publish_called =
          if s.channels.has_publish_callback
          then s.channels.publish_called ++ message ∷ []
          else s.channels.publish_called;
    }
    pub reads :
        (rest : List ℕ)
        → read collection_depth (message ++ rest)
          ≡ some (event_collection_frame tv s.packer.counter objects, rest)
    pub counter_lem : s'.packer.counter ≡ (s.packer.counter + 1) % 2 ^ 64
    pub emptied : Represents s'.messages []

  abbrev from_some : Object → Option (Object × List ℕ) → Object
  from_some v none = v
  from_some v (some p) = p.0

  -- No bytes read as nil and as a number, whatever follows them.
  nil_ne_int :
      {bs cs ds es : List ℕ} {v : Object} {r₁ r₂ : Option (Object × List ℕ)} {z : ℤ}
      → r₁ ≡ some (v, bs)
      → r₁ ≡ some (Value.nil, cs)
      → r₂ ≡ some (v, ds)
      → r₂ ≡ some (Value.int z, es)
      → ⊥
  nil_ne_int {v} {z} p q p' q' =
      let e : v ≡ Value.nil = ap (from_some v) (sym p ∙ q) in
      let e' : v ≡ Value.int z = ap (from_some v) (sym p' ∙ q') in cc (e, e')

  -- No object reads from no bytes.
  pub not_empty :
      (d : ℕ) (out : List ℕ) (v : Object)
      → ((rest : List ℕ) → read (suc d) (out ++ rest) ≡ some (v, rest))
      → ltb 0 (length out) ≡ true
  not_empty d [] v h = absurd (
      nil_ne_int (h _) (Parses-nil {d = d} [] []).at (h _)
        (Parses-int {d = d} [] [] {z = pos 0} (omega arith)).at)
  not_empty d (x ∷ out) v h = ground arith

  -- The job gives the queued messages, if there are some and fewer than 2 ^ 32 and a client can read
  -- each, as one event_collection message with the current counter (an unsigned long) to the socket
  -- and the callback that there are, raises the counter by one, and empties the queue.
  pub trigger_publish_callback-Represents :
      (tv : Timeval) (s : Server) (messages : List (List ℕ)) (objects : List Object)
      → Represents s.messages messages
      → Readable messages objects
      → 0 < length messages
      → length messages < 2 ^ 32
      → s.packer.counter < 2 ^ 64
      → (s' : Server) × (trigger_publish_callback tv s ≡ ok s') × Published tv s objects s'
  unfolding trigger_publish_callback publish_message give
  trigger_publish_callback-Represents tv s messages objects r h some_queued few c =
      let (out, g, reads) =
        get_event_collection_message-Represents tv [] s.messages s.packer messages objects r h
          some_queued few c in
      (
        record s {
          packer = record s.packer { counter = (s.packer.counter + 1) % 2 ^ 64 };
          channels = publish_message out s.channels;
          messages = message_list_clear s.messages;
        },
        rw (g, not_empty 6 out (event_collection_frame tv s.packer.counter objects) reads) refl,
        record {
          message = out;
          channels_lem = refl;
          reads = reads;
          counter_lem = refl;
          emptied = message_list_clear-Represents r;
        },
      )

  -- With nothing queued, the job publishes nothing, and only clears the list.
  trigger_publish_callback_nothing :
      (tv : Timeval) (s : Server)
      → Represents s.messages []
      → trigger_publish_callback tv s ≡ ok (record s { messages = message_list_clear s.messages })
  unfolding trigger_publish_callback get_event_collection_message
  trigger_publish_callback_nothing tv s r = rw (r.count) refl
