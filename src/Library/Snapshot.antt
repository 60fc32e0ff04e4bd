-- ===== src/Library/Snapshot.antt =====
-- A snapshot that a client asks a server of lib/rbkit/server.rb for reaches the client.
use rbkit.Prelude.{
  ℕ, zero, suc, ◌+◌, ◌^◌, ◌<◌, ◌≤◌, ◌≡◌, sym, ap, subst, ◌∙◌, true, some, List, [], ◌∷◌, ◌++◌,
  length, flatten, length-append, ascii, ok, ok-bind, arith,
}
use rbkit.Time.{Timeval}
use rbkit.Event.{CString}
use rbkit.Aggregator.Grow.{Represents}
use rbkit.Allocation.{Info}
use rbkit.Allocation.Counts.{allocation_of}
use rbkit.Allocation.Table.{StTable}
use rbkit.Allocation.Strings.{Shared}
use rbkit.Collection.Batch.{Readable, none, more, collection_depth}
use rbkit.Msgpack.{Msgpack}
use rbkit.Msgpack.Reader.{read}
use rbkit.ObjectGraph.Pages.{ObjectData}
use rbkit.ObjectGraph.Collect.{dumped}
use rbkit.Packer.{PackerState}
use rbkit.Tracing.Sockets.{ServerSockets}
use rbkit.Packer.Dump.{max_object_dumps_in_message}
use rbkit.Packer.Frames.{Object, event_collection_frame}
use rbkit.Sampling.Signals.{Posix}
use rbkit.Server.{trigger_publish_callback}
use rbkit.Server.Outlets.{give, Channels, publish_message}
use rbkit.Server.Publish.{trigger_publish_callback-Represents}
use rbkit.Server.Dump.Batches.{batch_messages, in_batches}
use rbkit.Server.Dump.Whole.{dump_messages, dump_frames}
use rbkit.Library.Names.{Request, request_of}
use rbkit.Library.State.{is_open, Session, server_of, put_server, on_server}
use rbkit.Library.Answers.{Surroundings, process_incoming_request}
use rbkit.Library.Life.{Live}
use rbkit.Library.Views.{Dumpable, Answered}
use rbkit.Library.Replies.{process_incoming_request-Answered}

append-Readable :
    ⦃m : Msgpack⦄ {ms ns : List (List ℕ)} {vs us : List Object}
    → Readable ms vs
    → Readable ns us
    → Readable (ms ++ ns) (vs ++ us)
append-Readable none r = r
append-Readable (more p h) r = more p (append-Readable h r)

module _ ⦃m : Msgpack⦄ (clock : ℕ → Timeval) (correlation count : ℕ) where
  some_batch :
      (size n : ℕ) (ds : List ObjectData)
      → length ds ≤ n
      → 0 < length ds
      → 0 < length (batch_messages clock correlation count 0 (in_batches size n ds))
  some_batch size n [] enough some_objects = absurd (omega arith)
  some_batch size zero (d ∷ ds) enough some_objects = absurd (omega arith)
  some_batch size (suc n) (d ∷ ds) enough some_objects = omega arith

module _ ⦃m : Msgpack⦄ ⦃os : Posix⦄ ⦃strings : StTable CString Shared⦄ ⦃objects : StTable ℕ Info⦄
    (w : Surroundings) (s : Session) where
  -- What the dump of `w` is sent as.
  abbrev pub snapshot_messages : List (List ℕ)
  snapshot_messages =
      dump_messages w.clock (allocation_of s.extension.system.allocations) w.ranges (server_of s)

  abbrev pub snapshot_frames : List Object
  snapshot_frames =
      dump_frames w.clock (allocation_of s.extension.system.allocations) w.ranges (server_of s)

  -- The publication that a client reads.
  pub record Reaches (tv : Timeval) (frames : List Object) (s' : Session) : Type 0 where
    pub message : List ℕ
    pub reads :
        (rest : List ℕ)
        → read collection_depth (message ++ rest)
          ≡ some (event_collection_frame tv s.extension.packer.counter frames, rest)
    pub published_lem :
        s'.extension.published
        ≡ give (is_open s.extension.system.sockets.publisher) s.extension.published message
    pub emptied : Represents s'.extension.system.messages []

  -- On a server that runs after any calls, with messages queued that a client can read, a snapshot that
  -- can be dumped is asked for, and then the job that publishes runs: the request is answered, and if
  -- fewer than 2 ^ 32 messages are queued then, one message is given to the publisher socket if there is one, which a
  -- client reads as the event_collection of the frames queued before and then the frames of the
  -- dump, with the current message counter. Nothing stays queued.
  pub snapshot-Reaches :
      (tv : Timeval) (messages : List (List ℕ)) (frames : List Object)
      → Live s
      → s.server_running ≡ true
      → Represents s.extension.system.messages messages
      → Readable messages frames
      → Dumpable w s messages
      → length messages + length snapshot_messages < 2 ^ 32
      → s.extension.packer.counter < 2 ^ 64
      → (s' : Session) × (s'' : Session) × (process_incoming_request w
            (ascii "objectspace_snapshot")
            s
          ≡ ok s')
        × Answered w s messages Request.objectspace_snapshot s'
        × (on_server (trigger_publish_callback tv) s' ≡ ok s'')
        × Reaches tv (frames ++ snapshot_frames) s''
  unfolding request_of server_of put_server publish_message
  snapshot-Reaches tv messages frames live on r readable d few c =
      let (s', q, answered) =
        process_incoming_request-Answered w s messages (ascii "objectspace_snapshot") live on r d in
      let (v, sent, same_messages, same_packer, same_correlation) = answered.queued in
      let all = messages ++ snapshot_messages in
      let represents : Represents (server_of s').messages all =
        subst (λ l. Represents l all) (sym same_messages) sent.represents in
      let table = allocation_of s.extension.system.allocations in
      let more_messages : 0 < length snapshot_messages =
        some_batch w.clock (s.extension.last_correlation_id + 1)
          (length (dumped table (flatten w.ranges))) max_object_dumps_in_message
          (length (dumped table (flatten w.ranges))) (dumped table (flatten w.ranges)) (omega arith)
          d.some_objects in
      let counter_lem : s'.extension.packer.counter ≡ s.extension.packer.counter =
        ap (λ (p : PackerState). p.counter) same_packer ∙ sent.same_counter in
      let count = length-append messages snapshot_messages in
      let (v', q', p) =
        trigger_publish_callback-Represents tv (server_of s') all (frames ++ snapshot_frames)
          represents (append-Readable readable sent.readable) (omega (arith, count, more_messages))
          (omega (arith, count, few)) (rw counter_lem c) in
      (
        s',
        put_server v' s',
        q,
        answered,
        ok-bind (trigger_publish_callback tv (server_of s')) (λ x. ok (put_server x s')) v' q',
        record {
          message = p.message;
          reads = λ rest.
              p.reads rest
              ∙ ap (λ k. some (event_collection_frame tv k (frames ++ snapshot_frames), rest))
                  counter_lem;
          published_lem =
              ap (λ (k : Channels). k.published) p.channels_lem
              ∙ (ap
                    (λ (k : ServerSockets).
                      give (is_open k.publisher) s'.extension.published p.message)
                    answered.same_sockets
                  ∙ ap (λ x. give (is_open s.extension.system.sockets.publisher) x p.message)
                      answered.same_published.0);
          emptied = p.emptied;
        },
      )
