-- ===== src/Server/Hooks.antt =====
-- Events that are sent one at a time: the hooks of the garbage collector, CPU samples, hashes.
use rbkit.Prelude.{
  ℕ, ◌+◌, ◌^◌, ◌<◌, ◌≤◌, ◌≡◌, refl, ◌∙◌, ap, true, if_true, List, ◌++◌, length, flatten, All, ok,
  ◌>>=◌, some, arith,
}
use rbkit.Time.{Timeval}
use rbkit.Event.{
  Event, header, hash, sample, CpuSample, FrameData, RubyValue, new_rbkit_hash_event,
  new_rbkit_cpu_sample_event,
}
use rbkit.Event.Codes
use rbkit.Event.Codes.{EventType, code}
use rbkit.Aggregator.Grow.{Represents}
use rbkit.Msgpack.{Msgpack}
use rbkit.Msgpack.Value.{no_pairs}
use rbkit.Msgpack.Reader.{read}
use rbkit.Packer.{Packed, contents, pack_event}
use rbkit.Packer.Frames.{Object, frame, hash_frame, cpu_sample_frame}
use rbkit.Packer.Messages.{message_depth, Sends, IsGcType, pack_event-gc}
use rbkit.Packer.HashFrames.{IsHashType, PackablePair, pack_event-hash}
use rbkit.Packer.SampleFrames.{PackableFrame, pack_event-cpu_sample}
use rbkit.Server.{
  Server, send_event, gc_start_i, gc_end_mark_i, gc_end_sweep_i, queue_cpu_sample_for_sending,
  send_hash_as_event,
}
use rbkit.Server.Publish.{Queued, send_message-Represents}

module _ ⦃m : Msgpack⦄ where
  open m use {Double}

  -- The message of the event, if it is packed, finds room in 2 ^ 62 bytes.
  abbrev pub Fits : Timeval → Event Double → Server → List (List ℕ) → Type 0
  Fits tv e s messages =
      (p : Packed)
      → pack_event tv e s.packer ≡ ok p
      → length (flatten messages) + length (contents p) ≤ 2 ^ 62

  -- `s'` is `s` with one message more, which a client reads as `v`.
  pub record Delivered (s : Server) (messages : List (List ℕ)) (v : Object) (s' : Server)
      : Type 0 where
    pub buffer : List ℕ
    pub reads : (rest : List ℕ) → read message_depth (buffer ++ rest) ≡ some (v, rest)
    pub queued : Queued s messages buffer s'

  module _ (tv : Timeval) (s : Server) (messages : List (List ℕ))
      (r : Represents s.messages messages) (few : length messages < 2 ^ 62) where
    pub send_event-Sends :
        (e : Event Double) (v : Object)
        → Sends (pack_event tv e s.packer) v s.packer
        → Fits tv e s messages
        → (s' : Server) × (send_event tv e s ≡ ok s') × Delivered s messages v s'
    unfolding send_event
    send_event-Sends e v (p, packs, reads, same) fits =
        let (s', sends, q) =
          send_message-Represents (record s { packer = p.state }) messages (contents p) r
            (omega (arith, fits p packs, r.used)) few in
        (
          s',
          rw (packs, sends) refl,
          record {
            buffer = contents p;
            reads = reads;
            queued = record {
              represents = q.represents;
              same_packer = q.same_packer ∙ same;
              same_correlation = q.same_correlation;
              same_channels = q.same_channels;
              same_mode = q.same_mode;
              jobs = q.jobs;
            };
          },
        )

    -- Each of the three hooks of the garbage collector queues one message behind the others, the
    -- frame of its own event, if at most 2 ^ 62 bytes and messages are queued then.
    pub gc_hooks-Delivered :
        ((t : EventType) → IsGcType t → Fits tv (header (code t)) s messages)
        → ((s' : Server) × (gc_start_i tv s ≡ ok s')
            × Delivered s messages (frame tv Codes.gc_start no_pairs) s')
          × ((s' : Server) × (gc_end_mark_i tv s ≡ ok s')
              × Delivered s messages (frame tv Codes.gc_end_m no_pairs) s')
          × ((s' : Server) × (gc_end_sweep_i tv s ≡ ok s')
              × Delivered s messages (frame tv Codes.gc_end_s no_pairs) s')
    unfolding gc_start_i gc_end_mark_i gc_end_sweep_i
    gc_hooks-Delivered fits = (
      send_event-Sends (header (code Codes.gc_start)) _
          (pack_event-gc tv Codes.gc_start s.packer tt) (fits Codes.gc_start tt),
      send_event-Sends (header (code Codes.gc_end_m)) _
          (pack_event-gc tv Codes.gc_end_m s.packer tt) (fits Codes.gc_end_m tt),
      send_event-Sends (header (code Codes.gc_end_s)) _
          (pack_event-gc tv Codes.gc_end_s s.packer tt) (fits Codes.gc_end_s tt),
    )

    -- A sample of fewer than 2 ^ 32 packable frames is queued behind the others as one cpu_sample
    -- frame, if at most 2 ^ 62 bytes and messages are queued then.
    pub queue_cpu_sample_for_sending-Delivered :
        (fs : List FrameData)
        → All PackableFrame fs
        → length fs < 2 ^ 32
        → let taken : CpuSample = record { frame_count = length fs; frames = fs } in
          Fits tv (sample (new_rbkit_cpu_sample_event taken)) s messages
          → (s' : Server) × (queue_cpu_sample_for_sending tv taken s ≡ ok s')
            × Delivered s messages (cpu_sample_frame tv fs) s'
    unfolding queue_cpu_sample_for_sending
    queue_cpu_sample_for_sending-Delivered fs h small fits =
        send_event-Sends _ _ (pack_event-cpu_sample tv fs s.packer h small) fits

    -- With a logger, GC statistics or a handshake of fewer than 2 ^ 31 packable pairs are queued
    -- behind the others as one frame, if at most 2 ^ 62 bytes and messages are queued then.
    pub send_hash_as_event-Delivered :
        (t : EventType) (pairs : List (RubyValue Double × RubyValue Double))
        → s.has_logger ≡ true
        → IsHashType t
        → All PackablePair pairs
        → length pairs < 2 ^ 31
        → Fits tv (hash (new_rbkit_hash_event (code t) pairs)) s messages
        → (s' : Server) × (send_hash_as_event tv pairs (code t) s ≡ ok (true, s'))
          × Delivered s messages (hash_frame tv t pairs) s'
    unfolding send_hash_as_event
    send_hash_as_event-Delivered t pairs on w h small fits =
        let e = hash (new_rbkit_hash_event (code t) pairs) in
        let (s', q, d) =
          send_event-Sends e (hash_frame tv t pairs) (pack_event-hash tv t pairs s.packer w h small)
            fits in
        (s', if_true _ _ on ∙ ap (λ x. x >>= (λ s''. ok (true, s''))) q, d)
