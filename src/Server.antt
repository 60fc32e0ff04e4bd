-- ===== src/Server.antt =====
-- ext/rbkit_server.c: messages are queued, and a job that Ruby runs later publishes them. ZeroMQ and
-- Ruby's jobs are not modelled: what is handed to them is recorded.
pub mod Outlets
pub mod Publish
pub mod Hooks
pub mod Dump
pub mod Objects
pub mod Requests
pub mod Responses
pub mod Rounds
use rbkit.Prelude.{
  ℕ, ◌+◌, List, [], ◌∷◌, ◌++◌, length, Bool, true, false, ltb, ◌==◌, if◌then◌else◌, Outcome, ok,
  ◌>>=◌,
}
use Outlets.{Channels, publish_message}
use rbkit.Time.{Timeval}
use rbkit.Event.{
  Event, header, sample, hash, CpuSample, RubyValue, new_rbkit_cpu_sample_event,
  new_rbkit_hash_event,
}
use rbkit.Event.Codes.{code, gc_start, gc_end_m, gc_end_s}
use rbkit.Aggregator.{
  MessageList, queue_message, queued_message_count, message_list_clear, message_batch_size,
}
use rbkit.Msgpack.{Msgpack}
use rbkit.Packer.{PackerState, contents, pack_event}
use rbkit.Collection.{get_event_collection_message}

-- The state that sending touches: the statics of the server and of the files it calls, how often
-- `trigger_publish_callback` was registered as a job, and what was sent.
pub record Server : Type 0 where
  pub has_logger : Bool
  pub messages : MessageList
  pub packer : PackerState
  pub last_correlation_id : ℕ
  pub test_mode_enabled : Bool
  pub registered_jobs : ℕ
  pub channels : Channels

unfoldable pub send_messages : Server → Server
send_messages s =
    if s.test_mode_enabled then s else record s { registered_jobs = s.registered_jobs + 1 }

unfoldable pub send_message : List ℕ → Server → Outcome Server
unfolding send_messages
send_message buffer s = do
  list ← queue_message buffer s.messages
  let s' : Server = record s { messages = list }
  ok (if queued_message_count list == message_batch_size then send_messages s' else s')

module _ ⦃m : Msgpack⦄ where
  open m use {Double}

  unfoldable pub trigger_publish_callback : Timeval → Server → Outcome Server
  trigger_publish_callback tv s = do
    (sbuf, packer') ← get_event_collection_message tv [] s.messages s.packer
    ok (record s {
      packer = packer';
      channels = if ltb 0 (length sbuf) then publish_message sbuf s.channels else s.channels;
      messages = message_list_clear s.messages;
    })

  -- pack_event and send_message, as the hooks call them
  unfoldable pub send_event : Timeval → Event Double → Server → Outcome Server
  unfolding send_message
  send_event tv e s = do
    p ← pack_event tv e s.packer
    send_message (contents p) (record s { packer = p.state })

  unfoldable pub gc_start_i : Timeval → Server → Outcome Server
  unfolding send_event
  gc_start_i tv s = send_event tv (header (code gc_start)) s

  unfoldable pub gc_end_mark_i : Timeval → Server → Outcome Server
  unfolding send_event
  gc_end_mark_i tv s = send_event tv (header (code gc_end_m)) s

  unfoldable pub gc_end_sweep_i : Timeval → Server → Outcome Server
  unfolding send_event
  gc_end_sweep_i tv s = send_event tv (header (code gc_end_s)) s

  unfoldable pub queue_cpu_sample_for_sending : Timeval → CpuSample → Server → Outcome Server
  unfolding send_event
  queue_cpu_sample_for_sending tv taken s =
      send_event tv (sample (new_rbkit_cpu_sample_event taken)) s

  -- The first result is false for Qfalse and true for Qnil; the number is that of the event type.
  unfoldable pub send_hash_as_event :
      Timeval → List (RubyValue Double × RubyValue Double) → ℕ → Server → Outcome (Bool × Server)
  unfolding send_event
  send_hash_as_event tv hash_object event_type s =
      if s.has_logger
      then (do
        s' ← send_event tv (hash (new_rbkit_hash_event event_type hash_object)) s
        ok (true, s'))
      else ok (false, s)
