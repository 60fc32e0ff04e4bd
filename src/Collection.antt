-- ===== src/Collection.antt =====
-- `get_event_collection_message` of ext/rbkit_message_aggregator.c: the queued messages as the payload
-- of one event_collection message.
pub mod Batch
use rbkit.Prelude.{ℕ, List, ◌==◌, if◌then◌else◌, Outcome, ok, ◌>>=◌}
use rbkit.Time.{Timeval}
use rbkit.Event.{collection, new_rbkit_event_collection_event}
use rbkit.Aggregator.{MessageList}
use rbkit.Msgpack.{Msgpack}
use rbkit.Packer.{PackerState, contents, pack_event}

module _ ⦃m : Msgpack⦄ where
  -- The buffer `sbuf` and the state after the call.
  unfoldable pub get_event_collection_message :
      Timeval → List ℕ → MessageList → PackerState → Outcome (List ℕ × PackerState)
  unfolding new_rbkit_event_collection_event
  get_event_collection_message tv sbuf l s = if l.no_of_messages == 0 then ok (sbuf, s) else (do
    let event = new_rbkit_event_collection_event l.message_array l.used_memsize l.no_of_messages
    p ← pack_event tv (collection event) s
    ok (contents p, p.state))
