-- ===== src/Examples/Snapshots.antt =====
-- A snapshot that is asked for and published.
use rbkit.Prelude.{◌≡◌, ◌<◌, ◌^◌, refl, [], length, ascii, ok, arith}
use rbkit.Aggregator.{unset}
use rbkit.Aggregator.Refine.{message_list_new-Represents}
use rbkit.Allocation.{new_tables}
use rbkit.Allocation.Counts.{allocation_of}
use rbkit.Allocation.History.{no_allocations}
use rbkit.Allocation.Tables.{object_table, str_table}
use rbkit.Collection.Batch.{Readable}
use rbkit.Msgpack.Wire.{message_pack}
use rbkit.Sampling.Process.{two_timers}
use rbkit.Server.{trigger_publish_callback}
use rbkit.Library.Names.{Request}
use rbkit.Library.State.{Session, server_of, on_server}
use rbkit.Library.Answers.{Surroundings, process_incoming_request}
use rbkit.Library.Views.{Dumpable, Answered}
use rbkit.Library.Snapshot.{snapshot_messages, snapshot_frames, Reaches, snapshot-Reaches}
use rbkit.Examples.Dumping.{
  empty_heap-IsFresh, ruby_heap, no_table, clock, dumped-ruby_heap, set_data_packable,
  set_message_length,
}
use rbkit.Examples.Answering.{ruby_process}
use rbkit.Examples.Sending.{midnight}
use rbkit.Examples.Serving.{loaded_extension, made_session, running_session, running_session-Live}

-- The heap of one set.
abbrev one_set : Surroundings
one_set = record {
  tv = midnight;
  clock = clock;
  ranges = ruby_heap;
  process = ruby_process;
  collected = [];
}

nothing_known : allocation_of no_allocations ≡ no_table
unfolding object_table new_tables
nothing_known = refl

one_set-Dumpable : Dumpable one_set running_session []
unfolding running_session made_session loaded_extension server_of
one_set-Dumpable = record {
  fresh = empty_heap-IsFresh;
  some_objects = rw (nothing_known, dumped-ruby_heap) (omega arith);
  packable = rw (nothing_known, dumped-ruby_heap) set_data_packable;
  correlation_fits = omega arith;
  bytes_fit = rw (nothing_known, dumped-ruby_heap) (omega (arith, set_message_length));
  messages_fit = rw (nothing_known, dumped-ruby_heap) (omega arith);
}

few_messages : length (snapshot_messages one_set running_session) < 2 ^ 32
unfolding running_session made_session loaded_extension server_of
few_messages = rw (nothing_known, dumped-ruby_heap) (omega arith)

snapshot-Reaches_example :
    (s' : Session) × (s'' : Session) × (process_incoming_request one_set
        (ascii "objectspace_snapshot")
        running_session
      ≡ ok s')
    × Answered one_set running_session [] Request.objectspace_snapshot s'
    × (on_server (trigger_publish_callback midnight) s' ≡ ok s'')
    × Reaches one_set running_session midnight (snapshot_frames one_set running_session) s''
unfolding running_session made_session loaded_extension server_of
snapshot-Reaches_example =
    snapshot-Reaches one_set running_session midnight [] [] running_session-Live refl
      (message_list_new-Represents unset) Readable.none one_set-Dumpable
      (omega (arith, few_messages)) (omega arith)
