-- ===== src/Examples/Rounds.antt =====
-- Rounds of the dispatch loop, and the statistics of the collector.
use rbkit.Prelude.{
  ℕ, ◌*◌, ◌<◌, ◌≡◌, refl, length, sym, ap, subst, ◌∙◌, Option, none, some, List, [], ◌∷◌, ascii, ok,
  ok_injective, arith,
}
use rbkit.Event.{hash, new_rbkit_hash_event}
use rbkit.Event.Codes
use rbkit.Event.Codes.{code}
use rbkit.Aggregator.{unset}
use rbkit.Aggregator.Refine.{message_list_new-Represents}
use rbkit.Allocation.Tables.{object_table, str_table}
use rbkit.Msgpack.Wire.{message_pack}
use rbkit.Packer.Frames.{hash_frame}
use rbkit.Sampling.Process.{two_timers}
use rbkit.Server.{Server}
use rbkit.Server.Hooks.{Fits, Delivered}
use rbkit.Library.GcStats.{
  at_least, VmStats, Stats, heap_sources, copied, lookup, total_heap_size, stat, ruby_hash,
  ruby_value,
}
use rbkit.Library.Timers.{nanoseconds}
use rbkit.Library.StatsKeys.{Documented, all_stats, stat-Documented}
use rbkit.Library.StatsSent.{IsSmall, send_gc_stats-Delivered}
use rbkit.Library.State.{Session, server_of, put_server}
use rbkit.Library.Dispatch.{LoopRound, send_gc_stats}
use rbkit.Library.Rounds.{Apart, fired_at, dispatch_rounds, Spaced, SomeDue, dispatch_rounds-Spaced}
use rbkit.Event.{event_type_of}
use rbkit.Packer.{pack_event}
use rbkit.Packer.Calls.{pack_event_header, pack_string, int_as_size}
use rbkit.Packer.Hash.{pack_hash_event, pack_pairs, hash_pack_iterator, pack_value_object}
use rbkit.Msgpack.Reader.{wire}
use rbkit.Msgpack.Wire.{encode, big_endian, twos_complement}
use rbkit.Examples.Sending.{midnight, packed_bytes}
use rbkit.Examples.Serving.{
  surroundings, loaded_extension, made_session, running_session, running_session-Live,
}

-- Ruby 2.2, where each number is 1.
abbrev ones : VmStats
ones = record {
  ruby_version = ascii "2.2.3";
  gc_stat = λ key. some 1;
  heap_obj_limit = some 408;
  rvalue_size = some 40;
  memsize_of_all = 100;
}

-- A round, with the time when messages are dispatched.
abbrev round_at : ℕ → LoopRound
round_at t = record {
  revents = 0;
  received = none;
  surroundings = surroundings;
  vm = ones;
  stats_now = t;
  stats_later = t;
  dispatch_now = t;
  dispatch_later = t;
}

stat-Documented_example :
    (stats : Stats) × (stat ones ≡ ok stats) × Documented ones (1 * 408 * 40) stats
unfolding at_least
stat-Documented_example = stat-Documented ones 1 408 40 refl refl refl refl

abbrev two_rounds : List LoopRound
two_rounds = round_at 500_000_000 ∷ round_at 1_000_000_008 ∷ []

dispatch_rounds-Spaced_example :
    (count : ℕ) × (s' : Session) × (dispatch_rounds two_rounds running_session ≡ ok (some s'))
    × Spaced running_session count s'
    × Apart
        (running_session.message_dispatch_timer.interval * nanoseconds)
        running_session.message_dispatch_timer.last_fired_at
        (fired_at two_rounds running_session)
    × (length (fired_at two_rounds running_session) ≡ count)
    × (SomeDue two_rounds running_session.message_dispatch_timer → 0 < count)
unfolding running_session made_session loaded_extension
dispatch_rounds-Spaced_example =
    dispatch_rounds-Spaced two_rounds running_session
      (record { goes_on = refl; no_stats = refl; no_test = refl })
      (
        record { no_request = refl; forward = omega arith },
        (record { no_request = refl; forward = omega arith }, tt),
      )

some_number : Option ℕ → ℕ
some_number none = 0
some_number (some n) = n

ones-IsSmall : IsSmall ones (1 * 408 * 40)
unfolding some_number
ones-IsSmall = record {
  values = λ key n e. omega (arith, ap some_number e);
  size = omega arith;
  memsize = omega arith;
}

-- The statistics of that Ruby.
abbrev one_stats : Stats
unfolding copied heap_sources at_least
one_stats = all_stats ones (heap_sources (ascii "2.2.3")) (1 * 408 * 40)

one_stats_lem : stat ones ≡ ok one_stats
unfolding stat one_stats heap_sources at_least copied lookup total_heap_size
one_stats_lem = refl

one_stats-Fits :
    Fits midnight
      (hash (new_rbkit_hash_event (code Codes.gc_stats) (ruby_hash one_stats)))
      (server_of running_session)
      []
unfolding one_stats heap_sources at_least copied ruby_hash ruby_value server_of running_session
    made_session loaded_extension pack_event pack_hash_event pack_pairs hash_pack_iterator
    pack_value_object pack_string int_as_size pack_event_header wire message_pack encode big_endian
    twos_complement event_type_of code new_rbkit_hash_event
one_stats-Fits p e = omega (arith, ap packed_bytes e)

send_gc_stats-Delivered_example :
    (stats : Stats) × (v : Server) × Documented ones (1 * 408 * 40) stats
    × (send_gc_stats (round_at 5_000_000_008) running_session ≡ ok (put_server v running_session))
    × Delivered
        (server_of running_session)
        []
        (hash_frame midnight Codes.gc_stats (ruby_hash stats))
        v
unfolding running_session made_session loaded_extension at_least
send_gc_stats-Delivered_example =
    send_gc_stats-Delivered (round_at 5_000_000_008) running_session [] 1 408 40
      running_session-Live refl (message_list_new-Represents unset) (omega arith) refl refl refl
      refl ones-IsSmall
      (λ stats e.
        subst
          (λ x.
            Fits midnight (hash (new_rbkit_hash_event (code Codes.gc_stats) (ruby_hash x)))
              (server_of running_session) [])
          (ok_injective (sym one_stats_lem ∙ e)) one_stats-Fits)
