-- ===== src/Tracing/Reach.antt =====
-- What holds of the logger after any calls.
use rbkit.Prelude.{ℕ, ◌<◌, ◌≡◌, refl, true, false, ◌||◌, All, none, some, List, length, ok, fault}
use rbkit.Tracing.Sockets.{is_closed, Closable, closed_sockets}
use rbkit.Aggregator.{queue_message}
use rbkit.Aggregator.History.{queue_message-message_list_destroy}
use rbkit.Event.{CString}
use rbkit.Allocation.{Info}
use rbkit.Allocation.Clear.{clear_tables-all_freed}
use rbkit.Allocation.Table.{StTable}
use rbkit.Allocation.Strings.{Shared}
use rbkit.Allocation.History.{Holds}
use rbkit.Sampling.Signals.{Posix, Clock}
use rbkit.Tracing.{Logger, System, all, stop_stat_server}
use rbkit.Tracing.Steps.{Reachable, enabled_flag}
use rbkit.Tracing.Consistent.{
  stopped, stop_stat_server_runs, stop_stat_server-closed, stopped-Consistent, Reachable-Consistent,
}

module _ ⦃os : Posix⦄ ⦃strings : StTable CString Shared⦄ ⦃objects : StTable ℕ Info⦄ where
  -- After any calls, the five tracepoints run if the logger says that tracing is on, and none of
  -- them runs if it says that tracing is off or there is no logger.
  tracepoints-Reachable : (s : System) → Reachable s → s.tracepoints ≡ all (enabled_flag s.logger)
  tracepoints-Reachable s r = (Reachable-Consistent s r).agrees

  pub stop_stat_server-Reachable :
      (s : System) (l : Logger)
      → Reachable s
      → s.logger ≡ some l
      → Closable s.sockets
      → (s' : System) × (stop_stat_server s ≡ ok s')
        × (s'.logger ≡ none)
        × (s'.tracepoints ≡ all false)
        × All (λ t. t ≡ all false) s'.earlier
        × (s'.sockets ≡ closed_sockets s.sockets)
        × ((addr : ℕ) → s'.allocations.str_table.heap.text_at addr ≡ none)
        × Holds (λ obj. none) s'.allocations
  stop_stat_server-Reachable s l r p c =
      let h = Reachable-Consistent s r in
      let (a, q, gone, new) = clear_tables-all_freed s.allocations h.valid in
      (
        stopped s l a,
        stop_stat_server_runs s l a p q c,
        refl,
        (stopped-Consistent s l a p h gone new).agrees,
        h.silent,
        refl,
        gone,
        new,
      )

  pub stop_stat_server_twice :
      (s : System) (l : Logger)
      → Reachable s
      → s.logger ≡ some l
      → (is_closed s.sockets.publisher || is_closed s.sockets.response_socket) ≡ true
      → stop_stat_server s ≡ fault
  stop_stat_server_twice s l r p c =
      let (a, q, gone, new) =
        clear_tables-all_freed s.allocations (Reachable-Consistent s r).valid in
      stop_stat_server-closed s l a p q c

  -- A server that is stopped while a timer of the profiler runs, and none of its sockets was closed
  -- before, leaves the timer running and the array freed: to queue a message that is not empty reallocates the freed array.
  pub stop_stat_server_sampling :
      (s : System) (l : Logger) (k : Clock) (t : ℕ) (message : List ℕ)
      → Reachable s
      → s.logger ≡ some l
      → os.period_of k s.process ≡ some t
      → 0 < length message
      → Closable s.sockets
      → (s' : System) × (stop_stat_server s ≡ ok s')
        × (os.period_of k s'.process ≡ some t)
        × (queue_message message s'.messages ≡ fault)
  stop_stat_server_sampling s l k t message r p q h closable =
      let (a, c, gone, new) =
        clear_tables-all_freed s.allocations (Reachable-Consistent s r).valid in
      (
        stopped s l a,
        stop_stat_server_runs s l a p c closable,
        q,
        queue_message-message_list_destroy message s.messages h,
      )
