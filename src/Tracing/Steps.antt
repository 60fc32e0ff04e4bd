-- ===== src/Tracing/Steps.antt =====
-- The calls and the traced objects as steps, and the states that they reach.
use rbkit.Prelude.{ℕ, ◌^◌, ℤ, ◌<◌, ◌≡◌, Bool, true, false, Option, none, some, List, [], length, ok}
use rbkit.Aggregator.{unset}
use rbkit.Event.{CString}
use rbkit.Allocation.{
  Info, TraceArg, Allocations, new_rbkit_allocation_info, delete_rbkit_allocation_info,
}
use rbkit.Allocation.Table.{StTable}
use rbkit.Allocation.Strings.{Shared}
use rbkit.Allocation.History.{no_allocations}
use rbkit.Sampling.{Sampler}
use rbkit.Sampling.Signals.{Posix}
use rbkit.Tracing.Sockets.{ServerSockets}
use rbkit.Tracing.{
  Logger, System, all, start_stat_server, start_stat_tracing, stop_stat_tracing,
  start_sampling_profiler, stop_sampling_profiler, stop_stat_server,
}

-- Whether the logger says that tracing is on.
abbrev pub enabled_flag : Option Logger → Bool
enabled_flag none = false
enabled_flag (some l) = l.enabled

module _ ⦃os : Posix⦄ ⦃strings : StTable CString Shared⦄ ⦃objects : StTable ℕ Info⦄ where
  -- The calls that Ruby code makes, and the objects that the tracepoints see; the server is started
  -- when there is no logger.
  pub data Step : System → System → Type 0 where
    start_server :
        {s s' : System} (zmq_bind : List ℕ → Bool) (pub_port request_port : ℕ) (started : Bool)
        → s.logger ≡ none
        → start_stat_server zmq_bind pub_port request_port s ≡ ok (started, s')
        → Step s s'
    start_tracing : {s s' : System} → start_stat_tracing s ≡ ok s' → Step s s'
    stop_tracing : {s s' : System} → stop_stat_tracing s ≡ ok s' → Step s s'
    start_profiler :
        {s s' : System} (clock_type : Option Bool) (interval : ℤ)
        → start_sampling_profiler clock_type interval s ≡ ok s'
        → Step s s'
    stop_profiler : {s s' : System} → stop_sampling_profiler s ≡ ok s' → Step s s'
    object_made :
        {s : System} (arg : TraceArg) (info : Info) (a : Allocations)
        → s.tracepoints.newobj_trace ≡ true
        → arg.line < 2 ^ 31
        → length (objects.entries s.allocations.object_table) < 2 ^ 62
        → new_rbkit_allocation_info arg s.allocations ≡ ok (info, a)
        → Step s (record s { allocations = a })
    object_freed :
        {s : System} (obj : ℕ) (a : Allocations)
        → s.tracepoints.freeobj_trace ≡ true
        → length (objects.entries s.allocations.object_table) < 2 ^ 62
        → delete_rbkit_allocation_info obj s.allocations ≡ ok a
        → Step s (record s { allocations = a })
    stop_server : {s s' : System} → stop_stat_server s ≡ ok s' → Step s s'

  pub data Reachable : System → Type 0 where
    loaded :
        (c : Sampler) (p : os.Process) (k : ServerSockets)
        → Reachable (record {
          logger = none;
          tracepoints = all false;
          sampler = c;
          process = p;
          sockets = k;
          messages = unset;
          allocations = no_allocations;
          earlier = [];
        })
    step : {s s' : System} → Reachable s → Step s s' → Reachable s'
