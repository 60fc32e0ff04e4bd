-- ===== src/Tracing.antt =====
-- The life of the logger of ext/rbkit_server.c: the server, the tracing and the sampling profiler are
-- started and stopped. The buffers of the logger are left out. The five
-- tracepoints exist from the start of the server on, which is before any logger is seen, so the tests
-- for them are left out.
pub mod Sockets
pub mod Endpoints
pub mod Returns
pub mod Binding
pub mod Steps
pub mod Consistent
pub mod Reach
pub mod Profiler
use rbkit.Prelude.{
  ℕ, ℤ, List, ◌>>=◌, Bool, true, false, Option, none, some, if◌then◌else◌, Outcome, ok, raised, ◌∷◌,
  fix2int, fix2nat, fault, argument_error,
}
use rbkit.Tracing.Sockets.{ServerSockets, bind_publisher, bind_responder, close_sockets}
use rbkit.Event.{CString}
use rbkit.Allocation.{Info, Allocations, new_tables, clear_tables}
use rbkit.Allocation.Table.{StTable}
use rbkit.Allocation.Strings.{Shared}
use rbkit.Sampling.{Sampler, rbkit_install_sampling_profiler, rbkit_uninstall_sampling_profiler}
use rbkit.Sampling.Signals.{Posix}
use rbkit.Aggregator.{MessageList, message_list_new, message_list_destroy}

-- The flags of rbkit_logger.
pub record Logger : Type 0 where
  pub enabled : Bool
  pub sampling_profiler_enabled : Bool

-- Which tracepoints of the logger Ruby runs: new and freed objects, and the three of the collector.
pub record Tracepoints : Type 0 where
  pub newobj_trace : Bool
  pub freeobj_trace : Bool
  pub gc_start : Bool
  pub gc_end_mark : Bool
  pub gc_end_sweep : Bool

abbrev pub all : Bool → Tracepoints
all b = record {
  newobj_trace = b;
  freeobj_trace = b;
  gc_start = b;
  gc_end_mark = b;
  gc_end_sweep = b;
}

abbrev pub new_logger : Logger
new_logger = record { enabled = false; sampling_profiler_enabled = false }

module _ ⦃os : Posix⦄ ⦃strings : StTable CString Shared⦄ ⦃objects : StTable ℕ Info⦄ where
  -- `logger` is none for the NULL pointer; the last two are what the profiler keeps and what it asks
  -- of the operating system.
  pub record System : Type 0 where
    pub logger : Option Logger
    pub tracepoints : Tracepoints
    pub sampler : Sampler
    pub process : os.Process
    pub sockets : ServerSockets
    pub messages : MessageList
    pub allocations : Allocations
    -- The tracepoints of earlier starts, which the logger has no longer: nothing disables them.
    pub earlier : List Tracepoints

  -- A new logger has new tables.
  unfoldable pub get_trace_logger : System → System
  unfolding new_tables
  get_trace_logger s = elim s.logger [
    | none ↦ record s {
      logger = some new_logger;
      allocations = new_tables s.allocations.str_table.heap;
    }
    | some l ↦ s
  ]

  -- New hooks of the collector, which are not enabled, in place of the old ones.
  unfoldable pub create_gc_hooks : System → System
  create_gc_hooks s = record s {
    earlier = record s.tracepoints { newobj_trace = false; freeobj_trace = false } ∷ s.earlier;
    tracepoints = record s.tracepoints {
      gc_start = false;
      gc_end_mark = false;
      gc_end_sweep = false;
    };
  }

  -- What follows the sockets: new tracepoints are not enabled, and take the place of the old ones.
  unfoldable pub start_logger : System → System
  unfolding get_trace_logger create_gc_hooks
  start_logger s =
      let s' = get_trace_logger (record s { messages = message_list_new s.messages }) in
      create_gc_hooks (record s' {
        tracepoints = record s'.tracepoints { newobj_trace = false; freeobj_trace = false };
        earlier =
            record (all false) {
              newobj_trace = s'.tracepoints.newobj_trace;
              freeobj_trace = s'.tracepoints.freeobj_trace;
            }
            ∷ s'.earlier;
      })

  -- What follows the two conversions. `request_port != 0` tests a VALUE, which is never 0.
  unfoldable pub open_server : (List ℕ → Bool) → ℕ → ℕ → System → Outcome (Bool × System)
  unfolding start_logger
  open_server zmq_bind pub_port request_port s = do
    (published, k) ← bind_publisher zmq_bind pub_port (record s.sockets { has_context = true })
    (answered, k') ← (if published then bind_responder zmq_bind request_port k else ok (false, k))
    let s' : System = record s { sockets = k' }
    ok (if answered then (true, start_logger s') else (false, s'))

  -- The first result is false for Qfalse. The ports are Ruby integers that are not negative.
  unfoldable pub start_stat_server : (List ℕ → Bool) → ℕ → ℕ → System → Outcome (Bool × System)
  unfolding open_server
  start_stat_server zmq_bind pub_port request_port s = do
    pub_port_int ← fix2nat pub_port
    req_port_int ← fix2nat request_port
    open_server zmq_bind pub_port_int req_port_int s

  -- logger->…: a fault at NULL
  abbrev with_logger : Option Logger → (Logger → Outcome System) → Outcome System
  with_logger none f = fault
  with_logger (some l) f = f l

  unfoldable pub start_stat_tracing : System → Outcome System
  start_stat_tracing s = with_logger s.logger λ l.
      if l.enabled
      then ok s
      else ok (record s { tracepoints = all true; logger = some (record l { enabled = true }) })

  unfoldable pub stop_stat_tracing : System → Outcome System
  stop_stat_tracing s =
      with_logger s.logger
        λ l. ok (record s { tracepoints = all false; logger = some (record l { enabled = false }) })

  -- The clock type is none for an object that is no symbol, and else whether it is `:wall`.
  unfoldable pub start_sampling_profiler : Option Bool → ℤ → System → Outcome System
  start_sampling_profiler clock_type interval s = with_logger s.logger λ l.
      if l.sampling_profiler_enabled then ok s else elim clock_type [
        | none ↦ raised argument_error
        | some wall ↦ fix2int interval >>= λ usec.
            let (c, p) = rbkit_install_sampling_profiler wall usec (s.sampler, s.process) in
            ok (record s {
              sampler = c;
              process = p;
              logger = some (record l { sampling_profiler_enabled = true });
            })
      ]

  unfoldable pub stop_sampling_profiler : System → Outcome System
  stop_sampling_profiler s = with_logger s.logger λ l.
      if l.sampling_profiler_enabled
      then (let (c, p) = rbkit_uninstall_sampling_profiler (s.sampler, s.process) in
          ok (record s {
            sampler = c;
            process = p;
            logger = some (record l { sampling_profiler_enabled = false });
          }))
      else ok s

  unfoldable pub stop_stat_server : System → Outcome System
  unfolding clear_tables close_sockets
  stop_stat_server s = with_logger s.logger λ l. do
    a ← clear_tables s.allocations
    k ← close_sockets s.sockets
    ok (record s {
      tracepoints = if l.enabled then all false else s.tracepoints;
      messages = message_list_destroy s.messages;
      allocations = a;
      sockets = k;
      logger = none;
    })
