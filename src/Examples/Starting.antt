-- ===== src/Examples/Starting.antt =====
-- A server that traces and samples, and is stopped.
use rbkit.Prelude.{
  inl, inr, raised, range_error, ◌^◌, ℕ, Bool, List, ascii, false, All, in_int, fix2int, fix2nat,
  ◌≡◌, refl, true, false, some, none, pos, [], ◌∷◌, ok, fault, arith,
}
use rbkit.Aggregator.{unset, message_list_new, message_list_destroy, queue_message}
use rbkit.Allocation.{new_tables, clear_tables, free_keys}
use rbkit.Allocation.History.{no_allocations, Holds}
use rbkit.Allocation.Tables.{object_table, str_table}
use rbkit.Allocation.{Info, new_rbkit_allocation_info, release, class_path_of}
use rbkit.Allocation.Strings.{make_unique_str, new_string, c_string, put}
use rbkit.Allocation.History.{act_all, act}
use rbkit.Examples.Allocating.{first_report, one_object}
use rbkit.Sampling.{
  Sampler, install_signal_handler, start_sigprof_timer, rbkit_install_sampling_profiler,
}
use rbkit.Sampling.Signals.{sigprof, itimer_prof, itimer_real, sig_dfl}
use rbkit.Sampling.Process.{two_timers, Asked}
use rbkit.Tracing.Sockets.{
  null, bound, ServerSockets, closed_sockets, close_sockets, zmq_close, digits, sprintf_endpoint,
  bind_publisher, bind_responder,
}
use rbkit.Tracing.Binding.{
  Served, start_stat_server-Served, start_stat_server-fault, start_stat_server-raised,
}
use rbkit.Tracing.{
  start_logger, open_server, create_gc_hooks, new_logger, Logger, System, all, get_trace_logger,
  start_stat_server, start_stat_tracing, start_sampling_profiler, stop_sampling_profiler,
  stop_stat_server,
}
use rbkit.Tracing.Steps.{
  Reachable, loaded, step, start_server, start_tracing, start_profiler, object_made, stop_server,
}
use rbkit.Tracing.Reach.{
  stop_stat_server_sampling, stop_stat_server-Reachable, stop_stat_server_twice,
}
use rbkit.Tracing.Profiler.{Started, Stopped, start_sampling_profiler-stop_sampling_profiler}

abbrev pub no_sampler : Sampler
no_sampler = record {
  signal_type = sigprof;
  clock_type = itimer_prof;
  has_queue_func = false;
  sampling_jobs = 0;
}

abbrev pub quiet : Asked
quiet = record { handlers = λ g. sig_dfl; periods = λ c. none }

-- Sampled each millisecond of wall time.
abbrev busy_logger : Logger
busy_logger = record { enabled = true; sampling_profiler_enabled = true }

-- The sockets before the first start, and after it with two ports that are free.
abbrev pub no_sockets : ServerSockets
no_sockets = record {
  has_context = false;
  publisher = null;
  response_socket = null;
  polled = false;
}

abbrev pub bindable : List ℕ → Bool
bindable endpoint = true

abbrev pub both_bound : ServerSockets
both_bound = record {
  has_context = true;
  publisher = bound (ascii "tcp://127.0.0.1:5555");
  response_socket = bound (ascii "tcp://127.0.0.1:5556");
  polled = true;
}

abbrev busy : System
unfolding rbkit_install_sampling_profiler install_signal_handler start_sigprof_timer two_timers
busy =
    let (c, p) = rbkit_install_sampling_profiler true (pos 1000) (no_sampler, quiet) in
    record {
      logger = some busy_logger;
      tracepoints = all true;
      sampler = c;
      process = p;
      sockets = both_bound;
      messages = message_list_new unset;
      allocations = no_allocations;
      earlier = all false ∷ all false ∷ [];
    }

busy-Reachable : Reachable busy
unfolding start_stat_server bind_publisher bind_responder sprintf_endpoint digits start_logger
    get_trace_logger create_gc_hooks new_tables start_stat_tracing start_sampling_profiler
    two_timers rbkit_install_sampling_profiler open_server fix2nat fix2int in_int
busy-Reachable =
    step
      (step
        (step (loaded no_sampler quiet no_sockets) (start_server bindable 5555 5556 true refl refl))
        (start_tracing refl))
      (start_profiler (some true) (pos 1000) refl)

busy_period : two_timers.period_of itimer_real busy.process ≡ some 1000
unfolding two_timers rbkit_install_sampling_profiler install_signal_handler start_sigprof_timer
busy_period = refl

stop_stat_server_sampling_example :
    (s' : System) × (stop_stat_server busy ≡ ok s')
    × (two_timers.period_of itimer_real s'.process ≡ some 1000)
    × (queue_message (0xc0 ∷ []) s'.messages ≡ fault)
unfolding busy
stop_stat_server_sampling_example =
    stop_stat_server_sampling busy busy_logger itimer_real 1000 (0xc0 ∷ []) busy-Reachable refl
      busy_period (omega arith) (refl, refl)

-- Tracing is on, and sampling is off.
abbrev tracing : System
unfolding two_timers
tracing = record {
  logger = some (record busy_logger { sampling_profiler_enabled = false });
  tracepoints = all true;
  sampler = no_sampler;
  process = quiet;
  sockets = both_bound;
  messages = message_list_new unset;
  allocations = no_allocations;
  earlier = [];
}

start_sampling_profiler-stop_sampling_profiler_example :
    (on : System) × (start_sampling_profiler (some true) (pos 1_000_000) tracing ≡ ok on)
    × (on.logger ≡ some busy_logger)
    × Started tracing true (pos 1_000_000) on
    × ((off : System) × (stop_sampling_profiler on ≡ ok off)
        × (off.logger ≡ tracing.logger)
        × Stopped tracing true off)
unfolding tracing in_int
start_sampling_profiler-stop_sampling_profiler_example =
    start_sampling_profiler-stop_sampling_profiler tracing
      (record busy_logger { sampling_profiler_enabled = false }) true (pos 1_000_000) refl refl refl

abbrev loaded_system : System
unfolding two_timers
loaded_system = record {
  logger = none;
  tracepoints = all false;
  sampler = no_sampler;
  process = quiet;
  sockets = no_sockets;
  messages = unset;
  allocations = no_allocations;
  earlier = [];
}

start_stat_server-Served_example :
    (s' : System) × (start_stat_server bindable 5555 5556 loaded_system ≡ ok (true, s'))
    × Served bindable 5555 5556 loaded_system true s'
start_stat_server-Served_example =
    start_stat_server-Served bindable 5555 5556 loaded_system (omega arith) (omega arith)

start_stat_server-fault_example : start_stat_server bindable 10000 5556 loaded_system ≡ fault
start_stat_server-fault_example =
    start_stat_server-fault bindable 10000 5556 loaded_system (omega arith) (omega arith)
      (inl (omega arith))

start_stat_server-raised_example :
    start_stat_server bindable 10000 (2 ^ 31) loaded_system ≡ raised range_error
start_stat_server-raised_example =
    start_stat_server-raised bindable 10000 (2 ^ 31) loaded_system (inr (omega arith))

-- The info of the object that was traced.
abbrev first_info : Info
first_info = record { path = 1; line = 7; class_path = 2; method_id = 3; generation = 2 }

-- The busy server has seen that object.
abbrev busy_traced : System
unfolding busy
busy_traced = record busy { allocations = one_object }

busy_traced-Reachable : Reachable busy_traced
unfolding busy_traced new_tables object_table str_table act_all act new_rbkit_allocation_info
    make_unique_str release class_path_of new_string c_string put
busy_traced-Reachable =
    step busy-Reachable
      (object_made first_report first_info one_object refl (omega arith) (omega arith) refl)

stop_stat_server-Reachable_example :
    (s' : System) × (stop_stat_server busy_traced ≡ ok s')
    × (s'.logger ≡ none)
    × (s'.tracepoints ≡ all false)
    × All (λ t. t ≡ all false) s'.earlier
    × (s'.sockets ≡ closed_sockets busy_traced.sockets)
    × ((addr : ℕ) → s'.allocations.str_table.heap.text_at addr ≡ none)
    × Holds (λ obj. none) s'.allocations
unfolding busy_traced
stop_stat_server-Reachable_example =
    stop_stat_server-Reachable busy_traced busy_logger busy_traced-Reachable refl (refl, refl)

-- The server was started, stopped, and started again with no ports.
abbrev once : System
unfolding two_timers
once = record loaded_system {
  logger = some new_logger;
  sockets = both_bound;
  messages = message_list_new unset;
  earlier = all false ∷ all false ∷ [];
}

abbrev after_once : System
unfolding once
after_once = record once {
  logger = none;
  sockets = closed_sockets both_bound;
  messages = message_list_destroy (message_list_new unset);
}

abbrev twice : System
unfolding after_once
twice = record after_once {
  logger = some new_logger;
  messages = message_list_new (message_list_destroy (message_list_new unset));
  earlier = all false ∷ all false ∷ all false ∷ all false ∷ [];
}

once-Reachable : Reachable once
unfolding once loaded_system start_stat_server open_server fix2nat bind_publisher bind_responder
    sprintf_endpoint digits start_logger get_trace_logger create_gc_hooks new_tables two_timers
once-Reachable =
    step (loaded no_sampler quiet no_sockets) (start_server bindable 5555 5556 true refl refl)

after_once-Reachable : Reachable after_once
unfolding once after_once stop_stat_server clear_tables free_keys close_sockets zmq_close new_tables
    object_table str_table
after_once-Reachable = step once-Reachable (stop_server {s = once} {s' = after_once} refl)

twice-Reachable : Reachable twice
unfolding once after_once twice start_stat_server open_server fix2nat bind_publisher bind_responder
    start_logger get_trace_logger create_gc_hooks new_tables object_table str_table
twice-Reachable =
    step after_once-Reachable
      (start_server {s = after_once} {s' = twice} bindable 0 0 true refl refl)

stop_stat_server_twice_example : stop_stat_server twice ≡ fault
unfolding once after_once twice
stop_stat_server_twice_example = stop_stat_server_twice twice new_logger twice-Reachable refl refl
