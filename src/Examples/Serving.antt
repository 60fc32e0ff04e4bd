-- ===== src/Examples/Serving.antt =====
-- A server that is made, started, asked, stopped and started again.
use rbkit.Prelude.{◌≡◌, refl, true, false, none, some, [], ◌∷◌, All, pos, ascii, ok, fix2nat}
use rbkit.Aggregator.{unset, message_list_new}
use rbkit.Aggregator.Refine.{message_list_new-Represents}
use rbkit.Allocation.{new_tables}
use rbkit.Allocation.History.{no_allocations}
use rbkit.Allocation.Tables.{object_table, str_table}
use rbkit.Msgpack.Wire.{message_pack}
use rbkit.Sampling.Process.{two_timers}
use rbkit.Tracing.{
  all, new_logger, start_logger, create_gc_hooks, get_trace_logger, open_server, start_stat_server,
}
use rbkit.Tracing.Sockets.{digits, sprintf_endpoint, bind_publisher, bind_responder}
use rbkit.Tracing.Steps.{loaded, enabled_flag}
use rbkit.Library.Names.{symbol, request_of, is_sampling}
use rbkit.Library.Timers.{new_timer}
use rbkit.Library.State.{Extension, Session, is_set}
use rbkit.Library.Methods.{validate_port_range, initialize, configure, start, stop}
use rbkit.Library.Answers.{Surroundings, process_incoming_request}
use rbkit.Library.Api.{no_options}
use rbkit.Library.Life.{Live, made, lived, start_called}
use rbkit.Library.Sound.{sampling_flag}
use rbkit.Library.Invariant.{server_running-Live, stop-Live}
use rbkit.Library.SoundStop.{StoppedServer}
use rbkit.Library.Views.{Answered}
use rbkit.Library.Replies.{process_incoming_request-Answered}
use rbkit.Examples.Starting.{no_sampler, quiet, no_sockets, bindable, both_bound}
use rbkit.Examples.Answering.{ruby_process, ruby_process_packable}
use rbkit.Examples.Sending.{midnight}

-- The statics when the extension is loaded.
unfoldable abbrev pub loaded_extension : Extension
unfolding two_timers
loaded_extension = record {
  system = record {
    logger = none;
    tracepoints = all false;
    sampler = no_sampler;
    process = quiet;
    sockets = no_sockets;
    messages = unset;
    allocations = no_allocations;
    earlier = [];
  };
  packer = record { counter = 0; heap = record { fresh = 1; page_at = λ a. none } };
  last_correlation_id = 0;
  test_mode_enabled = false;
  registered_jobs = 0;
  published = [];
  publish_called = [];
  responded = [];
  respond_called = [];
}

unfoldable abbrev pub made_session : Session
unfolding new_timer
made_session = record {
  pub_port = 5555;
  request_port = 5556;
  stop_profiler_thread = false;
  server_running = false;
  enable_gc_stats = false;
  clock_type = symbol (ascii "cpu");
  cpu_profiling_mode = symbol (ascii "sampling");
  cpu_sampling_interval_usec = pos 1000;
  has_publish_callback = false;
  has_respond_callback = false;
  gc_stats_timer = new_timer 5 7;
  message_dispatch_timer = new_timer 1 7;
  extension = loaded_extension;
}

pub made_session-Live : Live made_session
unfolding made_session loaded_extension initialize validate_port_range new_timer two_timers
made_session-Live =
    made loaded_extension (pos 5555) (pos 5556) 7 (loaded no_sampler quiet no_sockets) refl refl

-- The server once it runs.
unfoldable abbrev pub running_session : Session
unfolding made_session loaded_extension
running_session = record made_session {
  server_running = true;
  extension = record loaded_extension {
    system = record loaded_extension.system {
      logger = some new_logger;
      sockets = both_bound;
      messages = message_list_new unset;
      earlier = all false ∷ all false ∷ [];
    };
  };
}

pub running_session-Live : Live running_session
unfolding running_session made_session start configure start_stat_server bind_publisher
    bind_responder sprintf_endpoint digits start_logger get_trace_logger create_gc_hooks new_tables
    loaded_extension open_server fix2nat
running_session-Live = lived made_session-Live (start_called bindable no_options true refl)

server_running-Live_example :
    (running_session.server_running ≡ is_set running_session.extension.system.logger)
    × (running_session.extension.system.tracepoints
        ≡ all (enabled_flag running_session.extension.system.logger))
    × All (λ t. t ≡ all false) running_session.extension.system.earlier
    × (sampling_flag running_session.extension.system.logger ≡ true
        → is_sampling running_session.cpu_profiling_mode ≡ true)
server_running-Live_example = server_running-Live running_session running_session-Live

stop-Live_example :
    (s' : Session) × (stop running_session ≡ ok (true, s')) × StoppedServer running_session s'
unfolding running_session
stop-Live_example = stop-Live running_session running_session-Live refl (refl, refl)

-- A handshake.
abbrev pub surroundings : Surroundings
surroundings = record {
  tv = midnight;
  clock = λ k. midnight;
  ranges = [];
  process = ruby_process;
  collected = [];
}

process_incoming_request-Answered_example :
    (s' : Session) × (process_incoming_request surroundings (ascii "handshake") running_session
      ≡ ok s')
    × Answered surroundings running_session [] (request_of (ascii "handshake")) s'
unfolding request_of running_session
process_incoming_request-Answered_example =
    process_incoming_request-Answered surroundings running_session [] (ascii "handshake")
      running_session-Live refl (message_list_new-Represents unset) ruby_process_packable
