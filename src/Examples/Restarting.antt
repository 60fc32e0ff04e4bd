-- ===== src/Examples/Restarting.antt =====
-- A server that is started with everything on, and started again.
use rbkit.Prelude.{
  ◌≡◌, refl, true, false, none, some, pos, ascii, inl, inr, ok, raised, arith, argument_error,
  range_error, in_int, fix2int, Outcome, fault, out_of_fuel,
}
use rbkit.Allocation.Tables.{object_table, str_table}
use rbkit.Msgpack.Wire.{message_pack}
use rbkit.Sampling.Process.{two_timers}
use rbkit.Tracing.{System, start_sampling_profiler}
use rbkit.Library.Names.{symbol, is_sampling, clock_type_of}
use rbkit.Library.Life.{Live, lived, profiling_started}
use rbkit.Library.OtherMode.{start_cpu_profiling-stop}
use rbkit.Sampling.Signals.{Clock, Signal}
use rbkit.Sampling.{rbkit_install_sampling_profiler, install_signal_handler, start_sigprof_timer}
use rbkit.Library.State.{Extension, Session, put_system}
use rbkit.Library.Methods.{StartOptions, initialize, start, stop, start_cpu_profiling}
use rbkit.Library.Api.{nil, server, no_options, start_server, stop_server}
use rbkit.Library.Dispatch.{LoopRound, dispatch_round}
use rbkit.Library.Views.{IsSymbol}
use rbkit.Library.Configure.{CanSample, clock_for, interval_for, StartedServer}
use rbkit.Library.Starting
use rbkit.Library.Starting.{start-Live}
use rbkit.Library.Restart.{stop-start-dispatch_round, stop_server-start_server}
use rbkit.Examples.Starting.{bindable}
use rbkit.Examples.Serving.{
  loaded_extension, made_session, made_session-Live, running_session, running_session-Live,
}

abbrev session_of : Session → Outcome Session → Session
session_of d (ok s) = s
session_of d (raised x) = d
session_of d fault = d
session_of d out_of_fuel = d

-- Everything is asked for, with the wall clock.
abbrev everything : StartOptions
everything = record {
  enable_object_trace = true;
  enable_gc_stats = true;
  enable_cpu_profiling = true;
  clock_type = some (symbol (ascii "wall"));
  cpu_profiling_mode = none;
  cpu_sampling_interval_usec = some (pos 2000);
}

start-Live_example :
    (Starting.bindable bindable everything made_session ≡ false
      → (y : System) × (start bindable everything made_session
          ≡ ok (false, put_system y made_session))
        × (y.logger ≡ none))
    × (Starting.bindable bindable everything made_session ≡ true
        → everything.enable_cpu_profiling ≡ true
        → (IsSymbol (clock_for everything made_session) → ⊥)
        → start bindable everything made_session ≡ raised argument_error)
    × (Starting.bindable bindable everything made_session ≡ true
        → everything.enable_cpu_profiling ≡ true
        → IsSymbol (clock_for everything made_session)
        → in_int (interval_for everything made_session) ≡ false
        → start bindable everything made_session ≡ raised range_error)
    × (Starting.bindable bindable everything made_session ≡ true
        → (everything.enable_cpu_profiling ≡ true
            → CanSample (clock_for everything made_session) (interval_for everything made_session))
        → (s' : Session) × (start bindable everything made_session ≡ ok (true, s'))
          × StartedServer everything made_session s')
unfolding made_session loaded_extension
start-Live_example =
    start-Live bindable everything made_session made_session-Live refl (omega arith) (omega arith)

stop-start-dispatch_round_example :
    (s₁ : Session) × (s₂ : Session) × (stop running_session ≡ ok (true, s₁))
    × (start bindable everything s₁ ≡ ok (true, s₂))
    × (s₂.server_running ≡ true)
    × ((w : LoopRound) → dispatch_round w s₂ ≡ ok none)
unfolding running_session made_session loaded_extension in_int
stop-start-dispatch_round_example =
    stop-start-dispatch_round running_session bindable everything running_session-Live refl
      (refl, refl) (omega arith) (omega arith) refl (λ on. (tt, refl))

stop_server-start_server_example :
    (x : Extension) × (fresh : Session) × (s' : Session) × (stop_server (server running_session)
      ≡ ok (true, nil x))
    × (stop_server (nil x) ≡ ok (false, nil x))
    × (start_server bindable (pos 5555) (pos 0) 9 (nil x) ≡ ok (true, server s'))
    × (initialize (pos 5555) (pos 0) 9 x ≡ ok fresh)
    × StartedServer no_options fresh s'
    × (s'.stop_profiler_thread ≡ false)
unfolding running_session made_session loaded_extension
stop_server-start_server_example =
    stop_server-start_server running_session bindable 5555 0 9 running_session-Live refl
      (refl, refl) (inr (omega arith, omega arith)) (inl refl) refl

-- The server samples, each millisecond of CPU time.
abbrev sampling_session : Session
unfolding running_session made_session loaded_extension two_timers start_cpu_profiling is_sampling
    clock_type_of start_sampling_profiler fix2int in_int rbkit_install_sampling_profiler
    install_signal_handler start_sigprof_timer
sampling_session = session_of running_session (
    start_cpu_profiling (symbol (ascii "sampling")) (symbol (ascii "cpu")) (pos 1000)
      running_session)

sampling_session-Live : Live sampling_session
unfolding sampling_session running_session made_session loaded_extension two_timers
    start_cpu_profiling is_sampling clock_type_of start_sampling_profiler fix2int in_int
    rbkit_install_sampling_profiler install_signal_handler start_sigprof_timer
sampling_session-Live =
    lived running_session-Live (profiling_started (symbol (ascii "cpu")) (pos 1000) refl)

start_cpu_profiling-stop_example :
    (s₁ : Session) × (s₂ : Session) × (start_cpu_profiling
        (symbol (ascii "tracing"))
        (symbol (ascii "cpu"))
        (pos 1000)
        sampling_session
      ≡ ok s₁)
    × (stop s₁ ≡ ok (true, s₂))
    × (s₂.extension.system.logger ≡ none)
    × ((k : Clock)
        → two_timers.period_of k s₂.extension.system.process
          ≡ two_timers.period_of k sampling_session.extension.system.process)
    × ((g : Signal)
        → two_timers.handler_of g s₂.extension.system.process
          ≡ two_timers.handler_of g sampling_session.extension.system.process)
unfolding sampling_session running_session made_session loaded_extension is_sampling
    start_cpu_profiling clock_type_of start_sampling_profiler fix2int in_int
    rbkit_install_sampling_profiler install_signal_handler start_sigprof_timer
start_cpu_profiling-stop_example =
    start_cpu_profiling-stop sampling_session (symbol (ascii "tracing")) (symbol (ascii "cpu"))
      (pos 1000) sampling_session-Live refl (refl, refl) refl
