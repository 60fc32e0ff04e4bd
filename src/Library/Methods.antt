-- ===== src/Library/Methods.antt =====
-- The methods of lib/rbkit/server.rb, but for the message dispatch loop.
use rbkit.Prelude.{
  ℕ, ℤ, pos, negsuc, Bool, true, false, not, ◌||◌, ◌&&◌, Option, none, some, List, ascii, leb, ◌==◌,
  if◌then◌else◌, Outcome, ok, raised, argument_error, ◌>>=◌,
}
use rbkit.Event.{CString}
use rbkit.Allocation.{Info}
use rbkit.Allocation.Table.{StTable}
use rbkit.Allocation.Strings.{Shared}
use rbkit.Sampling.Signals.{Posix}
use rbkit.Tracing.{
  start_stat_server, start_stat_tracing, start_sampling_profiler, stop_sampling_profiler,
  stop_stat_server,
}
use rbkit.Library.Names.{Name, symbol, is_sampling, clock_type_of}
use rbkit.Library.Timers.{new_timer}
use rbkit.Library.State.{Extension, Session, put_system, on_system}

-- The keyword arguments of `start`; none is a nil.
pub record StartOptions : Type 0 where
  pub enable_object_trace : Bool
  pub enable_gc_stats : Bool
  pub enable_cpu_profiling : Bool
  pub clock_type : Option Name
  pub cpu_profiling_mode : Option Name
  pub cpu_sampling_interval_usec : Option ℤ

-- x = y if y
abbrev pub given : {A : Type 0} → Option A → A → A
given none old = old
given (some new) old = new

-- The result is the port that was given.
unfoldable pub validate_port_range : ℤ → Outcome ℕ
validate_port_range (pos port) =
    if (port == 0) || (leb 1024 port && leb port 65000) then ok port else raised argument_error
validate_port_range (negsuc n) = raised argument_error

module _ ⦃os : Posix⦄ ⦃strings : StTable CString Shared⦄ ⦃objects : StTable ℕ Info⦄ where
  -- The ports are what `to_i` gave; `now` is the time when the timers are made.
  unfoldable pub initialize : ℤ → ℤ → ℕ → Extension → Outcome Session
  unfolding validate_port_range new_timer
  initialize pub_arg request_arg now x = do
    pub_port ← validate_port_range pub_arg
    request_port ← validate_port_range request_arg
    ok (record {
      pub_port = pub_port;
      request_port = request_port;
      stop_profiler_thread = false;
      server_running = false;
      enable_gc_stats = false;
      clock_type = symbol (ascii "cpu");
      cpu_profiling_mode = symbol (ascii "sampling");
      cpu_sampling_interval_usec = pos 1000;
      has_publish_callback = false;
      has_respond_callback = false;
      gc_stats_timer = new_timer 5 now;
      message_dispatch_timer = new_timer 1 now;
      extension = x;
    })

  unfoldable pub start_cpu_profiling : Name → Name → ℤ → Session → Outcome Session
  unfolding is_sampling clock_type_of
  start_cpu_profiling mode clock_type sampling_interval_usec s =
      let s' : Session = record s { cpu_profiling_mode = mode } in
      if is_sampling mode
      then on_system (start_sampling_profiler (clock_type_of clock_type) sampling_interval_usec) s'
      else ok s'

  unfoldable pub stop_cpu_profiling : Session → Outcome Session
  unfolding is_sampling
  stop_cpu_profiling s =
      if is_sampling s.cpu_profiling_mode then on_system stop_sampling_profiler s else ok s

  -- What `start` does once the extension has started: the mode of the profiler is not passed on.
  unfoldable pub configure : StartOptions → Session → Outcome Session
  unfolding start_cpu_profiling
  configure o s = do
    s₁ ← (if o.enable_object_trace then on_system start_stat_tracing s else ok s)
    let s₂ : Session = record s₁ {
      cpu_profiling_mode = given o.cpu_profiling_mode s₁.cpu_profiling_mode;
      clock_type = given o.clock_type s₁.clock_type;
      cpu_sampling_interval_usec = given o.cpu_sampling_interval_usec s₁.cpu_sampling_interval_usec;
    }
    s₃ ←
        (if o.enable_cpu_profiling
          then start_cpu_profiling (symbol (ascii "sampling")) s₂.clock_type
              s₂.cpu_sampling_interval_usec s₂
          else ok s₂)
    ok (record s₃ { enable_gc_stats = o.enable_gc_stats; server_running = true })

  -- What `start` makes of the result of `start_stat_server`.
  abbrev pub once_bound : StartOptions → Session → Bool → Outcome (Bool × Session)
  once_bound o s true = do s' ← configure o s; ok (true, s')
  once_bound o s false = ok (false, s)

  -- The first result is false for false, and true for the server.
  unfoldable pub start : (List ℕ → Bool) → StartOptions → Session → Outcome (Bool × Session)
  unfolding configure
  start zmq_bind o s = if s.server_running then ok (false, s) else (do
    (started, y) ← start_stat_server zmq_bind s.pub_port s.request_port s.extension.system
    once_bound o (put_system y s) started)

  unfoldable pub stop : Session → Outcome (Bool × Session)
  unfolding stop_cpu_profiling
  stop s = if not s.server_running then ok (false, s) else (do
    s₁ ← stop_cpu_profiling (record s { stop_profiler_thread = true })
    s₂ ← on_system stop_stat_server s₁
    ok (true, record s₂ { server_running = false }))
