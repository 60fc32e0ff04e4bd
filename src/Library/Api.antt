-- ===== src/Library/Api.antt =====
-- lib/rbkit.rb: the functions that a Ruby program calls.
use rbkit.Prelude.{ℕ, ℤ, Bool, false, List, if◌then◌else◌, none, some, Outcome, ok, ◌>>=◌}
use rbkit.Event.{CString}
use rbkit.Allocation.{Info}
use rbkit.Allocation.Table.{StTable}
use rbkit.Allocation.Strings.{Shared}
use rbkit.Sampling.Signals.{Posix}
use rbkit.Library.Names.{Name}
use rbkit.Library.State.{Extension, Session}
use rbkit.Library.Methods.{StartOptions, initialize, start, stop}

-- The arguments of `start_profiling`.
pub record ProfilingOptions : Type 0 where
  pub enable_object_trace : Bool
  pub enable_gc_stats : Bool
  pub enable_cpu_profiling : Bool
  pub clock_type : Name
  pub cpu_profiling_mode : Name
  pub cpu_sampling_interval_usec : ℤ

-- `start` with no arguments.
abbrev pub no_options : StartOptions
no_options = record {
  enable_object_trace = false;
  enable_gc_stats = false;
  enable_cpu_profiling = false;
  clock_type = none;
  cpu_profiling_mode = none;
  cpu_sampling_interval_usec = none;
}

-- `cpu_profiling_mode` is not passed on.
unfoldable pub options_of : ProfilingOptions → StartOptions
options_of o = record {
  enable_object_trace = o.enable_object_trace;
  enable_gc_stats = o.enable_gc_stats;
  enable_cpu_profiling = o.enable_cpu_profiling;
  clock_type = some o.clock_type;
  cpu_profiling_mode = none;
  cpu_sampling_interval_usec = some o.cpu_sampling_interval_usec;
}

module _ ⦃os : Posix⦄ ⦃strings : StTable CString Shared⦄ ⦃objects : StTable ℕ Info⦄ where
  -- @server of the module: nil, where only the statics are left, or a server.
  pub data Api : Type 0 where
    nil : Extension → Api
    server : Session → Api

  -- @server ||= Rbkit::Server.new
  unfoldable pub server_or_new : ℤ → ℤ → ℕ → Api → Outcome Session
  server_or_new pub_port request_port now (nil x) = initialize pub_port request_port now x
  server_or_new pub_port request_port now (server s) = ok s

  unfoldable pub start_server : (List ℕ → Bool) → ℤ → ℤ → ℕ → Api → Outcome (Bool × Api)
  unfolding server_or_new
  start_server zmq_bind pub_port request_port now a = do
    s ← server_or_new pub_port request_port now a
    (started, s') ← start zmq_bind no_options s
    ok (started, server s')

  unfoldable pub start_profiling :
      (List ℕ → Bool) → ℤ → ℤ → ℕ → ProfilingOptions → Api → Outcome (Bool × Api)
  unfolding server_or_new options_of
  start_profiling zmq_bind pub_port request_port now o a = do
    s ← server_or_new pub_port request_port now a
    (started, s') ← start zmq_bind (options_of o) s
    ok (started, server s')

  unfoldable pub stop_server : Api → Outcome (Bool × Api)
  stop_server (nil x) = ok (false, nil x)
  stop_server (server s) = do
    (stopped, s') ← stop s
    ok (stopped, if stopped then nil s'.extension else server s')
