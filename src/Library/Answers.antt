-- ===== src/Library/Answers.antt =====
-- `process_incoming_request` of lib/rbkit/server.rb, with the hooks of the extension that run while
-- it calls Ruby's collector.
use rbkit.Prelude.{ℕ, Bool, true, false, List, [], ◌∷◌, ascii, if◌then◌else◌, Outcome, ok, ◌>>=◌}
use rbkit.Time.{Timeval}
use rbkit.Event.{CString}
use rbkit.Allocation.{Info, Allocations}
use rbkit.Allocation.Counts.{allocation_of}
use rbkit.Allocation.Table.{StTable}
use rbkit.Allocation.Strings.{Shared}
use rbkit.ObjectGraph.{RubyObject}
use rbkit.Msgpack.{Msgpack}
use rbkit.Sampling.Signals.{Posix}
use rbkit.Server.{Server, gc_start_i, gc_end_mark_i, gc_end_sweep_i}
use rbkit.Server.Dump.{send_objectspace_dump}
use rbkit.Server.Objects.{NewObject, newobj_i, freeobj_i}
use rbkit.Server.Outlets.{send_command_ack}
use rbkit.Server.Requests.{ProcessStatus, send_handshake_response}
use rbkit.Tracing.{start_stat_tracing, stop_stat_tracing}
use rbkit.Library.Names.{Name, symbol, Request, request_of}
use rbkit.Library.State.{
  Session, server_of, put_server, put_system, on_server, on_system, status_of,
}
use rbkit.Library.Methods.{start_cpu_profiling, stop_cpu_profiling}

-- What Ruby does that the hooks of the extension see.
pub data VmEvent : Type 0 where
  object_made : NewObject → VmEvent
  object_freed : (obj object_id : ℕ) → VmEvent
  marking_started marking_ended sweeping_ended : VmEvent

-- What a request finds: the times at its events, the Ruby heap, the process, and what the collector
-- does when it is run.
pub record Surroundings : Type 0 where
  pub tv : Timeval
  pub clock : ℕ → Timeval
  pub ranges : List (List RubyObject)
  pub process : ProcessStatus
  pub collected : List VmEvent

module _ ⦃m : Msgpack⦄ ⦃os : Posix⦄ ⦃strings : StTable CString Shared⦄
    ⦃objects : StTable ℕ Info⦄ where
  -- A hook that reads the tables, too.
  abbrev pub on_tables :
      (Server → Allocations → Outcome (Server × Allocations)) → Session → Outcome Session
  on_tables f s = do
    (v, a) ← f (server_of s) s.extension.system.allocations
    let s' : Session = put_server v s
    ok (put_system (record s'.extension.system { allocations = a }) s')

  abbrev when : Bool → (Session → Outcome Session) → Session → Outcome Session
  when b f s = if b then f s else ok s

  -- Ruby calls a hook if its tracepoint is enabled.
  unfoldable pub vm_event : Timeval → VmEvent → Session → Outcome Session
  vm_event tv (object_made o) s =
      when s.extension.system.tracepoints.newobj_trace (on_tables (newobj_i tv o)) s
  vm_event tv (object_freed obj id) s =
      when s.extension.system.tracepoints.freeobj_trace (on_tables (freeobj_i tv obj id)) s
  vm_event tv marking_started s =
      when s.extension.system.tracepoints.gc_start (on_server (gc_start_i tv)) s
  vm_event tv marking_ended s =
      when s.extension.system.tracepoints.gc_end_mark (on_server (gc_end_mark_i tv)) s
  vm_event tv sweeping_ended s =
      when s.extension.system.tracepoints.gc_end_sweep (on_server (gc_end_sweep_i tv)) s

  unfoldable pub vm_events : Timeval → List VmEvent → Session → Outcome Session
  unfolding vm_event
  vm_events tv [] s = ok s
  vm_events tv (e ∷ es) s = do s' ← vm_event tv e s; vm_events tv es s'

  abbrev pub acknowledge : Server → Outcome Server
  acknowledge v = ok (record v { channels = send_command_ack v.channels })

  abbrev pub set_gc_stats : Bool → Session → Session
  set_gc_stats b s = record s { enable_gc_stats = b }

  abbrev pub set_clock : Name → Session → Session
  set_clock clock s = record s { clock_type = clock }

  abbrev pub dump_objects : Surroundings → Session → Server → Outcome Server
  dump_objects w s =
      send_objectspace_dump w.clock (allocation_of s.extension.system.allocations) w.ranges

  -- The branches of the `case`.
  unfoldable pub carry_out : Surroundings → Request → Session → Outcome Session
  unfolding vm_events
  carry_out w Request.start_memory_profile s = do
    s' ← on_system start_stat_tracing s
    ok (set_gc_stats true s')
  carry_out w Request.stop_memory_profile s = do
    s' ← on_system stop_stat_tracing s
    ok (set_gc_stats false s')
  carry_out w Request.trigger_gc s = vm_events w.tv w.collected s
  carry_out w Request.objectspace_snapshot s = on_server (dump_objects w s) s
  carry_out w Request.handshake s =
      on_server (send_handshake_response w.tv s.extension.system.logger (status_of w.process s)) s
  carry_out w Request.use_cpu_time s = ok (set_clock (symbol (ascii "cpu")) s)
  carry_out w Request.use_wall_time s = ok (set_clock (symbol (ascii "wall")) s)
  carry_out w Request.start_cpu_profiling s =
      start_cpu_profiling (symbol (ascii "sampling")) s.clock_type s.cpu_sampling_interval_usec s
  carry_out w Request.stop_cpu_profiling s = stop_cpu_profiling s
  carry_out w Request.unknown s = ok s

  -- A handshake returns before the acknowledgement.
  unfoldable pub answer : Surroundings → Request → Session → Outcome Session
  unfolding carry_out
  answer w Request.handshake s = carry_out w Request.handshake s
  answer w request s = do s' ← carry_out w request s; on_server acknowledge s'

  unfoldable pub process_incoming_request : Surroundings → CString → Session → Outcome Session
  unfolding answer request_of
  process_incoming_request w incoming_request s =
      if s.server_running then answer w (request_of incoming_request) s else ok s
