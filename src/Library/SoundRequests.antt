-- ===== src/Library/SoundRequests.antt =====
-- The requests keep a server of lib/rbkit/server.rb sound.
use rbkit.Prelude.{ℕ, ◌≡◌, subst, Bool, true, false, ascii, ok, ◌>>=◌, bind-ok, ok_injective}
use rbkit.Event.{CString}
use rbkit.Allocation.{Info}
use rbkit.Allocation.Table.{StTable}
use rbkit.Allocation.Strings.{Shared}
use rbkit.Msgpack.{Msgpack}
use rbkit.Sampling.Signals.{Posix}
use rbkit.Tracing.{start_stat_tracing, stop_stat_tracing}
use rbkit.Server.Requests.{send_handshake_response}
use rbkit.Library.Names.{Name, symbol, Request, request_of}
use rbkit.Library.State.{Session, on_server, on_system, status_of}
use rbkit.Library.Answers.{
  Surroundings, acknowledge, set_gc_stats, set_clock, dump_objects, carry_out, answer,
  process_incoming_request,
}
use rbkit.Library.Life.{AllBounded}
use rbkit.Library.Sound.{
  Sound, on_server-Sound, start_stat_tracing-Sound, stop_stat_tracing-Sound,
  start_cpu_profiling-Sound, stop_cpu_profiling-Sound,
}
use rbkit.Library.SoundHooks.{if-Sound, vm_events-Sound}

module _ ⦃m : Msgpack⦄ ⦃os : Posix⦄ ⦃strings : StTable CString Shared⦄
    ⦃objects : StTable ℕ Info⦄ where
  set_gc_stats-Sound : (b : Bool) (s : Session) → Sound s → Sound (set_gc_stats b s)
  set_gc_stats-Sound b s h = record {
    consistent = h.consistent;
    running = h.running;
    sampled = h.sampled;
  }

  set_clock-Sound : (clock : Name) (s : Session) → Sound s → Sound (set_clock clock s)
  set_clock-Sound clock s h = record {
    consistent = h.consistent;
    running = h.running;
    sampled = h.sampled;
  }

  carry_out-Sound :
      (w : Surroundings) (r : Request) (s s' : Session)
      → AllBounded w.tv w.collected s
      → carry_out w r s ≡ ok s'
      → Sound s
      → Sound s'
  unfolding carry_out
  carry_out-Sound w Request.start_memory_profile s s' b e h =
      let (s₁, q, r) = bind-ok (on_system start_stat_tracing s) _ s' e in
      subst Sound (ok_injective r) (set_gc_stats-Sound true s₁ (start_stat_tracing-Sound s s₁ q h))
  carry_out-Sound w Request.stop_memory_profile s s' b e h =
      let (s₁, q, r) = bind-ok (on_system stop_stat_tracing s) _ s' e in
      subst Sound (ok_injective r) (set_gc_stats-Sound false s₁ (stop_stat_tracing-Sound s s₁ q h))
  carry_out-Sound w Request.trigger_gc s s' b e h = vm_events-Sound w.tv w.collected s s' b e h
  carry_out-Sound w Request.objectspace_snapshot s s' b e h =
      on_server-Sound (dump_objects w s) s s' e h
  carry_out-Sound w Request.handshake s s' b e h =
      on_server-Sound
        (send_handshake_response w.tv s.extension.system.logger (status_of w.process s)) s s' e h
  carry_out-Sound w Request.use_cpu_time s s' b e h =
      subst Sound (ok_injective e) (set_clock-Sound (symbol (ascii "cpu")) s h)
  carry_out-Sound w Request.use_wall_time s s' b e h =
      subst Sound (ok_injective e) (set_clock-Sound (symbol (ascii "wall")) s h)
  carry_out-Sound w Request.start_cpu_profiling s s' b e h =
      start_cpu_profiling-Sound s.clock_type s.cpu_sampling_interval_usec s s' e h
  carry_out-Sound w Request.stop_cpu_profiling s s' b e h = stop_cpu_profiling-Sound s s' e h
  carry_out-Sound w Request.unknown s s' b e h = subst Sound (ok_injective e) h

  acknowledged-Sound :
      (w : Surroundings) (r : Request) (s s' : Session)
      → AllBounded w.tv w.collected s
      → (carry_out w r s >>= on_server acknowledge) ≡ ok s'
      → Sound s
      → Sound s'
  acknowledged-Sound w r s s' b e h =
      let (s₁, q, r') = bind-ok (carry_out w r s) (on_server acknowledge) s' e in
      on_server-Sound acknowledge s₁ s' r' (carry_out-Sound w r s s₁ b q h)

  answer-Sound :
      (w : Surroundings) (r : Request) (s s' : Session)
      → AllBounded w.tv w.collected s
      → answer w r s ≡ ok s'
      → Sound s
      → Sound s'
  unfolding answer
  answer-Sound w Request.handshake s s' b e h = carry_out-Sound w Request.handshake s s' b e h
  answer-Sound w Request.start_memory_profile s s' b e h =
      acknowledged-Sound w Request.start_memory_profile s s' b e h
  answer-Sound w Request.stop_memory_profile s s' b e h =
      acknowledged-Sound w Request.stop_memory_profile s s' b e h
  answer-Sound w Request.trigger_gc s s' b e h = acknowledged-Sound w Request.trigger_gc s s' b e h
  answer-Sound w Request.objectspace_snapshot s s' b e h =
      acknowledged-Sound w Request.objectspace_snapshot s s' b e h
  answer-Sound w Request.use_cpu_time s s' b e h =
      acknowledged-Sound w Request.use_cpu_time s s' b e h
  answer-Sound w Request.use_wall_time s s' b e h =
      acknowledged-Sound w Request.use_wall_time s s' b e h
  answer-Sound w Request.start_cpu_profiling s s' b e h =
      acknowledged-Sound w Request.start_cpu_profiling s s' b e h
  answer-Sound w Request.stop_cpu_profiling s s' b e h =
      acknowledged-Sound w Request.stop_cpu_profiling s s' b e h
  answer-Sound w Request.unknown s s' b e h = acknowledged-Sound w Request.unknown s s' b e h

  pub process_incoming_request-Sound :
      (w : Surroundings) (request : CString) (s s' : Session)
      → AllBounded w.tv w.collected s
      → process_incoming_request w request s ≡ ok s'
      → Sound s
      → Sound s'
  unfolding process_incoming_request
  process_incoming_request-Sound w request s s' b e h =
      if-Sound s.server_running (answer w (request_of request)) s s'
        (λ on q. answer-Sound w (request_of request) s s' b q h) e h
