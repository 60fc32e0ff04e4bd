-- ===== src/Library/Invariant.antt =====
-- What holds of a server of lib/rbkit/server.rb after any calls, and what it comes to when it is
-- stopped.
use rbkit.Prelude.{
  ℕ, ◌≡◌, sym, ◌∙◌, ap, subst, Bool, true, false, Bool-cases, inl, inr, not, All, none, ok,
  ok_injective, if_true,
}
use rbkit.Event.{CString}
use rbkit.Allocation.{Info}
use rbkit.Allocation.Table.{StTable}
use rbkit.Allocation.Strings.{Shared}
use rbkit.Msgpack.{Msgpack}
use rbkit.Sampling.Signals.{Posix}
use rbkit.Server.{trigger_publish_callback, queue_cpu_sample_for_sending}
use rbkit.Tracing.Consistent.{Reachable-Consistent}
use rbkit.Library.Names.{is_sampling}
use rbkit.Library.State.{is_set, Session}
use rbkit.Library.Methods.{stop}
use rbkit.Library.Life.{
  SessionStep, start_called, stop_called, profiling_started, other_mode_set, profiling_stopped,
  requested, round_done, vm_event_seen, job_run, sample_taken, Live, made, replaced, lived,
}
use rbkit.Library.Sound.{
  sampling_flag, Sound, on_server-Sound, start_cpu_profiling-Sound, other_mode-Sound,
  stop_cpu_profiling-Sound,
}
use rbkit.Library.SoundHooks.{vm_event-Sound}
use rbkit.Library.SoundStart.{initialize-Sound, start-Sound}
use rbkit.Library.SoundStop.{StoppedServer, stop-StoppedServer, stop-Closable, stop-Sound}
use rbkit.Tracing.Sockets.{Closable}
use rbkit.Library.SoundRounds.{dispatch_round-Sound}
use rbkit.Tracing.Steps.{enabled_flag}
use rbkit.Tracing.{all}
use rbkit.Library.Names.{is_sampling}
use rbkit.Library.SoundRequests.{process_incoming_request-Sound}

module _ ⦃m : Msgpack⦄ ⦃os : Posix⦄ ⦃strings : StTable CString Shared⦄
    ⦃objects : StTable ℕ Info⦄ where
  SessionStep-Sound : (s s' : Session) → SessionStep s s' → Sound s → Sound s'
  SessionStep-Sound s s' (start_called zmq_bind o b e) h = start-Sound zmq_bind o b s s' e h
  SessionStep-Sound s s' (stop_called b e) h = stop-Sound b s s' e h
  SessionStep-Sound s s' (profiling_started clock i e) h =
      start_cpu_profiling-Sound clock i s s' e h
  SessionStep-Sound s s' (other_mode_set mode clock i other silent e) h =
      other_mode-Sound mode clock i s s' other silent e h
  SessionStep-Sound s s' (profiling_stopped e) h = stop_cpu_profiling-Sound s s' e h
  SessionStep-Sound s s' (requested w request b e) h =
      process_incoming_request-Sound w request s s' b e h
  SessionStep-Sound s s' (round_done w b e) h = dispatch_round-Sound w s s' b e h
  SessionStep-Sound s s' (vm_event_seen tv x b e) h = vm_event-Sound tv x s s' b e h
  SessionStep-Sound s s' (job_run tv e) h = on_server-Sound (trigger_publish_callback tv) s s' e h
  SessionStep-Sound s s' (sample_taken tv taken e) h =
      on_server-Sound (queue_cpu_sample_for_sending tv taken) s s' e h

  stopped_before :
      (s s' : Session) → stop s ≡ ok (true, s') → Sound s → s'.extension.system.logger ≡ none
  unfolding stop
  stopped_before s s' e h = elim (Bool-cases s.server_running) [
    | inl on ↦
        let (s₁, q, ends, h₁) = stop-StoppedServer s h on (stop-Closable s s' true h on e) in
        subst (λ (x : Session). x.extension.system.logger ≡ none)
          (ap (λ (p : Bool × Session). p.1) (ok_injective (sym q ∙ e))) ends.no_logger
    | inr off ↦
        let r : ok (false, s) ≡ ok (true, s') = sym (if_true _ _ (ap not off)) ∙ e in
        cc (ap (λ (p : Bool × Session). p.0) (ok_injective r))
  ]

  pub Live-Sound : (s : Session) → Live s → Sound s
  Live-Sound s (made x p r now reach n e) =
      initialize-Sound p r now x s e (Reachable-Consistent x.system reach) n
  Live-Sound s (replaced {s = s₀} {s' = s₁} p r now live q e) =
      let h = Live-Sound s₀ live in
      initialize-Sound p r now s₁.extension s e (stop-Sound true s₀ s₁ q h).consistent
        (stopped_before s₀ s₁ q h)
  Live-Sound s (lived {s = s₀} live x) = SessionStep-Sound s₀ s x (Live-Sound s₀ live)

  -- After any calls of start, stop, start_cpu_profiling and stop_cpu_profiling that return, rounds of
  -- the dispatch loop, requests of clients and events of the Ruby VM, also of a server made in place
  -- of a stopped one, where start_cpu_profiling is called with another mode than `sampling` only
  -- while nothing is sampled, and with fewer than 2 ^ 62 objects known at each traced event: a
  -- logger exists exactly while the server runs, its five tracepoints run exactly if it says that
  -- tracing is on, no tracepoint of an earlier start runs, and while the profiler samples the mode
  -- is the one that stop_cpu_profiling stops.
  pub server_running-Live :
      (s : Session)
      → Live s
      → (s.server_running ≡ is_set s.extension.system.logger)
        × (s.extension.system.tracepoints ≡ all (enabled_flag s.extension.system.logger))
        × All (λ t. t ≡ all false) s.extension.system.earlier
        × (sampling_flag s.extension.system.logger ≡ true → is_sampling s.cpu_profiling_mode ≡ true)
  server_running-Live s live =
      let h = Live-Sound s live in (h.running, h.consistent.agrees, h.consistent.silent, h.sampled)

  -- After any calls of start, stop, start_cpu_profiling and stop_cpu_profiling that return, rounds of
  -- the dispatch loop, requests of clients and events of the Ruby VM, also of a server made in place
  -- of a stopped one, where start_cpu_profiling is called with another mode than `sampling` only
  -- while nothing is sampled, and with fewer than 2 ^ 62 objects known at each traced event, a
  -- server that runs can be stopped if neither socket pointer is that of a socket closed before: the
  -- call returns true, and then the dispatch loop is told to end, there is no logger, no tracepoint
  -- runs, of this start or of an earlier one, each socket is closed whose pointer is not NULL, no
  -- string of the tables is left, nothing is known of any object, and if the profiler was sampling
  -- its signal is ignored and its timer is disarmed.
  pub stop-Live :
      (s : Session)
      → Live s
      → s.server_running ≡ true
      → Closable s.extension.system.sockets
      → (s' : Session) × (stop s ≡ ok (true, s')) × StoppedServer s s'
  stop-Live s live on c =
      let (s', q, ends, h) = stop-StoppedServer s (Live-Sound s live) on c in (s', q, ends)
