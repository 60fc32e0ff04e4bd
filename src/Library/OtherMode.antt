-- ===== src/Library/OtherMode.antt =====
-- start_cpu_profiling of lib/rbkit/server.rb with a mode that stop_cpu_profiling does not stop.
use rbkit.Prelude.{
  ℕ, ℤ, ◌≡◌, refl, ◌∙◌, ap, true, false, not, inl, inr, Option-cases, none, ok, ok-bind, if_false,
}
use rbkit.Event.{CString}
use rbkit.Allocation.{Info}
use rbkit.Allocation.Clear.{clear_tables-all_freed}
use rbkit.Allocation.Table.{StTable}
use rbkit.Allocation.Strings.{Shared}
use rbkit.Msgpack.{Msgpack}
use rbkit.Sampling.Signals.{Posix, Clock, Signal}
use rbkit.Tracing.{System, stop_stat_server}
use rbkit.Tracing.Sockets.{Closable}
use rbkit.Tracing.Consistent.{stopped, stop_stat_server_runs}
use rbkit.Library.Names.{Name, is_sampling}
use rbkit.Library.State.{is_set, Session, put_system, on_system}
use rbkit.Library.Methods.{start_cpu_profiling, stop_cpu_profiling, stop}
use rbkit.Library.Life.{Live}
use rbkit.Library.Invariant.{Live-Sound}
use rbkit.Library.SoundQuiet.{on_system-ok}

module _ ⦃m : Msgpack⦄ ⦃os : Posix⦄ ⦃strings : StTable CString Shared⦄
    ⦃objects : StTable ℕ Info⦄ where
  stop_other_mode :
      (s : Session) (y : System)
      → s.server_running ≡ true
      → is_sampling s.cpu_profiling_mode ≡ false
      → stop_stat_server s.extension.system ≡ ok y
      → stop s
        ≡ ok (true, record (put_system y s) { stop_profiler_thread = true; server_running = false })
  unfolding stop stop_cpu_profiling
  stop_other_mode s y on other q =
      let s₀ : Session = record s { stop_profiler_thread = true } in
      if_false _ _ (ap not on)
      ∙ (ok-bind (stop_cpu_profiling s₀) _ s₀ (if_false _ _ other)
          ∙ ok-bind (on_system stop_stat_server s₀) _ (put_system y s₀)
              (on_system-ok stop_stat_server s₀ y q))

  -- On a server that runs after any calls, neither of whose socket pointers is that of a socket
  -- closed before, start_cpu_profiling with another mode than `sampling` returns, and stop then
  -- returns true, with no logger left, but no signal and no timer was touched: a timer that sampled
  -- before goes on.
  pub start_cpu_profiling-stop :
      (s : Session) (mode clock_type : Name) (interval : ℤ)
      → Live s
      → s.server_running ≡ true
      → Closable s.extension.system.sockets
      → is_sampling mode ≡ false
      → (s₁ : Session) × (s₂ : Session) × (start_cpu_profiling mode clock_type interval s ≡ ok s₁)
        × (stop s₁ ≡ ok (true, s₂))
        × (s₂.extension.system.logger ≡ none)
        × ((k : Clock)
            → os.period_of k s₂.extension.system.process
              ≡ os.period_of k s.extension.system.process)
        × ((g : Signal)
            → os.handler_of g s₂.extension.system.process
              ≡ os.handler_of g s.extension.system.process)
  unfolding start_cpu_profiling
  start_cpu_profiling-stop s mode clock_type interval live on c other =
      let h = Live-Sound s live in
      elim (Option-cases s.extension.system.logger) [
        | inl n ↦
            let e : is_set s.extension.system.logger ≡ false = rw n refl in cc (e, h.running, on)
        | inr (l, p) ↦
            let y = s.extension.system in
            let s₁ : Session = record s { cpu_profiling_mode = mode } in
            let (a, q, gone, new) = clear_tables-all_freed y.allocations h.consistent.valid in
            (
              s₁,
              _,
              if_false _ _ other,
              stop_other_mode s₁ (stopped y l a) on other (stop_stat_server_runs y l a p q c),
              refl,
              λ k. refl,
              λ g. refl,
            )
      ]
