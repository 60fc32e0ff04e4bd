-- ===== src/Library/SoundStop.antt =====
-- A server of lib/rbkit/server.rb that is stopped.
use rbkit.Prelude.{
  ℕ, ◌≡◌, refl, sym, ◌∙◌, ap, subst, Bool, true, false, Bool-cases, Option-cases, inl, inr, not,
  none, Outcome, ok, ok-bind, ok_injective, if_true, if_false, fault, ◌>>=◌, ◌||◌, All,
}
use rbkit.Event.{CString}
use rbkit.Allocation.{Info}
use rbkit.Allocation.Table.{StTable}
use rbkit.Allocation.Strings.{Shared}
use rbkit.Sampling.Signals.{Posix}
use rbkit.Allocation.History.{Holds}
use rbkit.Allocation.Clear.{clear_tables-all_freed}
use rbkit.Tracing.{Logger, all, System, stop_stat_server}
use rbkit.Tracing.Consistent.{
  stopped, stop_stat_server_runs, stop_stat_server-closed, stopped-Consistent,
}
use rbkit.Tracing.Sockets.{is_closed, Closable, Closable-cases, closed_sockets}
use rbkit.Library.State.{is_set, Session, put_system, on_system}
use rbkit.Library.Methods.{stop, stop_cpu_profiling}
use rbkit.Library.Sound.{sampling_flag, Sound, stop_cpu_profiling-Sound}
use rbkit.Library.SoundQuiet.{Disarmed, SameSettings, on_system-ok, stop_cpu_profiling-Quiet}

module _ ⦃os : Posix⦄ ⦃strings : StTable CString Shared⦄ ⦃objects : StTable ℕ Info⦄ where
  -- `s'` is the server `s`, stopped: nothing runs, and nothing is left of what was traced.
  pub record StoppedServer (s s' : Session) : Type 0 where
    pub ended : s'.stop_profiler_thread ≡ true
    pub same_settings : SameSettings s s'
    pub not_running : s'.server_running ≡ false
    pub no_logger : s'.extension.system.logger ≡ none
    pub no_tracepoints : s'.extension.system.tracepoints ≡ all false
    pub no_earlier : All (λ t. t ≡ all false) s'.extension.system.earlier
    pub sockets_lem : s'.extension.system.sockets ≡ closed_sockets s.extension.system.sockets
    pub no_strings : (addr : ℕ) → s'.extension.system.allocations.str_table.heap.text_at addr ≡ none
    pub nothing_known : Holds (λ obj. none) s'.extension.system.allocations
    pub disarmed :
        sampling_flag s.extension.system.logger ≡ true
        → Disarmed s.extension.system s'.extension.system

  pub stop-StoppedServer :
      (s : Session)
      → Sound s
      → s.server_running ≡ true
      → Closable s.extension.system.sockets
      → (s' : Session) × (stop s ≡ ok (true, s')) × StoppedServer s s' × Sound s'
  unfolding stop
  stop-StoppedServer s h on closable = elim (Option-cases s.extension.system.logger) [
    | inl n ↦ let e : is_set s.extension.system.logger ≡ false = rw n refl in cc (e, h.running, on)
    | inr (l, p) ↦
        let s₀ : Session = record s { stop_profiler_thread = true } in
        let h₀ : Sound s₀ = record {
          consistent = h.consistent;
          running = h.running;
          sampled = h.sampled;
        } in
        let (s₁, q, quiet) = stop_cpu_profiling-Quiet s₀ l h₀ p in
        let h₁ = stop_cpu_profiling-Sound s₀ s₁ q h₀ in
        let y = s₁.extension.system in
        let l₁ : Logger = record l { sampling_profiler_enabled = false } in
        let (a, freed, gone, new) = clear_tables-all_freed y.allocations h₁.consistent.valid in
        let same = quiet.same_sockets in
        let closable₁ : Closable y.sockets = rw same closable in
        let r = stop_stat_server_runs y l₁ a quiet.silent freed closable₁ in
        let c = stopped-Consistent y l₁ a quiet.silent h₁.consistent gone new in
        let s₂ : Session = put_system (stopped y l₁ a) s₁ in
        let s' : Session = record s₂ { server_running = false } in
        (
          s',
          if_false _ _ (ap not on)
              ∙ (ok-bind (stop_cpu_profiling s₀) _ s₁ q
                  ∙ ok-bind (on_system stop_stat_server s₁) _ s₂
                      (on_system-ok stop_stat_server s₁ (stopped y l₁ a) r)),
          record {
            ended = quiet.same_flag;
            same_settings =
                let k = quiet.same_settings in
                record {
                  same_pub_port = k.same_pub_port;
                  same_request_port = k.same_request_port;
                  same_clock = k.same_clock;
                  same_interval = k.same_interval;
                };
            not_running = refl;
            no_logger = refl;
            no_tracepoints = c.agrees;
            no_earlier = c.silent;
            sockets_lem = ap closed_sockets same;
            no_strings = gone;
            nothing_known = new;
            disarmed = λ flag.
                let d = quiet.disarmed (sym (ap sampling_flag p) ∙ flag) in
                record { no_period = d.no_period; ignored = d.ignored };
          },
          record { consistent = c; running = refl; sampled = λ on'. cc },
        )
  ]

  pub stop-closed :
      (s : Session)
      → Sound s
      → s.server_running ≡ true
      → (is_closed s.extension.system.sockets.publisher
          || is_closed s.extension.system.sockets.response_socket)
        ≡ true
      → stop s ≡ fault
  unfolding stop
  stop-closed s h on c = elim (Option-cases s.extension.system.logger) [
    | inl n ↦ let e : is_set s.extension.system.logger ≡ false = rw n refl in cc (e, h.running, on)
    | inr (l, p) ↦
        let s₀ : Session = record s { stop_profiler_thread = true } in
        let h₀ : Sound s₀ = record {
          consistent = h.consistent;
          running = h.running;
          sampled = h.sampled;
        } in
        let (s₁, q, quiet) = stop_cpu_profiling-Quiet s₀ l h₀ p in
        let h₁ = stop_cpu_profiling-Sound s₀ s₁ q h₀ in
        let y = s₁.extension.system in
        let l₁ : Logger = record l { sampling_profiler_enabled = false } in
        let (a, freed, gone, new) = clear_tables-all_freed y.allocations h₁.consistent.valid in
        let same = quiet.same_sockets in
        let c₁ : (is_closed y.sockets.publisher || is_closed y.sockets.response_socket) ≡ true =
          rw same c in
        let r = stop_stat_server-closed y l₁ a quiet.silent freed c₁ in
        if_false _ _ (ap not on)
        ∙ (ok-bind (stop_cpu_profiling s₀) _ s₁ q
            ∙ ap
                (λ (o : Outcome System).
                  (o >>= (λ y'. ok (put_system y' s₁)))
                  >>= (λ s₂. ok (true, record s₂ { server_running = false })))
                r)
  ]

  -- A stop that returns has closed no socket twice.
  pub stop-Closable :
      (s s' : Session) (b : Bool)
      → Sound s
      → s.server_running ≡ true
      → stop s ≡ ok (b, s')
      → Closable s.extension.system.sockets
  stop-Closable s s' b h on e = elim (Closable-cases s.extension.system.sockets) [
    | inl c ↦ c
    | inr c ↦ let f = stop-closed s h on c in cc (f, e)
  ]

  pub stop-Sound : (b : Bool) (s s' : Session) → stop s ≡ ok (b, s') → Sound s → Sound s'
  unfolding stop
  stop-Sound b s s' e h = elim (Bool-cases s.server_running) [
    | inl on ↦
        let (s₁, q, stopped_lem, h₁) = stop-StoppedServer s h on (stop-Closable s s' b h on e) in
        subst Sound (ap (λ (p : Bool × Session). p.1) (ok_injective (sym q ∙ e))) h₁
    | inr off ↦
        let r : ok (false, s) ≡ ok (b, s') = sym (if_true _ _ (ap not off)) ∙ e in
        subst Sound (ap (λ (p : Bool × Session). p.1) (ok_injective r)) h
  ]
