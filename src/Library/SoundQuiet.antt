-- ===== src/Library/SoundQuiet.antt =====
-- stop_cpu_profiling of lib/rbkit/server.rb leaves the profiler off.
use rbkit.Prelude.{
  ℕ, pos, ◌≡◌, refl, ◌∙◌, ap, true, false, Bool-cases, inl, inr, none, some, Outcome, ok, ok-bind,
  if_true, if_false, arith,
}
use rbkit.Event.{CString}
use rbkit.Allocation.{Info}
use rbkit.Allocation.Table.{StTable}
use rbkit.Allocation.Strings.{Shared}
use rbkit.Sampling.Signals.{
  Posix, Signal, sigalrm, sigprof, Clock, itimer_real, itimer_prof, sig_ign, same_signal,
  same_clock,
}
use rbkit.Sampling.{rbkit_uninstall_sampling_profiler, uninstall_signal_handler, stop_sigprof_timer}
use rbkit.Tracing.{Logger, stop_sampling_profiler, System}
use rbkit.Library.Names.{is_sampling}
use rbkit.Library.State.{Session, put_system, on_system}
use rbkit.Library.Methods.{stop_cpu_profiling}
use rbkit.Library.Sound.{sampling_flag, Sound}

same_signal_refl : (g : Signal) → same_signal g g ≡ true
same_signal_refl sigalrm = refl
same_signal_refl sigprof = refl

same_clock_refl : (c : Clock) → same_clock c c ≡ true
same_clock_refl itimer_real = refl
same_clock_refl itimer_prof = refl

module _ ⦃os : Posix⦄ ⦃strings : StTable CString Shared⦄ ⦃objects : StTable ℕ Info⦄ where
  -- The profiler's signal is ignored, and its timer does not run.
  pub record Disarmed (y y' : System) : Type 0 where
    pub no_period : os.period_of y.sampler.clock_type y'.process ≡ none
    pub ignored : os.handler_of y.sampler.signal_type y'.process ≡ sig_ign

  pub record SameSettings (s s' : Session) : Type 0 where
    pub same_pub_port : s'.pub_port ≡ s.pub_port
    pub same_request_port : s'.request_port ≡ s.request_port
    pub same_clock : s'.clock_type ≡ s.clock_type
    pub same_interval : s'.cpu_sampling_interval_usec ≡ s.cpu_sampling_interval_usec

  -- What `stop_cpu_profiling` does to a logger, and to the signal and the timer of the profiler.
  pub record Quiet (l : Logger) (s s' : Session) : Type 0 where
    pub silent : s'.extension.system.logger ≡ some (record l { sampling_profiler_enabled = false })
    pub same_flag : s'.stop_profiler_thread ≡ s.stop_profiler_thread
    pub same_settings : SameSettings s s'
    pub same_sockets : s'.extension.system.sockets ≡ s.extension.system.sockets
    pub disarmed :
        l.sampling_profiler_enabled ≡ true → Disarmed s.extension.system s'.extension.system

  abbrev pub sampling_off : Logger → System → System
  sampling_off l y = record y {
    process =
        os.sigaction y.sampler.signal_type sig_ign
          (os.setitimer y.sampler.clock_type (pos 0) y.process);
    logger = some (record l { sampling_profiler_enabled = false });
  }

  sampling_off-Disarmed : (l : Logger) (y : System) → Disarmed y (sampling_off l y)
  sampling_off-Disarmed l y = record {
    no_period =
        rw
          (
            os.period_of-sigaction,
            os.period_of-setitimer y.sampler.clock_type (pos 0) y.process y.sampler.clock_type
                (omega arith),
            same_clock_refl y.sampler.clock_type,
          )
          refl;
    ignored = rw (os.handler_of-sigaction, same_signal_refl y.sampler.signal_type) refl;
  }

  pub stop_sampling_profiler-off :
      (y : System) (l : Logger)
      → y.logger ≡ some l
      → l.sampling_profiler_enabled ≡ true
      → stop_sampling_profiler y ≡ ok (sampling_off l y)
  unfolding stop_sampling_profiler rbkit_uninstall_sampling_profiler uninstall_signal_handler
      stop_sigprof_timer
  stop_sampling_profiler-off y l p on = rw (p, on) refl

  pub stop_sampling_profiler-same :
      (y : System) (l : Logger)
      → y.logger ≡ some l
      → l.sampling_profiler_enabled ≡ false
      → stop_sampling_profiler y ≡ ok y
  unfolding stop_sampling_profiler
  stop_sampling_profiler-same y l p off = ground (arith, p, off)

  pub quiet_logger :
      (l : Logger)
      → l.sampling_profiler_enabled ≡ false
      → l ≡ record l { sampling_profiler_enabled = false }
  quiet_logger l off = ap (λ b. record l { sampling_profiler_enabled = b }) off

  pub on_system-ok :
      (f : System → Outcome System) (s : Session) (y : System)
      → f s.extension.system ≡ ok y
      → on_system f s ≡ ok (put_system y s)
  on_system-ok f s y e = ok-bind (f s.extension.system) (λ y'. ok (put_system y' s)) y e

  kept-Quiet :
      (s : Session) (l : Logger)
      → s.extension.system.logger ≡ some l
      → l.sampling_profiler_enabled ≡ false
      → Quiet l s s
  kept-Quiet s l p off = record {
    silent = p ∙ ap some (quiet_logger l off);
    same_flag = refl;
    same_settings = record {
      same_pub_port = refl;
      same_request_port = refl;
      same_clock = refl;
      same_interval = refl;
    };
    same_sockets = refl;
    disarmed = λ on. cc (on, off);
  }

  pub stop_cpu_profiling-Quiet :
      (s : Session) (l : Logger)
      → Sound s
      → s.extension.system.logger ≡ some l
      → (s' : Session) × (stop_cpu_profiling s ≡ ok s') × Quiet l s s'
  unfolding stop_cpu_profiling
  stop_cpu_profiling-Quiet s l h p = elim (Bool-cases l.sampling_profiler_enabled) [
    | inl on ↦
        let flag : sampling_flag s.extension.system.logger ≡ true = rw p on in
        let y : System = sampling_off l s.extension.system in
        (
          put_system y s,
          if_true _ _ (h.sampled flag)
              ∙ on_system-ok stop_sampling_profiler s y
                  (stop_sampling_profiler-off s.extension.system l p on),
          record {
            silent = refl;
            same_flag = refl;
            same_settings = record {
              same_pub_port = refl;
              same_request_port = refl;
              same_clock = refl;
              same_interval = refl;
            };
            same_sockets = refl;
            disarmed = λ on'. sampling_off-Disarmed l s.extension.system;
          },
        )
    | inr off ↦ elim (Bool-cases (is_sampling s.cpu_profiling_mode)) [
      | inl m ↦ (
        s,
        if_true _ _ m
            ∙ on_system-ok stop_sampling_profiler s s.extension.system
                (stop_sampling_profiler-same s.extension.system l p off),
        kept-Quiet s l p off,
      )
      | inr n ↦ (s, if_false _ _ n, kept-Quiet s l p off)
    ]
  ]
