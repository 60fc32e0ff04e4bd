-- ===== src/Tracing/Profiler.antt =====
-- start_sampling_profiler and stop_sampling_profiler, down to the signal and the timer.
use rbkit.Prelude.{
  ℕ, ℤ, pos, negsuc, ◌<◌, ◌≡◌, refl, sym, inl, inr, Bool, true, false, Bool-cases, Option, none,
  some, ltb, if◌then◌else◌, ok, in_int, fix2int-ok, arith,
}
use rbkit.Event.{CString}
use rbkit.Allocation.{Info}
use rbkit.Allocation.Table.{StTable}
use rbkit.Allocation.Strings.{Shared}
use rbkit.Sampling.{
  Sampler, signal_of, clock_of, install_signal_handler, uninstall_signal_handler,
  start_sigprof_timer, stop_sigprof_timer, rbkit_install_sampling_profiler,
  rbkit_uninstall_sampling_profiler,
}
use rbkit.Sampling.Signals.{
  Posix, Signal, Clock, sig_ign, calls_handler, same_signal, same_clock, armed,
}
use rbkit.Tracing.{Logger, System, start_sampling_profiler, stop_sampling_profiler}

-- The period of a timer after it is started with an interval: from a second on and below zero, the
-- one before.
abbrev pub period_after : ℤ → Option ℕ → Option ℕ
period_after (pos n) old = if ltb n 1_000_000 then armed (pos n) else old
period_after (negsuc n) old = old

same_branches : {A : Type 0} (b : Bool) (x : A) → (if b then x else x) ≡ x
same_branches true x = refl
same_branches false x = refl

module _ ⦃os : Posix⦄ ⦃strings : StTable CString Shared⦄ ⦃objects : StTable ℕ Info⦄ where
  -- The branches of setitimer together.
  period_of-setitimer_any :
      (k : Clock) (z : ℤ) (p : os.Process) (c : Clock)
      → os.period_of c (os.setitimer k z p)
        ≡ (if same_clock k c then period_after z (os.period_of c p) else os.period_of c p)
  period_of-setitimer_any k (pos n) p c = elim (Bool-cases (ltb n 1_000_000)) [
    | inl lt ↦
        let small : n < 1_000_000 = ground (arith, lt) in
        rw (os.period_of-setitimer k (pos n) p c small, lt) refl
    | inr ge ↦
        let large : n < 1_000_000 → ⊥ = λ small. ground (arith, ge, small) in
        rw (os.setitimer_invalid k (pos n) p large, ge) (sym (same_branches (same_clock k c) _))
  ]
  period_of-setitimer_any k (negsuc n) p c =
      rw (os.setitimer_invalid k (negsuc n) p (λ h. h)) (sym (same_branches (same_clock k c) _))

  -- Sampling is on: the signal is handled, and the timer of the clock was set.
  pub record Started (s : System) (wall : Bool) (interval : ℤ) (s' : System) : Type 0 where
    pub mode : (s'.sampler.signal_type ≡ signal_of wall) × (s'.sampler.clock_type ≡ clock_of wall)
    pub func : s'.sampler.has_queue_func ≡ true
    pub handler :
        (g : Signal)
        → os.handler_of g s'.process
          ≡ (if same_signal (signal_of wall) g then calls_handler else os.handler_of g s.process)
    pub period :
        (c : Clock)
        → os.period_of c s'.process ≡ (
            if same_clock (clock_of wall) c
            then period_after interval (os.period_of c s.process)
            else os.period_of c s.process)

  -- Sampling is off: the signal is ignored, the timer of the clock is disarmed, and the others are
  -- as they were in `s`.
  pub record Stopped (s : System) (wall : Bool) (s' : System) : Type 0 where
    pub handler :
        (g : Signal)
        → os.handler_of g s'.process
          ≡ (if same_signal (signal_of wall) g then sig_ign else os.handler_of g s.process)
    pub period :
        (c : Clock)
        → os.period_of c s'.process
          ≡ (if same_clock (clock_of wall) c then none else os.period_of c s.process)

  module _ (s : System) (l : Logger) (wall : Bool) (interval : ℤ) where
    abbrev sampler_on : Sampler
    sampler_on = record s.sampler {
      signal_type = signal_of wall;
      clock_type = clock_of wall;
      has_queue_func = true;
    }

    abbrev process_on : os.Process
    process_on =
        os.setitimer (clock_of wall) interval
          (os.sigaction (signal_of wall) calls_handler s.process)

    abbrev process_off : os.Process
    process_off =
        os.sigaction (signal_of wall) sig_ign (os.setitimer (clock_of wall) (pos 0) process_on)

    abbrev turned_on : System
    turned_on = record s {
      sampler = sampler_on;
      process = process_on;
      logger = some (record l { sampling_profiler_enabled = true });
    }

    abbrev turned_off : System
    turned_off = record turned_on {
      process = process_off;
      logger = some (record l { sampling_profiler_enabled = false });
    }

    turned_on-Started : Started s wall interval turned_on
    turned_on-Started = record {
      mode = (refl, refl);
      func = refl;
      handler = λ g. rw (os.handler_of-setitimer, os.handler_of-sigaction) refl;
      period = λ c. rw (period_of-setitimer_any, os.period_of-sigaction) refl;
    }

    turned_off-Stopped : Stopped s wall turned_off
    turned_off-Stopped = record {
      handler = λ g. elim (Bool-cases (same_signal (signal_of wall) g)) [
        | inl e ↦ rw (os.handler_of-sigaction, e) refl
        | inr n ↦
            rw (os.handler_of-sigaction, n, os.handler_of-setitimer, turned_on-Started.handler g, n)
              refl
      ];
      period = λ c. elim (Bool-cases (same_clock (clock_of wall) c)) [
        | inl e ↦ rw (os.period_of-sigaction, period_of-setitimer_any, e) refl
        | inr n ↦
            rw (os.period_of-sigaction, period_of-setitimer_any, n, turned_on-Started.period c, n)
              refl
      ];
    }

    -- Sampling that is off is turned on, if the interval fits an int: the signal of the clock calls
    -- the handler, and its timer runs with the interval if that is from 1 to 999999 microseconds, is
    -- disarmed for 0, and is as before for any other, while the flag is set in each case. Turned off
    -- again, the signal is ignored and the timer disarmed. The other signal and the other timer are
    -- never touched.
    pub start_sampling_profiler-stop_sampling_profiler :
        s.logger ≡ some l
        → l.sampling_profiler_enabled ≡ false
        → in_int interval ≡ true
        → (on : System) × (start_sampling_profiler (some wall) interval s ≡ ok on)
          × (on.logger ≡ some (record l { sampling_profiler_enabled = true }))
          × Started s wall interval on
          × ((off : System) × (stop_sampling_profiler on ≡ ok off)
              × (off.logger ≡ some (record l { sampling_profiler_enabled = false }))
              × Stopped s wall off)
    unfolding start_sampling_profiler stop_sampling_profiler rbkit_install_sampling_profiler
        rbkit_uninstall_sampling_profiler install_signal_handler uninstall_signal_handler
        start_sigprof_timer stop_sigprof_timer
    start_sampling_profiler-stop_sampling_profiler p q fits = (
      turned_on,
      rw (p, q, fix2int-ok interval fits) refl,
      refl,
      turned_on-Started,
      (turned_off, refl, refl, turned_off-Stopped),
    )
