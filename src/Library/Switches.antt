-- ===== src/Library/Switches.antt =====
-- What the calls behind a request switch on and off, when there is a logger.
use rbkit.Prelude.{
  ℕ, ℤ, ◌≡◌, refl, ap, ◌∙◌, Bool, true, false, Bool-cases, inl, inr, some, ok, if_false, arith,
  in_int, fix2int-ok,
}
use rbkit.Event.{CString}
use rbkit.Allocation.{Info}
use rbkit.Allocation.Table.{StTable}
use rbkit.Allocation.Strings.{Shared}
use rbkit.Sampling.{rbkit_install_sampling_profiler}
use rbkit.Sampling.Signals.{Posix}
use rbkit.Tracing.{
  Logger, System, all, start_stat_tracing, stop_stat_tracing, start_sampling_profiler,
  stop_sampling_profiler,
}
use rbkit.Library.SoundQuiet.{
  sampling_off, stop_sampling_profiler-off, stop_sampling_profiler-same, quiet_logger,
}

module _ ⦃os : Posix⦄ ⦃strings : StTable CString Shared⦄ ⦃objects : StTable ℕ Info⦄ where
  -- `y'` has the logger `l`, and the sockets and the messages of `y`.
  pub record Switched (y : System) (l : Logger) (y' : System) : Type 0 where
    pub logger_lem : y'.logger ≡ some l
    pub same_sockets : y'.sockets ≡ y.sockets
    pub same_messages : y'.messages ≡ y.messages

  module _ (y : System) (l : Logger) (p : y.logger ≡ some l) where
    same-Switched : (l' : Logger) → l ≡ l' → Switched y l' y
    same-Switched l' e = record {
      logger_lem = p ∙ ap some e;
      same_sockets = refl;
      same_messages = refl;
    }

    pub start_stat_tracing-Switched :
        (y' : System) × (start_stat_tracing y ≡ ok y') × Switched y (record l { enabled = true }) y'
    unfolding start_stat_tracing
    start_stat_tracing-Switched = elim (Bool-cases l.enabled) [
      | inl on ↦ (y, ground (arith, p, on), same-Switched _ (ap (λ b. record l { enabled = b }) on))
      | inr off ↦ (
        record y { tracepoints = all true; logger = some (record l { enabled = true }) },
        rw p (if_false _ _ off),
        record { logger_lem = refl; same_sockets = refl; same_messages = refl },
      )
    ]

    pub stop_stat_tracing-Switched :
        (y' : System) × (stop_stat_tracing y ≡ ok y') × Switched y (record l { enabled = false }) y'
    unfolding stop_stat_tracing
    stop_stat_tracing-Switched = (
      record y { tracepoints = all false; logger = some (record l { enabled = false }) },
      rw p refl,
      record { logger_lem = refl; same_sockets = refl; same_messages = refl },
    )

    pub start_sampling_profiler-Switched :
        (wall : Bool) (interval : ℤ)
        → in_int interval ≡ true
        → (y' : System) × (start_sampling_profiler (some wall) interval y ≡ ok y')
          × Switched y (record l { sampling_profiler_enabled = true }) y'
    unfolding start_sampling_profiler
    start_sampling_profiler-Switched wall interval fits =
        elim (Bool-cases l.sampling_profiler_enabled) [
          | inl on ↦ (
            y,
            ground (arith, p, on),
            same-Switched _ (ap (λ b. record l { sampling_profiler_enabled = b }) on),
          )
          | inr off ↦ (
            (let (c, p') = rbkit_install_sampling_profiler wall interval (y.sampler, y.process) in
                record y {
                  sampler = c;
                  process = p';
                  logger = some (record l { sampling_profiler_enabled = true });
                }),
            rw (p, off, fix2int-ok interval fits) refl,
            record { logger_lem = refl; same_sockets = refl; same_messages = refl },
          )
        ]

    pub stop_sampling_profiler-Switched :
        (y' : System) × (stop_sampling_profiler y ≡ ok y')
        × Switched y (record l { sampling_profiler_enabled = false }) y'
    stop_sampling_profiler-Switched = elim (Bool-cases l.sampling_profiler_enabled) [
      | inl on ↦ (
        sampling_off l y,
        stop_sampling_profiler-off y l p on,
        record { logger_lem = refl; same_sockets = refl; same_messages = refl },
      )
      | inr off ↦ (y, stop_sampling_profiler-same y l p off, same-Switched _ (quiet_logger l off))
    ]
