-- ===== src/Sampling.antt =====
-- ext/rbkit_sampling_profiler.c, without RBKIT_DEV: the signal, the timer, and the frames of a sample.
pub mod Signals
pub mod Process
pub mod Frames
pub mod Sample
use rbkit.Prelude.{ℕ, ◌+◌, ℤ, pos, Bool, true, if◌then◌else◌}
use Signals.{
  Posix, Signal, sigalrm, sigprof, Clock, itimer_real, itimer_prof, Handler, calls_handler, sig_ign,
}

-- The statics, with whether queue_cpu_sample_for_sending is set, and how often sampling_job_handler
-- was handed to Ruby as a job.
pub record Sampler : Type 0 where
  pub signal_type : Signal
  pub clock_type : Clock
  pub has_queue_func : Bool
  pub sampling_jobs : ℕ

unfoldable pub signal_handler : Sampler → Sampler
signal_handler c = record c { sampling_jobs = c.sampling_jobs + 1 }

abbrev pub signal_of : Bool → Signal
signal_of wall_time = if wall_time then sigalrm else sigprof

abbrev pub clock_of : Bool → Clock
clock_of wall_time = if wall_time then itimer_real else itimer_prof

module _ ⦃os : Posix⦄ where
  open os use {Process, sigaction, setitimer}

  unfoldable pub install_signal_handler : Sampler → Process → Process
  install_signal_handler c p = sigaction c.signal_type calls_handler p

  unfoldable pub uninstall_signal_handler : Sampler → Process → Process
  uninstall_signal_handler c p = sigaction c.signal_type sig_ign p

  -- tv_sec is 0, and tv_usec is the interval.
  unfoldable pub start_sigprof_timer : ℤ → Sampler → Process → Process
  start_sigprof_timer interval c p = setitimer c.clock_type interval p

  unfoldable pub stop_sigprof_timer : Sampler → Process → Process
  stop_sigprof_timer c p = setitimer c.clock_type (pos 0) p

  -- The function that is passed is queue_cpu_sample_for_sending of ext/rbkit_server.c.
  unfoldable pub rbkit_install_sampling_profiler : Bool → ℤ → Sampler × Process → Sampler × Process
  unfolding install_signal_handler start_sigprof_timer
  rbkit_install_sampling_profiler wall_time interval (c, p) =
      let c' : Sampler = record c {
        signal_type = signal_of wall_time;
        clock_type = clock_of wall_time;
        has_queue_func = true;
      } in
      (c', start_sigprof_timer interval c' (install_signal_handler c' p))

  unfoldable pub rbkit_uninstall_sampling_profiler : Sampler × Process → Sampler × Process
  unfolding uninstall_signal_handler stop_sigprof_timer
  rbkit_uninstall_sampling_profiler (c, p) =
      (c, uninstall_signal_handler c (stop_sigprof_timer c p))
