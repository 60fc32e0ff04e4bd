-- ===== src/Sampling/Signals.antt =====
-- What the profiler uses of POSIX: sigaction and setitimer on a process.
use rbkit.Prelude.{
  ℕ, ◌<◌, ◌≡◌, ◌==◌, ℤ, pos, negsuc, Bool, true, false, Option, none, some, if◌then◌else◌,
}

pub data Signal : Type 0 where
  sigalrm sigprof : Signal

pub data Clock : Type 0 where
  itimer_real itimer_prof : Clock

-- What a signal does: the default action, nothing, or a call of `signal_handler`.
pub data Handler : Type 0 where
  sig_dfl sig_ign calls_handler : Handler

abbrev pub same_signal : Signal → Signal → Bool
same_signal sigalrm sigalrm = true
same_signal sigprof sigprof = true
same_signal _ _ = false

abbrev pub same_clock : Clock → Clock → Bool
same_clock itimer_real itimer_real = true
same_clock itimer_prof itimer_prof = true
same_clock _ _ = false

-- Microseconds that a timer takes.
abbrev pub IsMicroseconds : ℤ → Type 0
IsMicroseconds (pos n) = n < 1_000_000
IsMicroseconds (negsuc n) = ⊥

abbrev pub armed : ℤ → Option ℕ
armed (pos n) = if n == 0 then none else some n
armed (negsuc n) = none

-- The documented behaviour. `setitimer` is called with no seconds and the same microseconds for the
-- first period as for the others: zero disarms the timer, and microseconds out of range are an error
-- that changes nothing.
pub record Posix : Type 1 where
  pub Process : Type 0
  pub sigaction : Signal → Handler → Process → Process
  pub setitimer : Clock → ℤ → Process → Process
  pub handler_of : Signal → Process → Handler
  pub period_of : Clock → Process → Option ℕ
  pub handler_of-sigaction :
      (g : Signal) (h : Handler) (p : Process) (j : Signal)
      → handler_of j (sigaction g h p) ≡ (if same_signal g j then h else handler_of j p)
  pub period_of-sigaction :
      (g : Signal) (h : Handler) (p : Process) (c : Clock)
      → period_of c (sigaction g h p) ≡ period_of c p
  pub period_of-setitimer :
      (k : Clock) (z : ℤ) (p : Process) (c : Clock)
      → IsMicroseconds z
      → period_of c (setitimer k z p) ≡ (if same_clock k c then armed z else period_of c p)
  pub setitimer_invalid :
      (k : Clock) (z : ℤ) (p : Process) → (IsMicroseconds z → ⊥) → setitimer k z p ≡ p
  pub handler_of-setitimer :
      (k : Clock) (z : ℤ) (p : Process) (j : Signal)
      → handler_of j (setitimer k z p) ≡ handler_of j p
