-- ===== src/Library/Timers.antt =====
-- lib/rbkit/timer.rb. Times are nanoseconds; the rounding of the Float that Ruby subtracts to is
-- left out.
use rbkit.Prelude.{ℕ, Bool, ◌+◌, ◌*◌, ltb, if◌then◌else◌, Outcome, ok, ◌>>=◌}

pub record Timer : Type 0 where
  pub interval : ℕ
  pub last_fired_at : ℕ

abbrev pub nanoseconds : ℕ
nanoseconds = 1_000_000_000

-- `now` is the time when the timer is made.
unfoldable pub new_timer : ℕ → ℕ → Timer
new_timer interval now = record { interval = interval; last_fired_at = now }

-- Time.now - last_fired_at > interval
unfoldable pub is_due : ℕ → Timer → Bool
is_due now t = ltb (t.last_fired_at + t.interval * nanoseconds) now

-- `now` and `later` are the time before and after the block, which turns one state into another.
unfoldable pub run_timer : {A : Type 0} → ℕ → ℕ → (A → Outcome A) → Timer × A → Outcome (Timer × A)
unfolding is_due
run_timer now later timer_block (t, a) =
    if is_due now t
    then (do a' ← timer_block a; ok (record t { last_fired_at = later }, a'))
    else ok (t, a)
