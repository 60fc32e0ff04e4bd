-- ===== src/Sampling/Process.antt =====
-- A process with two signals and two timers, which behaves as Sampling/Signals says.
use rbkit.Prelude.{
  ℕ, ℤ, pos, negsuc, ◌≡◌, refl, Bool, true, false, Option, ltb, lt→ltb, if◌then◌else◌, inl, inr,
  Bool-cases, arith,
}
use rbkit.Sampling.Signals.{
  Posix, Signal, Clock, Handler, same_signal, same_clock, IsMicroseconds, armed,
}

pub record Asked : Type 0 where
  pub handlers : Signal → Handler
  pub periods : Clock → Option ℕ

abbrev pub is_microseconds : ℤ → Bool
is_microseconds (pos n) = ltb n 1_000_000
is_microseconds (negsuc n) = false

pub is_microseconds-true : (z : ℤ) → IsMicroseconds z → is_microseconds z ≡ true
is_microseconds-true (pos n) h = lt→ltb n 1_000_000 h
is_microseconds-true (negsuc n) h = absurd h

pub is_microseconds-false : (z : ℤ) → (IsMicroseconds z → ⊥) → is_microseconds z ≡ false
is_microseconds-false (pos n) h = ground (arith, h)
is_microseconds-false (negsuc n) h = refl

abbrev pub set_timer : Clock → ℤ → Asked → Asked
set_timer k z p =
    if is_microseconds z
    then record p { periods = λ c. if same_clock k c then armed z else p.periods c }
    else p

pub set_timer-handlers :
    (k : Clock) (z : ℤ) (p : Asked) (j : Signal) → (set_timer k z p).handlers j ≡ p.handlers j
set_timer-handlers k z p j = elim (Bool-cases (is_microseconds z)) [
  | inl e ↦ rw e refl
  | inr e ↦ rw e refl
]

instance unfoldable pub two_timers : Posix
two_timers = record {
  Process = Asked;
  sigaction = λ g h p. record p { handlers = λ j. if same_signal g j then h else p.handlers j };
  setitimer = set_timer;
  handler_of = λ g p. p.handlers g;
  period_of = λ c p. p.periods c;
  handler_of-sigaction = λ g h p j. refl;
  period_of-sigaction = λ g h p c. refl;
  period_of-setitimer = λ k z p c h. rw (is_microseconds-true z h) refl;
  setitimer_invalid = λ k z p h. rw (is_microseconds-false z h) refl;
  handler_of-setitimer = set_timer-handlers;
}
