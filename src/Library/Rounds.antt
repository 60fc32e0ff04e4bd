-- ===== src/Library/Rounds.antt =====
-- The message dispatch loop of lib/rbkit/server.rb over many rounds.
use rbkit.Prelude.{
  ℕ, suc, ◌+◌, ◌*◌, ◌<◌, ◌≤◌, ◌≡◌, refl, ap, ◌∙◌, true, false, Bool-cases, ◌⊎◌, inl, inr, ltb, ◌==◌,
  Option, none, some, List, [], ◌∷◌, length, if◌then◌else◌, All, Outcome, ok, ◌>>=◌, ok-bind,
  if_true, if_false, arith,
}
use rbkit.Event.{CString}
use rbkit.Allocation.{Info}
use rbkit.Allocation.Table.{StTable}
use rbkit.Allocation.Strings.{Shared}
use rbkit.Msgpack.{Msgpack}
use rbkit.Sampling.Signals.{Posix}
use rbkit.Library.Timers.{Timer, nanoseconds, is_due}
use rbkit.Library.State.{Session, server_of, put_server}
use rbkit.Library.Dispatch.{LoopRound, dispatch_round}
use rbkit.Library.QuietRounds.{
  Quiet, Listening, fired, Quiet-fired, Quiet-early, Quiet-dispatch_round,
}

ltb_lt : (a b : ℕ) → ltb a b ≡ true → a < b
ltb_lt a b e = ground (arith, e)

-- Each time is more than the step after the one before, the first after `last`.
abbrev pub Apart : ℕ → ℕ → List ℕ → Type 0
Apart step last [] = Unit
Apart step last (t ∷ ts) = (last + step < t) × Apart step t ts

Apart-earlier :
    (step last last' : ℕ) (ts : List ℕ) → last ≤ last' → Apart step last' ts → Apart step last ts
Apart-earlier step last last' [] le h = tt
Apart-earlier step last last' (t ∷ ts) le (h, hs) = (omega (arith, le, h), hs)

next_spaced :
    (last step now later last' count : ℕ)
    → last + step < now
    → now ≤ later
    → later + count * (step + 1) ≤ last'
    → last + suc count * (step + 1) ≤ last'
next_spaced last step now later last' count due forward h =
    let e : suc count * (step + 1) ≡ (step + 1) + count * (step + 1) = omega arith in
    omega (arith, e)

module _ ⦃m : Msgpack⦄ ⦃os : Posix⦄ ⦃strings : StTable CString Shared⦄
    ⦃objects : StTable ℕ Info⦄ where
  abbrev next_rounds :
      (Session → Outcome (Option Session)) → Option Session → Outcome (Option Session)
  next_rounds f none = ok none
  next_rounds f (some s) = f s

  -- Rounds of the loop, one after the other, until it ends.
  abbrev pub dispatch_rounds : List LoopRound → Session → Outcome (Option Session)
  dispatch_rounds [] s = ok (some s)
  dispatch_rounds (w ∷ ws) s = dispatch_round w s >>= next_rounds (dispatch_rounds ws)

  -- The times of the rounds in which a job is registered, as the rounds themselves come out.
  abbrev fired_next : ℕ → ℕ → (Session → List ℕ) → Outcome (Option Session) → List ℕ
  fired_next now jobs later (ok (some s')) =
      if s'.extension.registered_jobs == jobs then later s' else now ∷ later s'
  fired_next now jobs later _ = []

  unfoldable pub fired_at : List LoopRound → Session → List ℕ
  fired_at [] s = []
  fired_at (w ∷ ws) s =
      fired_next w.dispatch_now s.extension.registered_jobs (fired_at ws) (dispatch_round w s)

  -- From `s` to `s'`, `count` jobs were registered, and the timer keeps its interval.
  pub record Spaced (s : Session) (count : ℕ) (s' : Session) : Type 0 where
    pub still : Listening s'
    pub jobs : s'.extension.registered_jobs ≡ s.extension.registered_jobs + count
    pub same_interval : s'.message_dispatch_timer.interval ≡ s.message_dispatch_timer.interval
    pub spaced :
        s.message_dispatch_timer.last_fired_at
          + count * (s.message_dispatch_timer.interval * nanoseconds + 1)
        ≤ s'.message_dispatch_timer.last_fired_at

  -- In some round, more than the interval has passed since the timer fired last.
  abbrev pub SomeDue : List LoopRound → Timer → Type 0
  SomeDue [] t = ⊥
  SomeDue (w ∷ ws) t = (t.last_fired_at + t.interval * nanoseconds < w.dispatch_now) ⊎ SomeDue ws t

  fired-Spaced :
      (w : LoopRound) (s s' : Session) (count : ℕ)
      → Quiet w
      → is_due w.dispatch_now s.message_dispatch_timer ≡ true
      → Spaced (fired w s) count s'
      → Spaced s (suc count) s'
  unfolding put_server is_due
  fired-Spaced w s s' count q due h = record {
    still = h.still;
    jobs = omega (arith, h.jobs);
    same_interval = h.same_interval;
    spaced =
        next_spaced s.message_dispatch_timer.last_fired_at
          (s.message_dispatch_timer.interval * nanoseconds) w.dispatch_now w.dispatch_later
          s'.message_dispatch_timer.last_fired_at count (ltb_lt _ w.dispatch_now due) q.forward
          h.spaced;
  }

  fired-Listening : (w : LoopRound) (s : Session) → Listening s → Listening (fired w s)
  unfolding put_server server_of
  fired-Listening w s l = record { goes_on = l.goes_on; no_stats = l.no_stats; no_test = l.no_test }

  still_early :
      (w : LoopRound) (ws : List LoopRound) (t : Timer) (count : ℕ)
      → is_due w.dispatch_now t ≡ false
      → (SomeDue ws t → 0 < count)
      → SomeDue (w ∷ ws) t
      → 0 < count
  unfolding is_due
  still_early w ws t count early some_job (inl due) = absurd (ground (arith, early, due))
  still_early w ws t count early some_job (inr later) = some_job later

  fired_at-fired :
      (w : LoopRound) (ws : List LoopRound) (s : Session)
      → dispatch_round w s ≡ ok (some (fired w s))
      → fired_at (w ∷ ws) s ≡ w.dispatch_now ∷ fired_at ws (fired w s)
  unfolding put_server fired_at
  fired_at-fired w ws s e =
      let more : (s.extension.registered_jobs + 1 == s.extension.registered_jobs) ≡ false =
        ground arith in
      ap (fired_next w.dispatch_now s.extension.registered_jobs (fired_at ws)) e ∙ if_false _ _ more

  fired_at-early :
      (w : LoopRound) (ws : List LoopRound) (s : Session)
      → dispatch_round w s ≡ ok (some s)
      → fired_at (w ∷ ws) s ≡ fired_at ws s
  unfolding fired_at
  fired_at-early w ws s e =
      let same : (s.extension.registered_jobs == s.extension.registered_jobs) ≡ true =
        ground arith in
      ap (fired_next w.dispatch_now s.extension.registered_jobs (fired_at ws)) e ∙ if_true _ _ same

  -- The times of the jobs, with the interval of the timer of `s` between them.
  record Timed (ws : List LoopRound) (s : Session) (count : ℕ) : Type 0 where
    apart :
        Apart
          (s.message_dispatch_timer.interval * nanoseconds)
          s.message_dispatch_timer.last_fired_at
          (fired_at ws s)
    counted : length (fired_at ws s) ≡ count

  fired-Timed :
      (w : LoopRound) (ws : List LoopRound) (s : Session) (count : ℕ)
      → Quiet w
      → is_due w.dispatch_now s.message_dispatch_timer ≡ true
      → dispatch_round w s ≡ ok (some (fired w s))
      → Timed ws (fired w s) count
      → Timed (w ∷ ws) s (suc count)
  unfolding put_server is_due
  fired-Timed w ws s count q due e h = record {
    apart = rw (fired_at-fired w ws s e) (
      ltb_lt _ w.dispatch_now due,
      Apart-earlier _ w.dispatch_now w.dispatch_later (fired_at ws (fired w s)) q.forward h.apart,
    );
    counted = rw (fired_at-fired w ws s e) (ap suc h.counted);
  }

  pub dispatch_rounds-Spaced :
      (ws : List LoopRound) (s : Session)
      → Listening s
      → All Quiet ws
      → (count : ℕ) × (s' : Session) × (dispatch_rounds ws s ≡ ok (some s'))
        × Spaced s count s'
        × Apart
            (s.message_dispatch_timer.interval * nanoseconds)
            s.message_dispatch_timer.last_fired_at
            (fired_at ws s)
        × (length (fired_at ws s) ≡ count)
        × (SomeDue ws s.message_dispatch_timer → 0 < count)
  unfolding fired_at
  dispatch_rounds-Spaced [] s l qs = (
    0,
    s,
    refl,
    record { still = l; jobs = omega arith; same_interval = refl; spaced = omega arith },
    tt,
    refl,
    λ d. absurd d,
  )
  dispatch_rounds-Spaced (w ∷ ws) s l (q, qs) =
      elim (Bool-cases (is_due w.dispatch_now s.message_dispatch_timer)) [
        | inl due ↦
            let (count, s', e, h, apart, counted, some_job) =
              dispatch_rounds-Spaced ws (fired w s) (fired-Listening w s l) qs in
            let r = Quiet-dispatch_round w s (fired w s) l q (Quiet-fired w s l due) in
            let timed =
              fired-Timed w ws s count q due r (record { apart = apart; counted = counted }) in
            (
              suc count,
              s',
              ok-bind (dispatch_round w s) (next_rounds (dispatch_rounds ws)) (some (fired w s)) r
                  ∙ e,
              fired-Spaced w s s' count q due h,
              timed.apart,
              timed.counted,
              λ d. omega arith,
            )
        | inr early ↦
            let (count, s', e, h, apart, counted, some_job) = dispatch_rounds-Spaced ws s l qs in
            let r = Quiet-dispatch_round w s s l q (Quiet-early w s early) in
            let same = fired_at-early w ws s r in
            (
              count,
              s',
              ok-bind (dispatch_round w s) (next_rounds (dispatch_rounds ws)) (some s) r ∙ e,
              h,
              rw same apart,
              rw same counted,
              λ d. still_early w ws s.message_dispatch_timer count early some_job d,
            )
      ]
