-- ===== src/Library/QuietRounds.antt =====
-- A round of the message dispatch loop of lib/rbkit/server.rb in which no request comes.
use rbkit.Prelude.{
  ℕ, ◌+◌, ◌≤◌, ◌≡◌, refl, ap, ◌∙◌, true, false, Bool-cases, inl, inr, ◌==◌, none, some, ok, ok-bind,
  if_true, if_false,
}
use rbkit.Event.{CString}
use rbkit.Allocation.{Info}
use rbkit.Allocation.Table.{StTable}
use rbkit.Allocation.Strings.{Shared}
use rbkit.Msgpack.{Msgpack}
use rbkit.Sampling.Signals.{Posix}
use rbkit.Server.{Server, send_messages}
use rbkit.Server.Outlets.{poll_for_request}
use rbkit.Library.Timers.{is_due, run_timer}
use rbkit.Library.State.{Session, server_of, put_server}
use rbkit.Library.Dispatch.{
  LoopRound, dispatch_round, serve_request, take_request, run_gc_stats_timer,
  run_message_dispatch_timer, dispatch_messages,
}

module _ ⦃m : Msgpack⦄ ⦃os : Posix⦄ ⦃strings : StTable CString Shared⦄
    ⦃objects : StTable ℕ Info⦄ where
  -- No request comes, and the time does not go back while messages are dispatched.
  pub record Quiet (w : LoopRound) : Type 0 where
    pub no_request : w.revents ≡ 0
    pub forward : w.dispatch_now ≤ w.dispatch_later

  -- The loop goes on, messages are published by jobs, and no GC statistics are asked for.
  pub record Listening (s : Session) : Type 0 where
    pub goes_on : s.stop_profiler_thread ≡ false
    pub no_stats : s.enable_gc_stats ≡ false
    pub no_test : s.extension.test_mode_enabled ≡ false

  -- The session after a quiet round in which the timer fires.
  abbrev pub fired : LoopRound → Session → Session
  fired w s =
      let v : Server = server_of s in
      let s' : Session =
        put_server (record v { registered_jobs = s.extension.registered_jobs + 1 }) s in
      record s' {
        message_dispatch_timer = record s.message_dispatch_timer {
          last_fired_at = w.dispatch_later;
        };
      }

  Quiet-serve_request : (w : LoopRound) (s : Session) → Quiet w → serve_request w s ≡ ok s
  unfolding serve_request poll_for_request take_request
  Quiet-serve_request w s q = elim (Bool-cases (s.request_port == 0)) [
    | inl e ↦ if_true _ _ e
    | inr e ↦
        if_false _ _ e
        ∙ ok-bind (poll_for_request w.revents w.received) (λ r. take_request w.surroundings r s)
            none (ap (λ k. poll_for_request k w.received) q.no_request)
  ]

  pub Quiet-fired :
      (w : LoopRound) (s : Session)
      → Listening s
      → is_due w.dispatch_now s.message_dispatch_timer ≡ true
      → run_message_dispatch_timer w s ≡ ok (fired w s)
  unfolding run_message_dispatch_timer run_timer dispatch_messages send_messages server_of
  Quiet-fired w s l due = rw (due, l.no_test) refl

  pub Quiet-early :
      (w : LoopRound) (s : Session)
      → is_due w.dispatch_now s.message_dispatch_timer ≡ false
      → run_message_dispatch_timer w s ≡ ok s
  unfolding run_message_dispatch_timer run_timer
  Quiet-early w s early = rw early refl

  pub Quiet-dispatch_round :
      (w : LoopRound) (s s' : Session)
      → Listening s
      → Quiet w
      → run_message_dispatch_timer w s ≡ ok s'
      → dispatch_round w s ≡ ok (some s')
  unfolding dispatch_round run_gc_stats_timer
  Quiet-dispatch_round w s s' l q e =
      if_false _ _ l.goes_on
      ∙ (ok-bind (serve_request w s) _ s (Quiet-serve_request w s q)
          ∙ (ok-bind (run_gc_stats_timer w s) _ s (if_false _ _ l.no_stats)
              ∙ ok-bind (run_message_dispatch_timer w s) _ s' e))
