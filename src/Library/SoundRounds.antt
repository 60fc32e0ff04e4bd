-- ===== src/Library/SoundRounds.antt =====
-- The rounds of the message dispatch loop keep a server of lib/rbkit/server.rb sound.
use rbkit.Prelude.{
  ℕ, ◌≡◌, sym, ◌∙◌, ap, subst, Bool-cases, inl, inr, Option, none, some, [], ◌∷◌, Outcome, ok,
  bind-ok, ok_injective, if_true, if_false, ◌==◌,
}
use rbkit.Event.{CString}
use rbkit.Event.Codes
use rbkit.Event.Codes.{code}
use rbkit.Allocation.{Info}
use rbkit.Allocation.Table.{StTable}
use rbkit.Allocation.Strings.{Shared}
use rbkit.Msgpack.{Msgpack}
use rbkit.Sampling.Signals.{Posix}
use rbkit.Server.{send_messages, send_hash_as_event}
use rbkit.Server.Outlets.{poll_for_request}
use rbkit.Library.GcStats.{stat, ruby_hash}
use rbkit.Library.Timers.{Timer, run_timer, is_due}
use rbkit.Library.State.{Session, server_of}
use rbkit.Library.Dispatch.{
  LoopRound, dispatch_round, serve_request, take_request, run_gc_stats_timer,
  run_message_dispatch_timer, send_gc_stats, dispatch_messages,
}
use rbkit.Library.Life.{AllBounded}
use rbkit.Library.Sound.{Sound, put_server-Sound}
use rbkit.Library.SoundRequests.{process_incoming_request-Sound}

module _ ⦃m : Msgpack⦄ ⦃os : Posix⦄ ⦃strings : StTable CString Shared⦄
    ⦃objects : StTable ℕ Info⦄ where
  abbrev fired : ℕ → Timer → Session → Outcome (Timer × Session)
  fired later t s = ok (record t { last_fired_at = later }, s)

  -- A timer whose block keeps the server sound.
  run_timer-Sound :
      (now later : ℕ) (f : Session → Outcome Session) (t t' : Timer) (s s' : Session)
      → ((s₁ : Session) → f s ≡ ok s₁ → Sound s → Sound s₁)
      → run_timer now later f (t, s) ≡ ok (t', s')
      → Sound s
      → Sound s'
  unfolding run_timer
  run_timer-Sound now later f t t' s s' g e h = elim (Bool-cases (is_due now t)) [
    | inl due ↦
        let (s₁, q, r) = bind-ok (f s) (fired later t) (t', s') (rw due at e) in
        let same : s₁ ≡ s' = ap (λ (p : Timer × Session). p.1) (ok_injective r) in
        subst Sound same (g s₁ q h)
    | inr not_yet ↦
        let r : ok (t, s) ≡ ok (t', s') = rw not_yet at e in
        let same : s ≡ s' = ap (λ (p : Timer × Session). p.1) (ok_injective r) in subst Sound same h
  ]

  take_request-Sound :
      (w : LoopRound) (o : Option CString) (s s' : Session)
      → AllBounded w.surroundings.tv w.surroundings.collected s
      → take_request w.surroundings o s ≡ ok s'
      → Sound s
      → Sound s'
  unfolding take_request
  take_request-Sound w none s s' b e h = subst Sound (ok_injective e) h
  take_request-Sound w (some []) s s' b e h = subst Sound (ok_injective e) h
  take_request-Sound w (some (c ∷ cs)) s s' b e h =
      process_incoming_request-Sound w.surroundings (c ∷ cs) s s' b e h

  serve_request-Sound :
      (w : LoopRound) (s s' : Session)
      → AllBounded w.surroundings.tv w.surroundings.collected s
      → serve_request w s ≡ ok s'
      → Sound s
      → Sound s'
  unfolding serve_request
  serve_request-Sound w s s' b e h = elim (Bool-cases (s.request_port == 0)) [
    | inl off ↦ let r : ok s ≡ ok s' = sym (if_true _ _ off) ∙ e in subst Sound (ok_injective r) h
    | inr on ↦
        let (request, q, r) =
          bind-ok (poll_for_request w.revents w.received) _ s' (sym (if_false _ _ on) ∙ e) in
        take_request-Sound w request s s' b r h
  ]

  send_gc_stats-Sound :
      (w : LoopRound) (s s' : Session) → send_gc_stats w s ≡ ok s' → Sound s → Sound s'
  unfolding send_gc_stats
  send_gc_stats-Sound w s s' e h =
      let (stats, q, r) = bind-ok (stat w.vm) _ s' e in
      let ((sent, v), q', r') =
        bind-ok
          (send_hash_as_event w.surroundings.tv (ruby_hash stats) (code Codes.gc_stats)
            (server_of s))
          _ s' r in
      subst Sound (ok_injective r') (put_server-Sound s v h)

  dispatch_messages-Sound : (s s' : Session) → dispatch_messages s ≡ ok s' → Sound s → Sound s'
  unfolding dispatch_messages
  dispatch_messages-Sound s s' e h =
      subst Sound (ok_injective e) (put_server-Sound s (send_messages (server_of s)) h)

  run_gc_stats_timer-Sound :
      (w : LoopRound) (s s' : Session) → run_gc_stats_timer w s ≡ ok s' → Sound s → Sound s'
  unfolding run_gc_stats_timer
  run_gc_stats_timer-Sound w s s' e h = elim (Bool-cases s.enable_gc_stats) [
    | inl on ↦
        let ((t, s₁), q, r) =
          bind-ok (run_timer w.stats_now w.stats_later (send_gc_stats w) (s.gc_stats_timer, s)) _ s'
            (sym (if_true _ _ on) ∙ e) in
        let h₁ =
          run_timer-Sound w.stats_now w.stats_later (send_gc_stats w) s.gc_stats_timer t s s₁
            (λ s₂ q'. send_gc_stats-Sound w s s₂ q') q h in
        subst Sound (ok_injective r)
          (record { consistent = h₁.consistent; running = h₁.running; sampled = h₁.sampled })
    | inr off ↦ let r : ok s ≡ ok s' = sym (if_false _ _ off) ∙ e in subst Sound (ok_injective r) h
  ]

  run_message_dispatch_timer-Sound :
      (w : LoopRound) (s s' : Session) → run_message_dispatch_timer w s ≡ ok s' → Sound s → Sound s'
  unfolding run_message_dispatch_timer
  run_message_dispatch_timer-Sound w s s' e h =
      let ((t, s₁), q, r) =
        bind-ok
          (run_timer w.dispatch_now w.dispatch_later dispatch_messages
            (s.message_dispatch_timer, s))
          _ s' e in
      let h₁ =
        run_timer-Sound w.dispatch_now w.dispatch_later dispatch_messages s.message_dispatch_timer t
          s s₁ (λ s₂ q'. dispatch_messages-Sound s s₂ q') q h in
      subst Sound (ok_injective r)
        (record { consistent = h₁.consistent; running = h₁.running; sampled = h₁.sampled })

  abbrev from_some : Session → Option Session → Session
  from_some d none = d
  from_some d (some x) = x

  some_injective : {x y : Session} → some x ≡ some y → x ≡ y
  some_injective {x} e = ap (from_some x) e

  pub dispatch_round-Sound :
      (w : LoopRound) (s s' : Session)
      → AllBounded w.surroundings.tv w.surroundings.collected s
      → dispatch_round w s ≡ ok (some s')
      → Sound s
      → Sound s'
  unfolding dispatch_round
  dispatch_round-Sound w s s' b e h = elim (Bool-cases s.stop_profiler_thread) [
    | inl ends ↦ let r : ok none ≡ ok (some s') = sym (if_true _ _ ends) ∙ e in cc (ok_injective r)
    | inr goes_on ↦
        let (s₁, q, e₁) =
          bind-ok (serve_request w s) _ (some s') (sym (if_false _ _ goes_on) ∙ e) in
        let (s₂, q', e₂) = bind-ok (run_gc_stats_timer w s₁) _ (some s') e₁ in
        let (s₃, q'', e₃) = bind-ok (run_message_dispatch_timer w s₂) _ (some s') e₂ in
        subst Sound (some_injective (ok_injective e₃)) (
          run_message_dispatch_timer-Sound w s₂ s₃ q''
            (run_gc_stats_timer-Sound w s₁ s₂ q' (serve_request-Sound w s s₁ b q h)))
  ]
