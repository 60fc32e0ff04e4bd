-- ===== src/Library/SoundStart.antt =====
-- A server of lib/rbkit/server.rb that is made and started is sound.
use rbkit.Prelude.{
  ℕ, ℤ, ◌≡◌, refl, sym, ◌∙◌, ap, subst, Bool, true, false, Bool-cases, Option-cases, inl, inr, none,
  List, ascii, Outcome, ok, bind-ok, ok_injective, if◌then◌else◌, if_true, if_false,
}
use rbkit.Event.{CString}
use rbkit.Allocation.{Info}
use rbkit.Allocation.Table.{StTable}
use rbkit.Allocation.Strings.{Shared}
use rbkit.Sampling.Signals.{Posix}
use rbkit.Tracing.{
  System, start_logger, get_trace_logger, create_gc_hooks, start_sampling_profiler,
  start_stat_server, start_stat_tracing,
}
use rbkit.Tracing.Consistent.{Consistent, Step-Consistent}
use rbkit.Tracing.Returns.{start_stat_server-after_binding}
use rbkit.Tracing.Steps
use rbkit.Tracing.Steps.{Step}
use rbkit.Library.Names.{Name, symbol, is_sampling, clock_type_of}
use rbkit.Library.State.{is_set, Extension, Session, put_system, on_system}
use rbkit.Library.Methods
use rbkit.Library.Methods.{
  StartOptions, initialize, start, configure, stop, start_cpu_profiling, stop_cpu_profiling, given,
  validate_port_range,
}
use rbkit.Library.Sound.{
  sampling_flag, Sound, start_stat_tracing-Sound, start_stat_tracing-sampling_flag,
  start_cpu_profiling-Sound,
}

module _ ⦃os : Posix⦄ ⦃strings : StTable CString Shared⦄ ⦃objects : StTable ℕ Info⦄ where
  pub initialize-Sound :
      (p r : ℤ) (now : ℕ) (x : Extension) (s : Session)
      → initialize p r now x ≡ ok s
      → Consistent x.system
      → x.system.logger ≡ none
      → Sound s
  unfolding initialize is_sampling
  initialize-Sound p r now x s e c n =
      let (pub_port, q, e₁) = bind-ok (validate_port_range p) _ s e in
      let (request_port, q', e₂) = bind-ok (validate_port_range r) _ s e₁ in
      subst Sound (ok_injective e₂)
        (record { consistent = c; running = rw n refl; sampled = λ on. refl })

  -- The server once it is said to run.
  abbrev run : Session → Session
  run s = record s { server_running = true }

  on_system-run :
      (f : System → Outcome System) (s s' : Session)
      → on_system f s ≡ ok s'
      → on_system f (run s) ≡ ok (run s')
  on_system-run f s s' e =
      let (y, q, r) = bind-ok (f s.extension.system) _ s' e in
      rw q (ap (λ x. ok (run x)) (ok_injective r))

  traced-Sound :
      (b : Bool) (s s' : Session)
      → (if b then on_system start_stat_tracing s else ok s) ≡ ok s'
      → Sound (run s)
      → Sound (run s')
        × (sampling_flag s'.extension.system.logger ≡ sampling_flag s.extension.system.logger)
  traced-Sound true s s' e h = (
    start_stat_tracing-Sound (run s) (run s') (on_system-run start_stat_tracing s s' e) h,
    start_stat_tracing-sampling_flag s s' e,
  )
  traced-Sound false s s' e h = (
    subst (λ x. Sound (run x)) (ok_injective e) h,
    ap (λ (x : Session). sampling_flag x.extension.system.logger) (sym (ok_injective e)),
  )

  profiled-Sound :
      (b : Bool) (clock : Name) (i : ℤ) (s s' : Session)
      → (if b then start_cpu_profiling (symbol (ascii "sampling")) clock i s else ok s) ≡ ok s'
      → Sound (run s)
      → Sound (run s')
  unfolding start_cpu_profiling is_sampling
  profiled-Sound true clock i s s' e h =
      start_cpu_profiling-Sound clock i (run s) (run s')
        (on_system-run (start_sampling_profiler (clock_type_of clock) i)
          (record s { cpu_profiling_mode = symbol (ascii "sampling") }) s' e)
        h
  profiled-Sound false clock i s s' e h = subst (λ x. Sound (run x)) (ok_injective e) h

  configure-Sound :
      (o : StartOptions) (s s' : Session)
      → configure o s ≡ ok s'
      → Sound (run s)
      → sampling_flag s.extension.system.logger ≡ false
      → Sound s'
  unfolding configure
  configure-Sound o s s' e h off =
      let (s₁, q, e₁) =
        bind-ok (if o.enable_object_trace then on_system start_stat_tracing s else ok s) _ s' e in
      let (h₁, same) = traced-Sound o.enable_object_trace s s₁ q h in
      let s₂ : Session = record s₁ {
        cpu_profiling_mode = given o.cpu_profiling_mode s₁.cpu_profiling_mode;
        clock_type = given o.clock_type s₁.clock_type;
        cpu_sampling_interval_usec =
            given o.cpu_sampling_interval_usec s₁.cpu_sampling_interval_usec;
      } in
      let h₂ : Sound (run s₂) = record {
        consistent = h₁.consistent;
        running = h₁.running;
        sampled = λ on. cc (same, off, on);
      } in
      let (s₃, q', e₂) =
        bind-ok
          (if o.enable_cpu_profiling
            then start_cpu_profiling (symbol (ascii "sampling")) s₂.clock_type
                s₂.cpu_sampling_interval_usec s₂
            else ok s₂)
          _ s' e₁ in
      let h₃ =
        profiled-Sound o.enable_cpu_profiling s₂.clock_type s₂.cpu_sampling_interval_usec s₂ s₃ q'
          h₂ in
      subst Sound (ok_injective e₂)
        (record { consistent = h₃.consistent; running = h₃.running; sampled = h₃.sampled })

  -- A server that is not running has no logger.
  pub logger_none :
      (s : Session) → Sound s → s.server_running ≡ false → s.extension.system.logger ≡ none
  logger_none s h off = elim (Option-cases s.extension.system.logger) [
    | inl n ↦ n
    | inr (l, p) ↦
        let e : is_set s.extension.system.logger ≡ true = rw p refl in cc (e, h.running, off)
  ]

  started-Sound :
      (zmq_bind : List ℕ → Bool) (o : StartOptions) (s s' : Session) (b b' : Bool) (y : System)
      → start_stat_server zmq_bind s.pub_port s.request_port s.extension.system ≡ ok (b, y)
      → Methods.once_bound o (put_system y s) b ≡ ok (b', s')
      → s.server_running ≡ false
      → Sound s
      → Sound s'
  unfolding start_logger get_trace_logger create_gc_hooks
  started-Sound zmq_bind o s s' true b' y q e off h =
      let n = logger_none s h off in
      let c =
        Step-Consistent s.extension.system y
          (Steps.start_server zmq_bind s.pub_port s.request_port true n q) h.consistent in
      let (k, same) =
        start_stat_server-after_binding zmq_bind s.pub_port s.request_port s.extension.system y true
          q in
      let there : is_set y.logger ≡ true = rw (same, n) refl in
      let silent : sampling_flag y.logger ≡ false = rw (same, n) refl in
      let (s₁, q', r) = bind-ok (configure o (put_system y s)) _ (b', s') e in
      let h' : Sound (run (put_system y s)) = record {
        consistent = c;
        running = sym there;
        sampled = λ on. cc (silent, on);
      } in
      subst Sound (ap (λ (p : Bool × Session). p.1) (ok_injective r))
        (configure-Sound o (put_system y s) s₁ q' h' silent)
  started-Sound zmq_bind o s s' false b' y q e off h =
      let n = logger_none s h off in
      let c =
        Step-Consistent s.extension.system y
          (Steps.start_server zmq_bind s.pub_port s.request_port false n q) h.consistent in
      let (k, same) =
        start_stat_server-after_binding zmq_bind s.pub_port s.request_port s.extension.system y
          false q in
      let gone : y.logger ≡ none = rw (same, n) refl in
      let h' : Sound (put_system y s) = record {
        consistent = c;
        running = rw (off, gone) refl;
        sampled = λ on. cc (gone, on);
      } in
      subst Sound (ap (λ (p : Bool × Session). p.1) (ok_injective e)) h'

  pub start-Sound :
      (zmq_bind : List ℕ → Bool) (o : StartOptions) (b : Bool) (s s' : Session)
      → start zmq_bind o s ≡ ok (b, s')
      → Sound s
      → Sound s'
  unfolding start
  start-Sound zmq_bind o b s s' e h = elim (Bool-cases s.server_running) [
    | inl on ↦
        let r : ok (false, s) ≡ ok (b, s') = sym (if_true _ _ on) ∙ e in
        subst Sound (ap (λ (p : Bool × Session). p.1) (ok_injective r)) h
    | inr off ↦
        let ((started, y), q, r) =
          bind-ok (start_stat_server zmq_bind s.pub_port s.request_port s.extension.system) _
            (b, s') (sym (if_false _ _ off) ∙ e) in
        started-Sound zmq_bind o s s' started b y q r off h
  ]
