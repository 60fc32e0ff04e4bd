-- ===== src/Library/Sound.antt =====
-- What each method of lib/rbkit/server.rb keeps of the logger, the tracepoints and the profiler.
use rbkit.Prelude.{
  ℕ, ℤ, ◌≡◌, refl, sym, ◌∙◌, ap, subst, Bool, true, false, Bool-cases, inl, inr, Option, none, some,
  ascii, Outcome, ok, bind-ok, ok_injective, arith, fix2int, if_false,
}
use rbkit.Event.{CString}
use rbkit.Allocation.{Info}
use rbkit.Allocation.Table.{StTable}
use rbkit.Allocation.Strings.{Shared}
use rbkit.Sampling.Signals.{Posix}
use rbkit.Server.{Server}
use rbkit.Tracing.{
  Logger, System, start_stat_tracing, stop_stat_tracing, start_sampling_profiler,
  stop_sampling_profiler,
}
use rbkit.Tracing.Consistent.{Consistent, Step-Consistent}
use rbkit.Tracing.Steps.{Step, start_tracing, stop_tracing, start_profiler, stop_profiler}
use rbkit.Library.Names.{Name, symbol, is_sampling, clock_type_of}
use rbkit.Library.State.{is_set, Session, server_of, put_server, put_system, on_server, on_system}
use rbkit.Library.Methods.{start_cpu_profiling, stop_cpu_profiling}

abbrev pub sampling_flag : Option Logger → Bool
sampling_flag none = false
sampling_flag (some l) = l.sampling_profiler_enabled

module _ ⦃os : Posix⦄ ⦃strings : StTable CString Shared⦄ ⦃objects : StTable ℕ Info⦄ where
  -- The extension is consistent, there is a logger exactly while the server runs, and what is
  -- sampled is what `stop_cpu_profiling` stops.
  pub record Sound (s : Session) : Type 0 where
    pub consistent : Consistent s.extension.system
    pub running : s.server_running ≡ is_set s.extension.system.logger
    pub sampled :
        sampling_flag s.extension.system.logger ≡ true → is_sampling s.cpu_profiling_mode ≡ true

  pub put_server-Sound : (s : Session) (v : Server) → Sound s → Sound (put_server v s)
  unfolding put_server
  put_server-Sound s v h = record {
    consistent = record {
      agrees = h.consistent.agrees;
      valid = h.consistent.valid;
      silent = h.consistent.silent;
      clean = h.consistent.clean;
    };
    running = h.running;
    sampled = h.sampled;
  }

  pub on_server-Sound :
      (f : Server → Outcome Server) (s s' : Session) → on_server f s ≡ ok s' → Sound s → Sound s'
  on_server-Sound f s s' e h =
      let (v, q, r) = bind-ok (f (server_of s)) (λ v. ok (put_server v s)) s' e in
      subst Sound (ok_injective r) (put_server-Sound s v h)

  -- What a call of the extension does to the logger.
  record Kept (y y' : System) : Type 0 where
    step : Step y y'
    same_logger : is_set y'.logger ≡ is_set y.logger

  put_system-Sound :
      (s : Session) (y : System)
      → Sound s
      → Kept s.extension.system y
      → (sampling_flag y.logger ≡ true → is_sampling s.cpu_profiling_mode ≡ true)
      → Sound (put_system y s)
  put_system-Sound s y h k flags = record {
    consistent = Step-Consistent s.extension.system y k.step h.consistent;
    running = h.running ∙ sym k.same_logger;
    sampled = flags;
  }

  start_stat_tracing-Kept :
      (y y' : System)
      → start_stat_tracing y ≡ ok y'
      → Kept y y' × (sampling_flag y'.logger ≡ sampling_flag y.logger)
  unfolding start_stat_tracing
  start_stat_tracing-Kept y y' e =
      (record { step = start_tracing e; same_logger = ground (arith, e) }, ground (arith, e))

  stop_stat_tracing-Kept :
      (y y' : System)
      → stop_stat_tracing y ≡ ok y'
      → Kept y y' × (sampling_flag y'.logger ≡ sampling_flag y.logger)
  unfolding stop_stat_tracing
  stop_stat_tracing-Kept y y' e =
      (record { step = stop_tracing e; same_logger = ground (arith, e) }, ground (arith, e))

  start_sampling_profiler-Kept :
      (clock : Option Bool) (i : ℤ) (y y' : System)
      → start_sampling_profiler clock i y ≡ ok y'
      → Kept y y'
  unfolding start_sampling_profiler fix2int
  start_sampling_profiler-Kept none i y y' e = record {
    step = start_profiler none i e;
    same_logger = ground (arith, e);
  }
  start_sampling_profiler-Kept (some w) i y y' e = record {
    step = start_profiler (some w) i e;
    same_logger = ground (arith, e);
  }

  stop_sampling_profiler-Kept :
      (y y' : System)
      → stop_sampling_profiler y ≡ ok y'
      → Kept y y' × (sampling_flag y'.logger ≡ false)
  unfolding stop_sampling_profiler
  stop_sampling_profiler-Kept y y' e =
      (record { step = stop_profiler e; same_logger = ground (arith, e) }, ground (arith, e))

  pub start_stat_tracing-Sound :
      (s s' : Session) → on_system start_stat_tracing s ≡ ok s' → Sound s → Sound s'
  start_stat_tracing-Sound s s' e h =
      let (y, q, r) = bind-ok (start_stat_tracing s.extension.system) _ s' e in
      let (k, f) = start_stat_tracing-Kept s.extension.system y q in
      subst Sound (ok_injective r) (put_system-Sound s y h k (λ on. h.sampled (sym f ∙ on)))

  pub start_stat_tracing-sampling_flag :
      (s s' : Session)
      → on_system start_stat_tracing s ≡ ok s'
      → sampling_flag s'.extension.system.logger ≡ sampling_flag s.extension.system.logger
  start_stat_tracing-sampling_flag s s' e =
      let (y, q, r) = bind-ok (start_stat_tracing s.extension.system) _ s' e in
      ap (λ (x : Session). sampling_flag x.extension.system.logger) (sym (ok_injective r))
      ∙ (start_stat_tracing-Kept s.extension.system y q).1

  pub stop_stat_tracing-Sound :
      (s s' : Session) → on_system stop_stat_tracing s ≡ ok s' → Sound s → Sound s'
  stop_stat_tracing-Sound s s' e h =
      let (y, q, r) = bind-ok (stop_stat_tracing s.extension.system) _ s' e in
      let (k, f) = stop_stat_tracing-Kept s.extension.system y q in
      subst Sound (ok_injective r) (put_system-Sound s y h k (λ on. h.sampled (sym f ∙ on)))

  pub start_cpu_profiling-Sound :
      (clock : Name) (i : ℤ) (s s' : Session)
      → start_cpu_profiling (symbol (ascii "sampling")) clock i s ≡ ok s'
      → Sound s
      → Sound s'
  unfolding start_cpu_profiling is_sampling
  start_cpu_profiling-Sound clock i s s' e h =
      let s₁ : Session = record s { cpu_profiling_mode = symbol (ascii "sampling") } in
      let (y, q, r) =
        bind-ok (start_sampling_profiler (clock_type_of clock) i s.extension.system) _ s' e in
      let k = start_sampling_profiler-Kept (clock_type_of clock) i s.extension.system y q in
      let h₁ : Sound s₁ = record {
        consistent = h.consistent;
        running = h.running;
        sampled = λ on. refl;
      } in
      subst Sound (ok_injective r) (put_system-Sound s₁ y h₁ k (λ on. refl))

  -- Another mode, while nothing is sampled.
  pub other_mode-Sound :
      (mode clock : Name) (i : ℤ) (s s' : Session)
      → is_sampling mode ≡ false
      → sampling_flag s.extension.system.logger ≡ false
      → start_cpu_profiling mode clock i s ≡ ok s'
      → Sound s
      → Sound s'
  unfolding start_cpu_profiling
  other_mode-Sound mode clock i s s' other silent e h =
      let r = ok_injective (sym (if_false _ _ other) ∙ e) in
      let h₁ : Sound (record s { cpu_profiling_mode = mode }) = record {
        consistent = h.consistent;
        running = h.running;
        sampled = λ on. cc (on, silent);
      } in
      subst Sound r h₁

  pub stop_cpu_profiling-Sound :
      (s s' : Session) → stop_cpu_profiling s ≡ ok s' → Sound s → Sound s'
  unfolding stop_cpu_profiling
  stop_cpu_profiling-Sound s s' e h = elim (Bool-cases (is_sampling s.cpu_profiling_mode)) [
    | inl on ↦
        let e₁ : on_system stop_sampling_profiler s ≡ ok s' = rw on at e in
        let (y, q, r) = bind-ok (stop_sampling_profiler s.extension.system) _ s' e₁ in
        let (k, f) = stop_sampling_profiler-Kept s.extension.system y q in
        subst Sound (ok_injective r) (put_system-Sound s y h k (λ on'. cc))
    | inr off ↦ let e₁ : ok s ≡ ok s' = rw off at e in subst Sound (ok_injective e₁) h
  ]
