-- ===== src/Library/Configure.antt =====
-- What `start` of lib/rbkit/server.rb sets, once the extension has started.
use rbkit.Prelude.{
  ℕ, ℤ, ◌≡◌, refl, ap, ◌∙◌, Bool, true, false, none, some, ascii, Outcome, ok, raised,
  argument_error, range_error, Error, in_int, fix2int-raised, ◌>>=◌, ok-bind, if◌then◌else◌,
  if_true, if_false,
}
use rbkit.Event.{CString}
use rbkit.Aggregator.{message_list_new}
use rbkit.Allocation.{Info}
use rbkit.Allocation.Table.{StTable}
use rbkit.Allocation.Strings.{Shared}
use rbkit.Allocation.Tables.{same_bytes}
use rbkit.Sampling.Signals.{Posix}
use rbkit.Tracing.{Logger, System, new_logger, start_stat_tracing, start_sampling_profiler}
use rbkit.Library.Names.{Name, symbol, no_symbol, is_sampling, clock_type_of}
use rbkit.Library.State.{Session, put_system, on_system}
use rbkit.Library.Methods.{StartOptions, given, start_cpu_profiling, configure}
use rbkit.Library.Sound.{sampling_flag}
use rbkit.Library.SoundQuiet.{on_system-ok}
use rbkit.Library.Switches.{Switched, start_stat_tracing-Switched, start_sampling_profiler-Switched}
use rbkit.Library.Views.{IsSymbol}
use rbkit.Tracing.Steps.{enabled_flag}

module _ ⦃os : Posix⦄ ⦃strings : StTable CString Shared⦄ ⦃objects : StTable ℕ Info⦄ where
  traced :
      (b : Bool) (s : Session) (l : Logger)
      → s.extension.system.logger ≡ some l
      → l.enabled ≡ false
      → (y : System) × ((if b then on_system start_stat_tracing s else ok s) ≡ ok (put_system y s))
        × Switched s.extension.system (record l { enabled = b }) y
  traced true s l p off =
      let (y, q, sw) = start_stat_tracing-Switched s.extension.system l p in
      (y, on_system-ok start_stat_tracing s y q, sw)
  traced false s l p off = (
    s.extension.system,
    refl,
    record {
      logger_lem = p ∙ ap (λ b. some (record l { enabled = b })) off;
      same_sockets = refl;
      same_messages = refl;
    },
  )

  -- The mode after profiling was started or not.
  abbrev pub mode_after : Bool → Name → Name
  mode_after b mode = if b then symbol (ascii "sampling") else mode

  -- The clock is a symbol, and the interval fits an int.
  abbrev pub CanSample : Name → ℤ → Type 0
  CanSample clock i = IsSymbol clock × (in_int i ≡ true)

  profiled :
      (b : Bool) (clock : Name) (i : ℤ) (s : Session) (l : Logger)
      → s.extension.system.logger ≡ some l
      → l.sampling_profiler_enabled ≡ false
      → (b ≡ true → CanSample clock i)
      → (y : System) × ((if b
            then start_cpu_profiling (symbol (ascii "sampling")) clock i s
            else ok s)
          ≡ ok (put_system y (record s { cpu_profiling_mode = mode_after b s.cpu_profiling_mode })))
        × Switched s.extension.system (record l { sampling_profiler_enabled = b }) y
  unfolding start_cpu_profiling is_sampling clock_type_of
  profiled true (symbol text) i s l p off h =
      let wall : Bool = same_bytes text (ascii "wall") in
      let (y, q, sw) = start_sampling_profiler-Switched s.extension.system l p wall i (h refl).1 in
      let s₀ : Session = record s { cpu_profiling_mode = symbol (ascii "sampling") } in
      (y, on_system-ok (start_sampling_profiler (some wall) i) s₀ y q, sw)
  profiled true (no_symbol text) i s l p off h = absurd (h refl).0
  profiled false clock i s l p off h = (
    s.extension.system,
    refl,
    record {
      logger_lem = p ∙ ap (λ b. some (record l { sampling_profiler_enabled = b })) off;
      same_sockets = refl;
      same_messages = refl;
    },
  )

  -- The clock that `start` profiles with.
  abbrev pub clock_for : StartOptions → Session → Name
  clock_for o s = given o.clock_type s.clock_type

  abbrev pub interval_for : StartOptions → Session → ℤ
  interval_for o s = given o.cpu_sampling_interval_usec s.cpu_sampling_interval_usec

  -- `s'` is the server `s`, started with `o`.
  pub record StartedServer (o : StartOptions) (s s' : Session) : Type 0 where
    pub running : s'.server_running ≡ true
    pub tracing : enabled_flag s'.extension.system.logger ≡ o.enable_object_trace
    pub sampling : sampling_flag s'.extension.system.logger ≡ o.enable_cpu_profiling
    pub gc_stats : s'.enable_gc_stats ≡ o.enable_gc_stats
    pub clock : s'.clock_type ≡ clock_for o s
    pub interval : s'.cpu_sampling_interval_usec ≡ interval_for o s
    pub mode :
        s'.cpu_profiling_mode
        ≡ mode_after o.enable_cpu_profiling (given o.cpu_profiling_mode s.cpu_profiling_mode)
    pub messages_lem : s'.extension.system.messages ≡ message_list_new s.extension.system.messages
    pub same_end : s'.stop_profiler_thread ≡ s.stop_profiler_thread

  abbrev configured : StartOptions → Session → Outcome Session
  configured o s = ok (record s { enable_gc_stats = o.enable_gc_stats; server_running = true })

  -- The settings that `start` takes over.
  abbrev settings : StartOptions → Session → Session
  settings o s = record s {
    cpu_profiling_mode = given o.cpu_profiling_mode s.cpu_profiling_mode;
    clock_type = clock_for o s;
    cpu_sampling_interval_usec = interval_for o s;
  }

  pub configure-StartedServer :
      (o : StartOptions) (s : Session) (y : System)
      → y.logger ≡ some new_logger
      → y.messages ≡ message_list_new s.extension.system.messages
      → (o.enable_cpu_profiling ≡ true → CanSample (clock_for o s) (interval_for o s))
      → (s' : Session) × (configure o (put_system y s) ≡ ok s') × StartedServer o s s'
  unfolding configure
  configure-StartedServer o s y p messages_lem h =
      let (y₁, q, sw) = traced o.enable_object_trace (put_system y s) new_logger p refl in
      let l₁ : Logger = record new_logger { enabled = o.enable_object_trace } in
      let s₂ = settings o (put_system y₁ s) in
      let (y₂, q', sw') =
        profiled o.enable_cpu_profiling (clock_for o s) (interval_for o s) s₂ l₁ sw.logger_lem refl
          h in
      (
        _,
        ok-bind
              (if o.enable_object_trace
                then on_system start_stat_tracing (put_system y s)
                else ok (put_system y s))
              _ (put_system y₁ s) q
            ∙ ok-bind _ _ _ q',
        record {
          running = refl;
          tracing = ap enabled_flag sw'.logger_lem;
          sampling = ap sampling_flag sw'.logger_lem;
          gc_stats = refl;
          clock = refl;
          interval = refl;
          mode = refl;
          messages_lem = sw'.same_messages ∙ (sw.same_messages ∙ messages_lem);
          same_end = refl;
        },
      )

  start_sampling_profiler-raised :
      (i : ℤ) (y : System) (l : Logger)
      → y.logger ≡ some l
      → l.sampling_profiler_enabled ≡ false
      → start_sampling_profiler none i y ≡ raised argument_error
  unfolding start_sampling_profiler
  start_sampling_profiler-raised i y l p off = rw p (if_false _ _ off)

  start_sampling_profiler-large :
      (wall : Bool) (i : ℤ) (y : System) (l : Logger)
      → y.logger ≡ some l
      → l.sampling_profiler_enabled ≡ false
      → in_int i ≡ false
      → start_sampling_profiler (some wall) i y ≡ raised range_error
  unfolding start_sampling_profiler
  start_sampling_profiler-large wall i y l p off large = rw (p, off, fix2int-raised i large) refl

  -- A call that is to start the profiler on a server that does not sample raises `x`.
  abbrev pub Refused : Name → ℤ → Error → Type 0
  Refused clock i x =
      (s : Session) (l : Logger)
      → s.extension.system.logger ≡ some l
      → l.sampling_profiler_enabled ≡ false
      → start_cpu_profiling (symbol (ascii "sampling")) clock i s ≡ raised x

  passed_on :
      (s : Session) (o : Outcome System) (x : Error)
      → o ≡ raised x
      → (o >>= (λ y. ok (put_system y s))) ≡ raised x
  passed_on s o x e = ap (λ (o : Outcome System). o >>= (λ y. ok (put_system y s))) e

  pub no_symbol-Refused :
      (clock : Name) (i : ℤ) → (IsSymbol clock → ⊥) → Refused clock i argument_error
  unfolding start_cpu_profiling is_sampling clock_type_of
  no_symbol-Refused (symbol text) i h s l p off = absurd (h tt)
  no_symbol-Refused (no_symbol text) i h s l p off =
      passed_on (record s { cpu_profiling_mode = symbol (ascii "sampling") }) _ argument_error
        (start_sampling_profiler-raised i s.extension.system l p off)

  pub large-Refused :
      (clock : Name) (i : ℤ) → IsSymbol clock → in_int i ≡ false → Refused clock i range_error
  unfolding start_cpu_profiling is_sampling clock_type_of
  large-Refused (no_symbol text) i h large s l p off = absurd h
  large-Refused (symbol text) i h large s l p off =
      passed_on (record s { cpu_profiling_mode = symbol (ascii "sampling") }) _ range_error
        (start_sampling_profiler-large (same_bytes text (ascii "wall")) i s.extension.system l p off
          large)

  pub configure-raised :
      (o : StartOptions) (s : Session) (y : System) (x : Error)
      → y.logger ≡ some new_logger
      → o.enable_cpu_profiling ≡ true
      → Refused (clock_for o s) (interval_for o s) x
      → configure o (put_system y s) ≡ raised x
  unfolding configure
  configure-raised o s y x p on h =
      let (y₁, q, sw) = traced o.enable_object_trace (put_system y s) new_logger p refl in
      let l₁ : Logger = record new_logger { enabled = o.enable_object_trace } in
      ok-bind
        (if o.enable_object_trace
          then on_system start_stat_tracing (put_system y s)
          else ok (put_system y s))
        _ (put_system y₁ s) q
      ∙ ap (λ (r : Outcome Session). r >>= configured o)
          (if_true _ _ on ∙ h (settings o (put_system y₁ s)) l₁ sw.logger_lem refl)
