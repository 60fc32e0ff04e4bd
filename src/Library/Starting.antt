-- ===== src/Library/Starting.antt =====
-- What `start` of lib/rbkit/server.rb comes to.
use rbkit.Prelude.{
  ℕ, ◌<◌, ◌≡◌, ap, ◌∙◌, Bool, true, false, ◌&&◌, none, some, List, Outcome, ok, raised,
  argument_error, range_error, Error, in_int, ◌>>=◌, ok-bind, if_true, if_false,
}
use rbkit.Event.{CString}
use rbkit.Allocation.{Info}
use rbkit.Allocation.Table.{StTable}
use rbkit.Allocation.Strings.{Shared}
use rbkit.Msgpack.{Msgpack}
use rbkit.Sampling.Signals.{Posix}
use rbkit.Tracing.{System, new_logger, start_stat_server}
use rbkit.Tracing.Binding.{serves, start_stat_server-Served, kept_or_new}
use rbkit.Library.State.{Session, put_system}
use rbkit.Library.Methods
use rbkit.Library.Methods.{StartOptions, given, start_cpu_profiling, configure, start}
use rbkit.Library.Life.{Live}
use rbkit.Library.SoundStart.{logger_none}
use rbkit.Library.Invariant.{Live-Sound}
use rbkit.Library.Views.{IsSymbol}
use rbkit.Library.Configure.{
  CanSample, clock_for, interval_for, Refused, no_symbol-Refused, large-Refused, StartedServer,
  configure-StartedServer, configure-raised,
}

module _ ⦃os : Posix⦄ ⦃strings : StTable CString Shared⦄ ⦃objects : StTable ℕ Info⦄ where
  module _ (zmq_bind : List ℕ → Bool) (o : StartOptions) (s : Session) where
    -- Whether the ports that are asked for can be bound.
    abbrev pub bindable : Bool
    bindable = serves zmq_bind s.pub_port && serves zmq_bind s.request_port

    start_binds :
        (y : System) (b : Bool)
        → s.server_running ≡ false
        → start_stat_server zmq_bind s.pub_port s.request_port s.extension.system ≡ ok (b, y)
        → start zmq_bind o s ≡ Methods.once_bound o (put_system y s) b
    unfolding start
    start_binds y b off q = if_false _ _ off ∙ ok-bind _ _ (b, y) q

    start_raises :
        (y : System) (x : Error)
        → start zmq_bind o s ≡ Methods.once_bound o (put_system y s) bindable
        → bindable ≡ true
        → y.logger ≡ some new_logger
        → o.enable_cpu_profiling ≡ true
        → Refused (clock_for o s) (interval_for o s) x
        → start zmq_bind o s ≡ raised x
    start_raises y x starts binds logged on h =
        starts
        ∙ (ap (Methods.once_bound o (put_system y s)) binds
            ∙ ap (λ (r : Outcome Session). r >>= (λ s'. ok (true, s')))
                (configure-raised o s y x logged on h))

    pub start-Live :
        ⦃m : Msgpack⦄
        → Live s
        → s.server_running ≡ false
        → s.pub_port < 10000
        → s.request_port < 10000
        → (bindable ≡ false
            → (y : System) × (start zmq_bind o s ≡ ok (false, put_system y s)) × (y.logger ≡ none))
          × (bindable ≡ true
              → o.enable_cpu_profiling ≡ true
              → (IsSymbol (clock_for o s) → ⊥)
              → start zmq_bind o s ≡ raised argument_error)
          × (bindable ≡ true
              → o.enable_cpu_profiling ≡ true
              → IsSymbol (clock_for o s)
              → in_int (interval_for o s) ≡ false
              → start zmq_bind o s ≡ raised range_error)
          × (bindable ≡ true
              → (o.enable_cpu_profiling ≡ true → CanSample (clock_for o s) (interval_for o s))
              → (s' : Session) × (start zmq_bind o s ≡ ok (true, s')) × StartedServer o s s')
    start-Live live off small small' =
        let n = logger_none s (Live-Sound s live) off in
        let (y, q, served) =
          start_stat_server-Served zmq_bind s.pub_port s.request_port s.extension.system small
            small' in
        let logger_lem : bindable ≡ true → y.logger ≡ some new_logger =
          λ on. served.logger_lem ∙ (if_true _ _ on ∙ ap (λ l. some (kept_or_new l)) n) in
        (
          λ no. (
            y,
            start_binds y bindable off q ∙ ap (Methods.once_bound o (put_system y s)) no,
            served.logger_lem ∙ (if_false _ _ no ∙ n),
          ),
          λ yes on wrong.
              start_raises y argument_error (start_binds y bindable off q) yes (logger_lem yes) on
                (no_symbol-Refused (clock_for o s) (interval_for o s) wrong),
          λ yes on right large.
              start_raises y range_error (start_binds y bindable off q) yes (logger_lem yes) on
                (large-Refused (clock_for o s) (interval_for o s) right large),
          λ yes right.
              let (s', q', started) =
                configure-StartedServer o s y (logger_lem yes)
                  (served.messages_lem ∙ if_true _ _ yes) right in
              (
                s',
                start_binds y bindable off q
                    ∙ (ap (Methods.once_bound o (put_system y s)) yes
                        ∙ ok-bind (configure o (put_system y s)) _ s' q'),
                started,
              ),
        )
