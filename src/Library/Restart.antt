-- ===== src/Library/Restart.antt =====
-- A server of lib/rbkit/server.rb that is stopped and started again, as an instance and through
-- lib/rbkit.rb.
use rbkit.Prelude.{
  ℕ, pos, ◌<◌, ◌≤◌, ◌≡◌, refl, ◌∙◌, Bool, true, false, ◌&&◌, ◌||◌, inl, inr, ◌⊎◌, none, List, ascii,
  leb, ◌==◌, ok, ok-bind, if_true, arith,
}
use rbkit.Event.{CString}
use rbkit.Allocation.{Info}
use rbkit.Allocation.Table.{StTable}
use rbkit.Allocation.Strings.{Shared}
use rbkit.Msgpack.{Msgpack}
use rbkit.Sampling.Signals.{Posix}
use rbkit.Tracing.Binding.{serves}
use rbkit.Library.State.{Extension, Session}
use rbkit.Library.Names.{symbol}
use rbkit.Library.Timers.{new_timer}
use rbkit.Library.Methods.{StartOptions, validate_port_range, initialize, start, stop}
use rbkit.Library.Dispatch.{LoopRound, dispatch_round}
use rbkit.Library.Api.{nil, server, no_options, server_or_new, start_server, stop_server}
use rbkit.Library.Life.{Live, lived, replaced, stop_called}
use rbkit.Library.Invariant.{stop-Live}
use rbkit.Library.Configure.{CanSample, clock_for, interval_for, StartedServer}
use rbkit.Tracing.Sockets.{Closable}
use rbkit.Library.Starting.{bindable, start-Live}

module _ ⦃m : Msgpack⦄ ⦃os : Posix⦄ ⦃strings : StTable CString Shared⦄
    ⦃objects : StTable ℕ Info⦄ where
  -- A server that runs after any calls, neither of whose socket pointers is that of a socket closed
  -- before, is stopped and, if its ports are below 10000 and can be bound, and the clock to profile
  -- with is a symbol and the interval fits an int, started again: the first call returns true, the
  -- second the server, written as true, and the server runs, but its dispatch loop ends in the first round, before it polls for a request,
  -- since `start` does not reset the flag.
  pub stop-start-dispatch_round :
      (s : Session) (zmq_bind : List ℕ → Bool) (o : StartOptions)
      → Live s
      → s.server_running ≡ true
      → Closable s.extension.system.sockets
      → s.pub_port < 10000
      → s.request_port < 10000
      → serves zmq_bind s.pub_port && serves zmq_bind s.request_port ≡ true
      → (o.enable_cpu_profiling ≡ true → CanSample (clock_for o s) (interval_for o s))
      → (s₁ : Session) × (s₂ : Session) × (stop s ≡ ok (true, s₁))
        × (start zmq_bind o s₁ ≡ ok (true, s₂))
        × (s₂.server_running ≡ true)
        × ((w : LoopRound) → dispatch_round w s₂ ≡ ok none)
  unfolding dispatch_round
  stop-start-dispatch_round s zmq_bind o live on c small small' binds right =
      let (s₁, q, ends) = stop-Live s live on c in
      let k = ends.same_settings in
      let live₁ : Live s₁ = lived live (stop_called true q) in
      let binds₁ : bindable zmq_bind o s₁ ≡ true =
        rw (k.same_pub_port, k.same_request_port) binds in
      let right₁ : o.enable_cpu_profiling ≡ true → CanSample (clock_for o s₁) (interval_for o s₁) =
        rw (k.same_clock, k.same_interval) right in
      let (s₂, q', started) =
        (start-Live zmq_bind o s₁ live₁ ends.not_running (omega (arith, k.same_pub_port))
            (omega (arith, k.same_request_port))).3
          binds₁ right₁ in
      (s₁, s₂, q, q', started.running, λ w. if_true _ _ (started.same_end ∙ ends.ended))

  -- A port that the server takes and that its endpoint has room for.
  abbrev pub IsPort : ℕ → Type 0
  IsPort p = (p ≡ 0) ⊎ ((1024 ≤ p) × (p < 10000))

  validate_port_range-IsPort : (p : ℕ) → IsPort p → validate_port_range (pos p) ≡ ok p
  unfolding validate_port_range
  validate_port_range-IsPort p h = if_true _ _ (in_range p h)
    where
      in_range : (p : ℕ) → IsPort p → ((p == 0) || (leb 1024 p && leb p 65000)) ≡ true
      in_range p (inl e) = ground (arith, e)
      in_range p (inr (low, high)) = ground (arith, low, high)

  port_small : (p : ℕ) → IsPort p → p < 10000
  port_small p (inl e) = omega arith
  port_small p (inr h) = h.1

  -- Through the functions of the module, a server that runs after any calls, neither of whose socket
  -- pointers is that of a socket closed before, is stopped, with true, and is let go; with ports that
  -- are 0 or from 1024 to 9999 and can be bound, a new one is started in its place and returned,
  -- which is written as true: it runs with nothing switched on, a new list of messages, and
  -- a dispatch loop that goes on. Stopping when there is no server is false and changes nothing.
  pub stop_server-start_server :
      (s : Session) (zmq_bind : List ℕ → Bool) (pub_port request_port now : ℕ)
      → Live s
      → s.server_running ≡ true
      → Closable s.extension.system.sockets
      → IsPort pub_port
      → IsPort request_port
      → serves zmq_bind pub_port && serves zmq_bind request_port ≡ true
      → (x : Extension) × (fresh : Session) × (s' : Session) × (stop_server (server s)
          ≡ ok (true, nil x))
        × (stop_server (nil x) ≡ ok (false, nil x))
        × (start_server zmq_bind (pos pub_port) (pos request_port) now (nil x)
            ≡ ok (true, server s'))
        × (initialize (pos pub_port) (pos request_port) now x ≡ ok fresh)
        × StartedServer no_options fresh s'
        × (s'.stop_profiler_thread ≡ false)
  unfolding stop_server start_server server_or_new initialize
  stop_server-start_server s zmq_bind pub_port request_port now live on c p r binds =
      let (s₁, q, ends) = stop-Live s live on c in
      let x = s₁.extension in
      let fresh : Session = record {
        pub_port = pub_port;
        request_port = request_port;
        stop_profiler_thread = false;
        server_running = false;
        enable_gc_stats = false;
        clock_type = symbol (ascii "cpu");
        cpu_profiling_mode = symbol (ascii "sampling");
        cpu_sampling_interval_usec = pos 1000;
        has_publish_callback = false;
        has_respond_callback = false;
        gc_stats_timer = new_timer 5 now;
        message_dispatch_timer = new_timer 1 now;
        extension = x;
      } in
      let e : initialize (pos pub_port) (pos request_port) now x ≡ ok fresh =
        ok-bind (validate_port_range (pos pub_port)) _ pub_port
          (validate_port_range-IsPort pub_port p)
        ∙ ok-bind (validate_port_range (pos request_port)) _ request_port
            (validate_port_range-IsPort request_port r) in
      let live' : Live fresh = replaced (pos pub_port) (pos request_port) now live q e in
      let (s', q', started) =
        (start-Live zmq_bind no_options fresh live' refl (port_small pub_port p)
            (port_small request_port r)).3
          binds (λ no. cc) in
      (
        x,
        fresh,
        s',
        ok-bind (stop s) _ (true, s₁) q,
        refl,
        ok-bind (initialize (pos pub_port) (pos request_port) now x) _ fresh e
            ∙ ok-bind (start zmq_bind no_options fresh) _ (true, s') q',
        e,
        started,
        started.same_end,
      )
