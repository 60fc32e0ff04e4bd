-- ===== src/Tracing/Binding.antt =====
-- What start_stat_server comes to, for each result of the two bindings.
use rbkit.Prelude.{
  ℕ, ◌≤◌, ◌<◌, ◌≡◌, refl, ◌⊎◌, inl, inr, Bool, true, false, Bool-cases, ◌&&◌, not, ◌||◌, Option,
  none, some, List, ◌∷◌, ◌==◌, if◌then◌else◌, ok, fault, raised, range_error, fix2nat-ok,
  fix2nat-raised, ltb, ◌^◌, ◌∙◌, arith,
}
use rbkit.Event.{CString}
use rbkit.Allocation.{Info, Allocations, new_tables}
use rbkit.Allocation.Table.{StTable}
use rbkit.Allocation.Strings.{Shared}
use rbkit.Sampling.Signals.{Posix}
use rbkit.Tracing.Sockets.{Socket, bound, unbound, ServerSockets, bind_publisher, bind_responder}
use rbkit.Tracing.Endpoints.{endpoint, sprintf_endpoint-fits, sprintf_endpoint-fault}
use rbkit.Aggregator.{message_list_new}
use rbkit.Tracing.{
  Logger, Tracepoints, System, all, create_gc_hooks, get_trace_logger, start_logger, open_server,
  start_stat_server,
}
use rbkit.Tracing.Returns.{after_binding}

-- What a client can connect to: nothing is asked for, or the endpoint is bound.
abbrev pub serves : (List ℕ → Bool) → ℕ → Bool
serves zmq_bind port = port == 0 || zmq_bind (endpoint port)

-- The socket of a port after it is opened, where `old` was the socket before.
abbrev pub socket_after : (List ℕ → Bool) → ℕ → Socket → Socket
socket_after zmq_bind port old =
    if port == 0 then old else if zmq_bind (endpoint port) then bound (endpoint port) else unbound

abbrev published_sockets : (List ℕ → Bool) → ℕ → ServerSockets → ServerSockets
published_sockets zmq_bind port k = record k { publisher = socket_after zmq_bind port k.publisher }

abbrev answered_sockets : (List ℕ → Bool) → ℕ → ServerSockets → ServerSockets
answered_sockets zmq_bind port k = record k {
  response_socket = socket_after zmq_bind port k.response_socket;
  polled = if not (port == 0) && zmq_bind (endpoint port) then true else k.polled;
}

module _ (zmq_bind : List ℕ → Bool) (port : ℕ) (k : ServerSockets) where
  bind_publisher_lem :
      port < 10000
      → bind_publisher zmq_bind port k
        ≡ ok (serves zmq_bind port, published_sockets zmq_bind port k)
  unfolding bind_publisher
  bind_publisher_lem small = elim (Bool-cases (port == 0)) [
    | inl e ↦ rw e refl
    | inr n ↦ rw (n, sprintf_endpoint-fits port small) refl
  ]

  bind_responder_lem :
      port < 10000
      → bind_responder zmq_bind port k ≡ ok (serves zmq_bind port, answered_sockets zmq_bind port k)
  unfolding bind_responder
  bind_responder_lem small = elim (Bool-cases (port == 0)) [
    | inl e ↦ rw e refl
    | inr n ↦ rw (n, sprintf_endpoint-fits port small) refl
  ]

  bind_publisher-fault : 10000 ≤ port → bind_publisher zmq_bind port k ≡ fault
  unfolding bind_publisher
  bind_publisher-fault large =
      let n : (port == 0) ≡ false = ground (arith, large) in
      rw (n, sprintf_endpoint-fault port large) refl

  bind_responder-fault : 10000 ≤ port → bind_responder zmq_bind port k ≡ fault
  unfolding bind_responder
  bind_responder-fault large =
      let n : (port == 0) ≡ false = ground (arith, large) in
      rw (n, sprintf_endpoint-fault port large) refl

-- The logger of a server that was started: a new one has both flags off.
abbrev pub kept_or_new : Option Logger → Logger
kept_or_new none = record { enabled = false; sampling_profiler_enabled = false }
kept_or_new (some l) = l

module _ ⦃os : Posix⦄ ⦃strings : StTable CString Shared⦄ ⦃objects : StTable ℕ Info⦄
    (zmq_bind : List ℕ → Bool) (pub_port request_port : ℕ) (s : System) where
  abbrev pub kept_or_new_tables : Option Logger → Allocations → Allocations
  kept_or_new_tables none a = new_tables a.str_table.heap
  kept_or_new_tables (some l) a = a

  -- The sockets that are left: the second is not opened once the first could not be bound.
  abbrev pub sockets_after : ServerSockets
  sockets_after =
      let k = published_sockets zmq_bind pub_port (record s.sockets { has_context = true }) in
      if serves zmq_bind pub_port then answered_sockets zmq_bind request_port k else k

  open_server_runs :
      pub_port < 10000
      → request_port < 10000
      → let started = serves zmq_bind pub_port && serves zmq_bind request_port in
        open_server zmq_bind pub_port request_port s
        ≡ ok (started, after_binding started sockets_after s)
  unfolding open_server
  open_server_runs small small' = elim (Bool-cases (serves zmq_bind pub_port)) [
    | inl e ↦ elim (Bool-cases (serves zmq_bind request_port)) [
      | inl e' ↦
          rw
            (
              bind_publisher_lem zmq_bind pub_port (record s.sockets { has_context = true }) small,
              e,
              bind_responder_lem zmq_bind request_port
                  (published_sockets zmq_bind pub_port (record s.sockets { has_context = true }))
                  small',
              e',
            )
            refl
      | inr n' ↦
          rw
            (
              bind_publisher_lem zmq_bind pub_port (record s.sockets { has_context = true }) small,
              e,
              bind_responder_lem zmq_bind request_port
                  (published_sockets zmq_bind pub_port (record s.sockets { has_context = true }))
                  small',
              n',
            )
            refl
    ]
    | inr n ↦
        rw (bind_publisher_lem zmq_bind pub_port (record s.sockets { has_context = true }) small, n)
          refl
  ]

  converted :
      ltb pub_port (2 ^ 31) ≡ true
      → ltb request_port (2 ^ 31) ≡ true
      → start_stat_server zmq_bind pub_port request_port s
        ≡ open_server zmq_bind pub_port request_port s
  unfolding start_stat_server
  converted h h' = rw (fix2nat-ok pub_port h, fix2nat-ok request_port h') refl

  start_stat_server_runs :
      pub_port < 10000
      → request_port < 10000
      → let started = serves zmq_bind pub_port && serves zmq_bind request_port in
        start_stat_server zmq_bind pub_port request_port s
        ≡ ok (started, after_binding started sockets_after s)
  start_stat_server_runs small small' =
      converted (ground (arith, small)) (ground (arith, small')) ∙ open_server_runs small small'

  -- The tracepoints that the new ones take the place of.
  abbrev pub object_traces : Tracepoints
  object_traces = record (all false) {
    newobj_trace = s.tracepoints.newobj_trace;
    freeobj_trace = s.tracepoints.freeobj_trace;
  }

  abbrev pub collector_traces : Tracepoints
  collector_traces = record s.tracepoints { newobj_trace = false; freeobj_trace = false }

  -- What a call that returns `started` has done.
  pub record Served (started : Bool) (s' : System) : Type 0 where
    pub sockets_lem : s'.sockets ≡ sockets_after
    pub tracepoints_lem : s'.tracepoints ≡ (if started then all false else s.tracepoints)
    pub logger_lem : s'.logger ≡ (if started then some (kept_or_new s.logger) else s.logger)
    pub messages_lem : s'.messages ≡ (if started then message_list_new s.messages else s.messages)
    pub allocations_lem :
        s'.allocations
        ≡ (if started then kept_or_new_tables s.logger s.allocations else s.allocations)
    pub earlier_lem :
        s'.earlier ≡ (if started then collector_traces ∷ object_traces ∷ s.earlier else s.earlier)
    pub same_sampler : s'.sampler ≡ s.sampler
    pub same_process : s'.process ≡ s.process

  started-Served :
      (o : Option Logger) → s.logger ≡ o → Served true (after_binding true sockets_after s)
  unfolding start_logger get_trace_logger create_gc_hooks
  started-Served none e = record {
    sockets_lem = rw e refl;
    tracepoints_lem = refl;
    logger_lem = rw e refl;
    messages_lem = rw e refl;
    allocations_lem = rw e refl;
    earlier_lem = rw e refl;
    same_sampler = rw e refl;
    same_process = rw e refl;
  }
  started-Served (some l) e = record {
    sockets_lem = rw e refl;
    tracepoints_lem = refl;
    logger_lem = rw e refl;
    messages_lem = rw e refl;
    allocations_lem = rw e refl;
    earlier_lem = rw e refl;
    same_sampler = rw e refl;
    same_process = rw e refl;
  }

  after_binding-Served : (started : Bool) → Served started (after_binding started sockets_after s)
  after_binding-Served true = started-Served s.logger refl
  after_binding-Served false = record {
    sockets_lem = refl;
    tracepoints_lem = refl;
    logger_lem = refl;
    messages_lem = refl;
    allocations_lem = refl;
    earlier_lem = refl;
    same_sampler = refl;
    same_process = refl;
  }

  -- With ports below 10000, the call returns: true exactly if each port that is not 0 can be bound,
  -- and then the list of messages is new, none of the new tracepoints runs, those they take the
  -- place of are left as they were, running or not, and there is a logger, with both flags off and
  -- new tables if there was none, and the old one if there was one. If a port cannot be bound,
  -- nothing but the sockets has changed, and after the first the second is not tried.
  pub start_stat_server-Served :
      pub_port < 10000
      → request_port < 10000
      → let started = serves zmq_bind pub_port && serves zmq_bind request_port in
        (s' : System) × (start_stat_server zmq_bind pub_port request_port s ≡ ok (started, s'))
        × Served started s'
  start_stat_server-Served small small' =
      let started = serves zmq_bind pub_port && serves zmq_bind request_port in
      (
        after_binding started sockets_after s,
        start_stat_server_runs small small',
        after_binding-Served started,
      )

  open_server-fault :
      (10000 ≤ pub_port)
        ⊎ ((pub_port < 10000) × (serves zmq_bind pub_port ≡ true) × (10000 ≤ request_port))
      → open_server zmq_bind pub_port request_port s ≡ fault
  unfolding open_server
  open_server-fault (inl large) =
      rw (bind_publisher-fault zmq_bind pub_port (record s.sockets { has_context = true }) large)
        refl
  open_server-fault (inr (small, e, large)) =
      let k : ServerSockets = record s.sockets { has_context = true } in
      rw
        (
          bind_publisher_lem zmq_bind pub_port k small,
          e,
          bind_responder-fault zmq_bind request_port (published_sockets zmq_bind pub_port k) large,
        )
        refl

  pub start_stat_server-raised :
      (2 ^ 31 ≤ pub_port) ⊎ (2 ^ 31 ≤ request_port)
      → start_stat_server zmq_bind pub_port request_port s ≡ raised range_error
  unfolding start_stat_server
  start_stat_server-raised (inl large) =
      let e : ltb pub_port (2 ^ 31) ≡ false = ground (arith, large) in
      rw (fix2nat-raised pub_port e) refl
  start_stat_server-raised (inr large) =
      let e' : ltb request_port (2 ^ 31) ≡ false = ground (arith, large) in
      elim (Bool-cases (ltb pub_port (2 ^ 31))) [
        | inl e ↦ rw (fix2nat-ok pub_port e, fix2nat-raised request_port e') refl
        | inr e ↦ rw (fix2nat-raised pub_port e) refl
      ]

  -- Of two ports that fit an int, one of five digits or more is written past the 21 bytes of its
  -- endpoint, a fault: as the first port in any case, and as the second if the first is 0 or is
  -- below 10000 and can be bound.
  pub start_stat_server-fault :
      pub_port < 2 ^ 31
      → request_port < 2 ^ 31
      → (10000 ≤ pub_port)
        ⊎ ((pub_port < 10000) × (serves zmq_bind pub_port ≡ true) × (10000 ≤ request_port))
      → start_stat_server zmq_bind pub_port request_port s ≡ fault
  start_stat_server-fault int int' h =
      converted (ground (arith, int)) (ground (arith, int')) ∙ open_server-fault h
