-- ===== src/Tracing/Sockets.antt =====
-- The sockets that start_stat_server of ext/rbkit_server.c binds. Whether ZeroMQ can bind an
-- endpoint is an argument.
use rbkit.Prelude.{
  ℕ, ascii, zero, suc, ◌+◌, ◌/◌, ◌%◌, Bool, true, List, [], ◌∷◌, ◌++◌, length, ltb, leb, ◌==◌,
  if◌then◌else◌, Outcome, ok, fault, ◌>>=◌, ◌≡◌, refl, false, ◌||◌, ◌⊎◌, inl, inr, Bool-cases,
}

-- `unbound` is a socket whose zmq_bind failed, and `closed` one that was closed: its pointer stays.
pub data Socket : Type 0 where
  null unbound closed : Socket
  bound : List ℕ → Socket

-- zmq_context, zmq_publisher and zmq_response_socket, and whether items[0] is set
pub record ServerSockets : Type 0 where
  pub has_context : Bool
  pub publisher : Socket
  pub response_socket : Socket
  pub polled : Bool

abbrev pub endpoint_size : ℕ
endpoint_size = 21

-- Decimal digits, for a number below 10 ^ fuel.
unfoldable pub digits : ℕ → ℕ → List ℕ
digits zero n = []
digits (suc fuel) n =
    let front = digits fuel (n / 10) in (if ltb n 10 then [] else front) ++ (48 + n % 10) ∷ []

-- sprintf with "tcp://127.0.0.1:%d"; it writes a terminating zero, and a fault past the array.
unfoldable pub sprintf_endpoint : ℕ → Outcome (List ℕ)
unfolding digits
sprintf_endpoint port =
    let text = ascii "tcp://127.0.0.1:" ++ digits 10 port in
    if leb (length text + 1) endpoint_size then ok text else fault

module _ (zmq_bind : List ℕ → Bool) where
  unfoldable pub bind_publisher : ℕ → ServerSockets → Outcome (Bool × ServerSockets)
  unfolding sprintf_endpoint
  bind_publisher port k = if port == 0 then ok (true, k) else (do
    endpoint ← sprintf_endpoint port
    let socket = if zmq_bind endpoint then bound endpoint else unbound
    ok (zmq_bind endpoint, record k { publisher = socket }))

  unfoldable pub bind_responder : ℕ → ServerSockets → Outcome (Bool × ServerSockets)
  unfolding sprintf_endpoint
  bind_responder port k = if port == 0 then ok (true, k) else (do
    endpoint ← sprintf_endpoint port
    let socket = if zmq_bind endpoint then bound endpoint else unbound
    ok (
      zmq_bind endpoint,
      record k { response_socket = socket; polled = if zmq_bind endpoint then true else k.polled },
    ))

-- zmq_close: NULL is refused with an error, and the pointer of a socket that was closed is a bad
-- pointer.
unfoldable pub zmq_close : Socket → Outcome Socket
zmq_close null = ok null
zmq_close closed = fault
zmq_close _ = ok closed

-- The pointers are not reset.
unfoldable pub close_sockets : ServerSockets → Outcome ServerSockets
unfolding zmq_close
close_sockets k = do
  publisher ← zmq_close k.publisher
  response_socket ← zmq_close k.response_socket
  ok (record k { publisher = publisher; response_socket = response_socket })

abbrev pub is_closed : Socket → Bool
is_closed closed = true
is_closed _ = false

-- Neither pointer is that of a socket that was closed.
abbrev pub Closable : ServerSockets → Type 0
Closable k = (is_closed k.publisher ≡ false) × (is_closed k.response_socket ≡ false)

-- A pointer that is NULL stays so, and any other is that of a closed socket.
abbrev pub after_close : Socket → Socket
after_close null = null
after_close _ = closed

abbrev pub closed_sockets : ServerSockets → ServerSockets
closed_sockets k = record k {
  publisher = after_close k.publisher;
  response_socket = after_close k.response_socket;
}

zmq_close-ok : (x : Socket) → is_closed x ≡ false → zmq_close x ≡ ok (after_close x)
unfolding zmq_close
zmq_close-ok null e = refl
zmq_close-ok unbound e = refl
zmq_close-ok closed e = cc e
zmq_close-ok (bound endpoint) e = refl

zmq_close-fault : (x : Socket) → is_closed x ≡ true → zmq_close x ≡ fault
unfolding zmq_close
zmq_close-fault null e = cc e
zmq_close-fault unbound e = cc e
zmq_close-fault closed e = refl
zmq_close-fault (bound endpoint) e = cc e

pub close_sockets-ok : (k : ServerSockets) → Closable k → close_sockets k ≡ ok (closed_sockets k)
unfolding close_sockets
close_sockets-ok k (p, r) = rw (zmq_close-ok k.publisher p, zmq_close-ok k.response_socket r) refl

pub close_sockets-fault :
    (k : ServerSockets)
    → (is_closed k.publisher || is_closed k.response_socket) ≡ true
    → close_sockets k ≡ fault
unfolding close_sockets
close_sockets-fault k e = elim (Bool-cases (is_closed k.publisher)) [
  | inl p ↦ rw (zmq_close-fault k.publisher p) refl
  | inr n ↦
      let r : is_closed k.response_socket ≡ true = rw n at e in
      rw (zmq_close-ok k.publisher n, zmq_close-fault k.response_socket r) refl
]

pub Closable-cases :
    (k : ServerSockets)
    → Closable k ⊎ ((is_closed k.publisher || is_closed k.response_socket) ≡ true)
Closable-cases k = elim (Bool-cases (is_closed k.publisher)) [
  | inl p ↦ inr (rw p refl)
  | inr n ↦ elim (Bool-cases (is_closed k.response_socket)) [
    | inl r ↦ inr (rw (n, r) refl)
    | inr n' ↦ inl (n, n')
  ]
]
