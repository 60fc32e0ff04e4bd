-- ===== src/Server/Outlets.antt =====
-- The ways out of ext/rbkit_server.c: two ZeroMQ sockets and two callbacks in Ruby.
use rbkit.Prelude.{
  ℕ, Bool, Option, none, some, List, [], ◌∷◌, ◌++◌, ◌==◌, if◌then◌else◌, Outcome, ok, fault, ◌>>=◌,
}
use rbkit.Event.{CString}
use rbkit.Allocation.Strings.{c_string}

-- Whether zmq_publisher and zmq_response_socket are not NULL and the instance's callbacks are procs,
-- and what each was given, in order.
pub record Channels : Type 0 where
  pub has_publisher : Bool
  pub has_publish_callback : Bool
  pub has_response_socket : Bool
  pub has_respond_callback : Bool
  pub published : List (List ℕ)
  pub publish_called : List (List ℕ)
  pub responded : List (List ℕ)
  pub respond_called : List (List ℕ)

-- What a channel was given, with one message more if it is there.
unfoldable pub give : Bool → List (List ℕ) → List ℕ → List (List ℕ)
give is_there given buf = if is_there then given ++ buf ∷ [] else given

unfoldable pub publish_message : List ℕ → Channels → Channels
unfolding give
publish_message buf c = record c {
  published = give c.has_publisher c.published buf;
  publish_called = give c.has_publish_callback c.publish_called buf;
}

unfoldable pub respond_with_message : List ℕ → Channels → Channels
unfolding give
respond_with_message buf c = record c {
  responded = give c.has_response_socket c.responded buf;
  respond_called = give c.has_respond_callback c.respond_called buf;
}

-- "ok"
unfoldable pub send_command_ack : Channels → Channels
unfolding respond_with_message
send_command_ack c = respond_with_message (111 ∷ 107 ∷ []) c

-- The message that zmq_msg_recv receives, none where it fails: the assertion then ends the process.
unfoldable pub tracer_string_recv : Option (List ℕ) → Outcome (List ℕ)
tracer_string_recv none = fault
tracer_string_recv (some message) = ok message

-- `revents` is what zmq_poll reports; the C string ends at the first zero byte.
unfoldable pub poll_for_request : ℕ → Option (List ℕ) → Outcome (Option CString)
unfolding tracer_string_recv
poll_for_request revents received =
    if revents == 0
    then ok none
    else (do message ← tracer_string_recv received; ok (some (c_string message)))
