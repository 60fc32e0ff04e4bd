-- ===== src/Server/Requests.antt =====
-- What ext/rbkit_server.c answers a client, and get_queued_messages of ext/rbkit_test_helper.c.
use rbkit.Prelude.{
  ℕ, ascii, pos, Bool, true, false, Option, none, some, List, [], ◌∷◌, length, ltb, if◌then◌else◌,
  Outcome, ok, ◌>>=◌,
}
use rbkit.Time.{Timeval}
use rbkit.Event.{RubyValue, fixnum, other, hash, new_rbkit_hash_event}
use rbkit.Event.Codes.{code, handshake, rbkit_protocol_version}
use rbkit.Aggregator.{message_list_clear}
use rbkit.Msgpack.{Msgpack}
use rbkit.Packer.{contents, pack_event}
use rbkit.Collection.{get_event_collection_message}
use rbkit.Server.{Server}
use rbkit.Server.Outlets.{respond_with_message}
use rbkit.Tracing.{Logger}

-- What Ruby says of the process, and two instance variables of the server.
pub record ProcessStatus : Type 0 where
  pub rbkit_version : List ℕ
  pub process_name : List ℕ
  pub pwd : List ℕ
  pub pid : ℕ
  pub clock_type : List ℕ
  pub cpu_profiling_mode : List ℕ

abbrev pub flag : Option Logger → (Logger → Bool) → ℕ
flag none f = 0
flag (some l) f = if f l then 1 else 0

unfoldable pub rbkit_status_as_hash :
    {D : Type 0} → Option Logger → ProcessStatus → List (RubyValue D × RubyValue D)
rbkit_status_as_hash logger p =
    (other (ascii "rbkit_server_version"), other p.rbkit_version)
    ∷ (other (ascii "rbkit_protocol_version"), other (ascii rbkit_protocol_version))
    ∷ (other (ascii "process_name"), other p.process_name)
    ∷ (other (ascii "pwd"), other p.pwd)
    ∷ (other (ascii "pid"), fixnum (pos p.pid))
    ∷ (other (ascii "object_trace_enabled"), fixnum (pos (flag logger (λ l. l.enabled))))
    ∷ (
      other (ascii "cpu_profiling_enabled"),
      fixnum (pos (flag logger (λ l. l.sampling_profiler_enabled))),
    )
    ∷ (other (ascii "clock_type"), other p.clock_type)
    ∷ (other (ascii "cpu_profiling_mode"), other p.cpu_profiling_mode)
    ∷ []

unfoldable pub enable_test_mode : Server → Server
enable_test_mode s = record s { test_mode_enabled = true }

unfoldable pub disable_test_mode : Server → Server
disable_test_mode s = record s { test_mode_enabled = false }

module _ ⦃m : Msgpack⦄ where
  unfoldable pub send_handshake_response :
      Timeval → Option Logger → ProcessStatus → Server → Outcome Server
  send_handshake_response tv logger status s = do
    p ←
        pack_event tv
          (hash (new_rbkit_hash_event (code handshake) (rbkit_status_as_hash logger status)))
          s.packer
    let s' : Server = record s { packer = p.state }
    ok (
        if ltb 0 (length (contents p))
        then record s' { channels = respond_with_message (contents p) s.channels }
        else s')

  unfoldable pub get_queued_messages : Timeval → Server → Outcome (Option (List ℕ) × Server)
  get_queued_messages tv s = do
    (sbuf, packer') ← get_event_collection_message tv [] s.messages s.packer
    let s' : Server = record s { packer = packer' }
    ok (
        if ltb 0 (length sbuf)
        then (some sbuf, record s' { messages = message_list_clear s.messages })
        else (none, s'))
