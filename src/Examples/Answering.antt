-- ===== src/Examples/Answering.antt =====
-- A handshake, the messages that the specs take, and a batch that fills up.
use rbkit.Prelude.{ascii, ℕ, ◌≡◌, refl, true, false, some, List, [], ◌∷◌, ◌++◌, ok, ◌>>=◌, arith}
use Prim.Native.Nat.{zero, suc}
use rbkit.Event.{RubyValue}
use rbkit.Event.Codes
use rbkit.Aggregator.{unset}
use rbkit.Aggregator.Refine.{message_list_new-Represents}
use rbkit.Msgpack.Reader.{read}
use rbkit.Msgpack.Wire.{message_pack}
use rbkit.Packer.Frames.{hash_frame}
use rbkit.Packer.Messages.{message_depth}
use rbkit.Server.{Server, trigger_publish_callback}
use rbkit.Server.Requests.{ProcessStatus, send_handshake_response, get_queued_messages}
use rbkit.Server.Responses.{
  PackableStatus, IsStatus, answered_with, send_handshake_response-reads, published,
  get_queued_messages-trigger_publish_callback,
}
use rbkit.Server.Rounds.{send_all, AllQueued, send_all-AllQueued}
use rbkit.Tracing.{Logger}
use rbkit.Examples.Sending.{midnight, new_server}

abbrev tracing_logger : Logger
tracing_logger = record { enabled = true; sampling_profiler_enabled = false }

abbrev pub ruby_process : ProcessStatus
ruby_process = record {
  rbkit_version = ascii "0.2.0";
  process_name = ascii "app.rb";
  pwd = ascii "/srv";
  pid = 4242;
  clock_type = ascii "cpu";
  cpu_profiling_mode = ascii "sampling";
}

pub ruby_process_packable : PackableStatus ruby_process
ruby_process_packable = record {
  version_fits = (omega arith, refl);
  name_fits = (omega arith, refl);
  pwd_fits = (omega arith, refl);
  pid_fits = omega arith;
  clock_fits = (omega arith, refl);
  mode_fits = (omega arith, refl);
}

send_handshake_response-reads_example :
    (buffer : List ℕ) × (pairs : List
      (RubyValue message_pack.Double × RubyValue message_pack.Double))
    × (send_handshake_response midnight (some tracing_logger) ruby_process new_server
        ≡ ok (answered_with buffer new_server))
    × IsStatus (some tracing_logger) ruby_process pairs
    × ((rest : List ℕ)
        → read message_depth (buffer ++ rest)
          ≡ some (hash_frame midnight Codes.handshake pairs, rest))
unfolding message_pack
send_handshake_response-reads_example =
    send_handshake_response-reads midnight (some tracing_logger) ruby_process new_server
      ruby_process_packable

get_queued_messages-trigger_publish_callback_example :
    (get_queued_messages midnight new_server >>= published)
    ≡ trigger_publish_callback midnight new_server
get_queued_messages-trigger_publish_callback_example =
    get_queued_messages-trigger_publish_callback midnight new_server

-- 400 messages of one byte.
abbrev nils : ℕ → List (List ℕ)
nils zero = []
nils (suc n) = (0xc0 ∷ []) ∷ nils n

abbrev batch : List (List ℕ)
batch = nils 400

send_all-AllQueued_example :
    (s' : Server) × (send_all batch new_server ≡ ok s') × AllQueued new_server [] batch s'
send_all-AllQueued_example =
    send_all-AllQueued batch new_server [] (message_list_new-Represents unset) (omega arith)
      (omega arith)
