-- ===== src/Server/Responses.antt =====
-- What a client gets in answer to a handshake, and what the specs read in place of the socket.
use rbkit.Prelude.{
  ℕ, ◌^◌, ◌<◌, ◌≡◌, refl, inl, inr, Bool, false, Bool-cases, Option, none, some, List, [], ◌++◌,
  length, ltb, All, if◌then◌else◌, Outcome, ok, raised, fault, out_of_fuel, ◌>>=◌, arith, ascii,
  pos, ◌∷◌,
}
use rbkit.Time.{Timeval}
use rbkit.Event.{RubyValue, fixnum, float, other}
use rbkit.Event.Codes
use rbkit.Event.Codes.{code, rbkit_protocol_version}
use rbkit.Allocation.Tables.{same_bytes}
use rbkit.Aggregator.{message_list_clear}
use rbkit.Msgpack.{Msgpack}
use rbkit.Msgpack.Reader.{read}
use rbkit.Packer.{PackerState, contents}
use rbkit.Packer.Hash.{has_zero}
use rbkit.Packer.Frames.{hash_frame}
use rbkit.Packer.Messages.{message_depth}
use rbkit.Packer.HashFrames.{PackablePair, pack_event-hash}
use rbkit.Collection.{get_event_collection_message}
use rbkit.Server.{Server, trigger_publish_callback}
use rbkit.Server.Outlets.{give, publish_message, respond_with_message}
use rbkit.Server.Publish.{not_empty}
use rbkit.Server.Requests.{
  flag, ProcessStatus, rbkit_status_as_hash, send_handshake_response, get_queued_messages,
}
use rbkit.Tracing.{Logger}
use rbkit.Tracing.Steps.{enabled_flag}

-- A string of the status that can be packed.
abbrev pub IsShort : List ℕ → Type 0
IsShort s = (length s < 2 ^ 31) × (has_zero s ≡ false)

pub record PackableStatus (p : ProcessStatus) : Type 0 where
  pub version_fits : IsShort p.rbkit_version
  pub name_fits : IsShort p.process_name
  pub pwd_fits : IsShort p.pwd
  pub pid_fits : p.pid < 2 ^ 31
  pub clock_fits : IsShort p.clock_type
  pub mode_fits : IsShort p.cpu_profiling_mode

-- Whether the logger says that sampling is on.
abbrev pub sampling_on : Option Logger → Bool
sampling_on none = false
sampling_on (some l) = l.sampling_profiler_enabled

-- The value of a key of the status.
abbrev pub status_value :
    {D : Type 0} → List ℕ → List (RubyValue D × RubyValue D) → Option (RubyValue D)
status_value key [] = none
status_value key ((other k, v) ∷ ps) = if same_bytes key k then some v else status_value key ps
status_value key ((fixnum z, v) ∷ ps) = status_value key ps
status_value key ((float x, v) ∷ ps) = status_value key ps

abbrev pub number_of : {D : Type 0} → Bool → RubyValue D
number_of b = fixnum (pos (if b then 1 else 0))

-- The status that docs/protocol.md describes: the nine keys with their values, the two flags as 0 or
-- 1.
pub record IsStatus {D : Type 0} (logger : Option Logger) (p : ProcessStatus)
    (pairs : List (RubyValue D × RubyValue D)) : Type 0 where
  pub nine : length pairs ≡ 9
  pub version : status_value (ascii "rbkit_server_version") pairs ≡ some (other p.rbkit_version)
  pub protocol :
      status_value (ascii "rbkit_protocol_version") pairs
      ≡ some (other (ascii rbkit_protocol_version))
  pub name : status_value (ascii "process_name") pairs ≡ some (other p.process_name)
  pub pwd : status_value (ascii "pwd") pairs ≡ some (other p.pwd)
  pub pid : status_value (ascii "pid") pairs ≡ some (fixnum (pos p.pid))
  pub tracing :
      status_value (ascii "object_trace_enabled") pairs ≡ some (number_of (enabled_flag logger))
  pub sampling :
      status_value (ascii "cpu_profiling_enabled") pairs ≡ some (number_of (sampling_on logger))
  pub clock : status_value (ascii "clock_type") pairs ≡ some (other p.clock_type)
  pub mode : status_value (ascii "cpu_profiling_mode") pairs ≡ some (other p.cpu_profiling_mode)

rbkit_status_as_hash-IsStatus :
    {D : Type 0} (logger : Option Logger) (p : ProcessStatus)
    → IsStatus {D = D} logger p (rbkit_status_as_hash logger p)
unfolding rbkit_status_as_hash
rbkit_status_as_hash-IsStatus none p = record {
  nine = refl;
  version = refl;
  protocol = refl;
  name = refl;
  pwd = refl;
  pid = refl;
  tracing = refl;
  sampling = refl;
  clock = refl;
  mode = refl;
}
rbkit_status_as_hash-IsStatus (some l) p = record {
  nine = refl;
  version = refl;
  protocol = refl;
  name = refl;
  pwd = refl;
  pid = refl;
  tracing = refl;
  sampling = refl;
  clock = refl;
  mode = refl;
}

-- The server after one message was given to the response socket and the callback that there are.
abbrev pub answered_with : List ℕ → Server → Server
answered_with buffer s = record s {
  channels = record s.channels {
    responded =
        if s.channels.has_response_socket
        then s.channels.responded ++ buffer ∷ []
        else s.channels.responded;
    respond_called =
        if s.channels.has_respond_callback
        then s.channels.respond_called ++ buffer ∷ []
        else s.channels.respond_called;
  };
}

flag_small : (logger : Option Logger) (f : Logger → Bool) → flag logger f < 2 ^ 63
flag_small none f = omega arith
flag_small (some l) f = ground arith

module _ ⦃m : Msgpack⦄ where
  open m use {Double}

  status_packable :
      (logger : Option Logger) (p : ProcessStatus)
      → PackableStatus p
      → All (PackablePair {D = Double}) (rbkit_status_as_hash logger p)
  unfolding rbkit_status_as_hash
  status_packable logger p h = (
    ((omega arith, refl), h.version_fits),
    (
      ((omega arith, refl), (omega arith, refl)),
      (
        ((omega arith, refl), h.name_fits),
        (
          ((omega arith, refl), h.pwd_fits),
          (
            ((omega arith, refl), omega (arith, h.pid_fits)),
            (
              ((omega arith, refl), flag_small logger (λ l. l.enabled)),
              (
                ((omega arith, refl), flag_small logger (λ l. l.sampling_profiler_enabled)),
                (((omega arith, refl), h.clock_fits), (((omega arith, refl), h.mode_fits), tt)),
              ),
            ),
          ),
        ),
      ),
    ),
  )

  few_pairs :
      (logger : Option Logger) (p : ProcessStatus)
      → length (rbkit_status_as_hash {D = Double} logger p) < 2 ^ 31
  unfolding rbkit_status_as_hash
  few_pairs logger p = omega arith

  -- The handshake of a process whose status can be packed is answered with one message, given to
  -- the response socket and the callback that there are: a client reads it as the handshake frame
  -- of the nine keys of the status, among them whether the logger traces and whether it samples, as
  -- 0 or 1. Nothing else of the server changes.
  pub send_handshake_response-reads :
      (tv : Timeval) (logger : Option Logger) (p : ProcessStatus) (s : Server)
      → PackableStatus p
      → (buffer : List ℕ) × (pairs : List (RubyValue Double × RubyValue Double))
        × (send_handshake_response tv logger p s ≡ ok (answered_with buffer s))
        × IsStatus logger p pairs
        × ((rest : List ℕ)
            → read message_depth (buffer ++ rest)
              ≡ some (hash_frame tv Codes.handshake pairs, rest))
  unfolding send_handshake_response respond_with_message give
  send_handshake_response-reads tv logger p s h =
      let pairs : List (RubyValue Double × RubyValue Double) = rbkit_status_as_hash logger p in
      let (q, packs, reads, same) =
        pack_event-hash tv Codes.handshake pairs s.packer tt (status_packable logger p h)
          (few_pairs logger p) in
      (
        contents q,
        pairs,
        rw (packs, not_empty 4 (contents q) _ reads, same) refl,
        rbkit_status_as_hash-IsStatus logger p,
        reads,
      )

  -- What the specs make of the messages they took: the job's publication.
  abbrev pub published : Option (List ℕ) × Server → Outcome Server
  published (none, s) = ok (record s { messages = message_list_clear s.messages })
  published (some message, s) = ok (record s { channels = publish_message message s.channels })

  -- The two ends of the job, for what the packing came to.
  same_publication :
      (s : Server) (r : Outcome (List ℕ × PackerState))
      → ((do
        (sbuf, packer') ← r
        let s' : Server = record s { packer = packer' }
        ok (
            if ltb 0 (length sbuf)
            then (some sbuf, record s' { messages = message_list_clear s.messages })
            else (none, s')))
          >>= published)
        ≡ (do
          (sbuf, packer') ← r
          ok (record s {
            packer = packer';
            channels = if ltb 0 (length sbuf) then publish_message sbuf s.channels else s.channels;
            messages = message_list_clear s.messages;
          }))
  same_publication s (ok (sbuf, packer')) = elim (Bool-cases (ltb 0 (length sbuf))) [
    | inl e ↦ rw e refl
    | inr e ↦ rw e refl
  ]
  same_publication s (raised e) = refl
  same_publication s fault = refl
  same_publication s out_of_fuel = refl

  -- get_queued_messages takes the very message that the job would publish, and leaves the queue and
  -- the packer as the job does, except that it does not clear the list when there is no message;
  -- it fails where the job fails.
  pub get_queued_messages-trigger_publish_callback :
      (tv : Timeval) (s : Server)
      → (get_queued_messages tv s >>= published) ≡ trigger_publish_callback tv s
  unfolding get_queued_messages trigger_publish_callback
  get_queued_messages-trigger_publish_callback tv s =
      same_publication s (get_event_collection_message tv [] s.messages s.packer)
