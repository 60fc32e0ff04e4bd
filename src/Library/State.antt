-- ===== src/Library/State.antt =====
-- The state behind lib/rbkit/server.rb: the instance variables of Rbkit::Server, and the statics of
-- the extension that its methods share.
use rbkit.Prelude.{ℕ, ℤ, Bool, true, false, Option, none, some, List, Outcome, ok, ◌>>=◌}
use rbkit.Event.{CString}
use rbkit.Allocation.{Info}
use rbkit.Allocation.Table.{StTable}
use rbkit.Allocation.Strings.{Shared}
use rbkit.Sampling.Signals.{Posix}
use rbkit.Packer.{PackerState}
use rbkit.Server.{Server}
use rbkit.Server.Requests.{ProcessStatus}
use rbkit.Tracing.{System}
use rbkit.Tracing.Sockets.{Socket, null, unbound, closed, bound}
use rbkit.Library.Names.{Name, bytes_of}
use rbkit.Library.Timers.{Timer}

abbrev pub is_set : {A : Type 0} → Option A → Bool
is_set none = false
is_set (some a) = true

-- The pointer of a socket is not NULL.
abbrev pub is_open : Socket → Bool
is_open null = false
is_open unbound = true
is_open closed = true
is_open (bound endpoint) = true

module _ ⦃os : Posix⦄ ⦃strings : StTable CString Shared⦄ ⦃objects : StTable ℕ Info⦄ where
  -- The statics, and what was given to the sockets and the callbacks.
  pub record Extension : Type 0 where
    pub system : System
    pub packer : PackerState
    pub last_correlation_id : ℕ
    pub test_mode_enabled : Bool
    pub registered_jobs : ℕ
    pub published : List (List ℕ)
    pub publish_called : List (List ℕ)
    pub responded : List (List ℕ)
    pub respond_called : List (List ℕ)

  -- The instance variables. Of a callback it is kept whether it is a proc.
  pub record Session : Type 0 where
    pub pub_port : ℕ
    pub request_port : ℕ
    pub stop_profiler_thread : Bool
    pub server_running : Bool
    pub enable_gc_stats : Bool
    pub clock_type : Name
    pub cpu_profiling_mode : Name
    pub cpu_sampling_interval_usec : ℤ
    pub has_publish_callback : Bool
    pub has_respond_callback : Bool
    pub gc_stats_timer : Timer
    pub message_dispatch_timer : Timer
    pub extension : Extension

  -- The part of the state that sending touches, as `Server` has it.
  unfoldable pub server_of : Session → Server
  server_of s =
      let x = s.extension in
      record {
        has_logger = is_set x.system.logger;
        messages = x.system.messages;
        packer = x.packer;
        last_correlation_id = x.last_correlation_id;
        test_mode_enabled = x.test_mode_enabled;
        registered_jobs = x.registered_jobs;
        channels = record {
          has_publisher = is_open x.system.sockets.publisher;
          has_publish_callback = s.has_publish_callback;
          has_response_socket = is_open x.system.sockets.response_socket;
          has_respond_callback = s.has_respond_callback;
          published = x.published;
          publish_called = x.publish_called;
          responded = x.responded;
          respond_called = x.respond_called;
        };
      }

  -- What sending writes of it: no logger, no socket and no callback comes or goes.
  unfoldable pub put_server : Server → Session → Session
  put_server v s = record s {
    extension = record s.extension {
      system = record s.extension.system { messages = v.messages };
      packer = v.packer;
      last_correlation_id = v.last_correlation_id;
      test_mode_enabled = v.test_mode_enabled;
      registered_jobs = v.registered_jobs;
      published = v.channels.published;
      publish_called = v.channels.publish_called;
      responded = v.channels.responded;
      respond_called = v.channels.respond_called;
    };
  }

  abbrev pub put_system : System → Session → Session
  put_system y s = record s { extension = record s.extension { system = y } }

  -- A method of the extension that sends, and one that starts or stops something.
  abbrev pub on_server : (Server → Outcome Server) → Session → Outcome Session
  on_server f s = do v ← f (server_of s); ok (put_server v s)

  abbrev pub on_system : (System → Outcome System) → Session → Outcome Session
  on_system f s = do y ← f s.extension.system; ok (put_system y s)

  -- The status of a handshake, where `p` is what Ruby says of the process.
  abbrev pub status_of : ProcessStatus → Session → ProcessStatus
  status_of p s = record p {
    clock_type = bytes_of s.clock_type;
    cpu_profiling_mode = bytes_of s.cpu_profiling_mode;
  }
