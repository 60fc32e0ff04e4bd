-- ===== src/Library/Views.antt =====
-- What a client asks of a server of lib/rbkit/server.rb, seen from outside: what is switched on,
-- and what the client is answered.
use rbkit.Prelude.{
  ℕ, ◌+◌, ◌^◌, ◌<◌, ◌≤◌, ◌≡◌, Bool, true, false, some, List, ◌++◌, length, flatten, All, ascii, ok,
  in_int, [], ◌∷◌, if◌then◌else◌,
}
use rbkit.Event.{CString, RubyValue}
use rbkit.Event.Codes
use rbkit.Allocation.{Info}
use rbkit.Allocation.Counts.{allocation_of}
use rbkit.Allocation.Table.{StTable}
use rbkit.Allocation.Strings.{Shared}
use rbkit.Msgpack.{Msgpack}
use rbkit.Msgpack.Reader.{read}
use rbkit.ObjectGraph.Shape.{IsFresh}
use rbkit.ObjectGraph.Collect.{dumped}
use rbkit.Packer.DumpObjects.{PackableObject}
use rbkit.Packer.Frames.{hash_frame}
use rbkit.Packer.Messages.{message_depth}
use rbkit.Sampling.Signals.{Posix}
use rbkit.Server.{Server}
use rbkit.Server.Responses.{PackableStatus, IsStatus}
use rbkit.Server.Dump.Whole.{dump_messages, DumpSent}
use rbkit.Tracing.Steps.{enabled_flag}
use rbkit.Library.Names.{Name, symbol, no_symbol, Request}
use rbkit.Library.State.{is_open, Session, server_of, status_of}
use rbkit.Library.Answers.{Surroundings, vm_events}
use rbkit.Library.Sound.{sampling_flag}

-- What a client can switch.
pub record View : Type 0 where
  pub tracing : Bool
  pub gc_stats : Bool
  pub sampling : Bool
  pub clock : Name
  pub mode : Name

-- What each request is to switch.
abbrev pub effect : Request → View → View
effect Request.start_memory_profile v = record v { tracing = true; gc_stats = true }
effect Request.stop_memory_profile v = record v { tracing = false; gc_stats = false }
effect Request.use_cpu_time v = record v { clock = symbol (ascii "cpu") }
effect Request.use_wall_time v = record v { clock = symbol (ascii "wall") }
effect Request.start_cpu_profiling v = record v {
  sampling = true;
  mode = symbol (ascii "sampling");
}
effect Request.stop_cpu_profiling v = record v { sampling = false }
effect _ v = v

-- What a channel was given, with one message more if it is there.
abbrev pub one_more : Bool → List (List ℕ) → List ℕ → List (List ℕ)
one_more is_there given buf = if is_there then given ++ buf ∷ [] else given

abbrev pub IsSymbol : Name → Type 0
IsSymbol (symbol s) = Unit
IsSymbol (no_symbol s) = ⊥

module _ ⦃m : Msgpack⦄ ⦃os : Posix⦄ ⦃strings : StTable CString Shared⦄
    ⦃objects : StTable ℕ Info⦄ where
  open m use {Double}

  abbrev pub view_of : Session → View
  view_of s = record {
    tracing = enabled_flag s.extension.system.logger;
    gc_stats = s.enable_gc_stats;
    sampling = sampling_flag s.extension.system.logger;
    clock = s.clock_type;
    mode = s.cpu_profiling_mode;
  }

  -- The dump of `w` after the queued `messages` can be sent.
  pub record Dumpable (w : Surroundings) (s : Session) (messages : List (List ℕ)) : Type 0 where
    pub fresh : IsFresh s.extension.packer.heap
    pub some_objects :
        0 < length (dumped (allocation_of s.extension.system.allocations) (flatten w.ranges))
    pub packable :
        All PackableObject
          (dumped (allocation_of s.extension.system.allocations) (flatten w.ranges))
    pub correlation_fits : s.extension.last_correlation_id + 1 < 2 ^ 31
    pub bytes_fit :
        length (flatten messages)
          + length (
              flatten (
                dump_messages w.clock
                  (allocation_of s.extension.system.allocations)
                  w.ranges
                  (server_of s)))
        ≤ 2 ^ 62
    pub messages_fit :
        length messages
          + length (dumped (allocation_of s.extension.system.allocations) (flatten w.ranges))
        ≤ 2 ^ 62

  -- What a request needs to be answered: a clock that is a symbol and an interval that fits an int, hooks that return, a dump that
  -- can be sent, or a status that can be packed.
  abbrev pub Answerable : Surroundings → Session → List (List ℕ) → Request → Type 0
  Answerable w s messages Request.trigger_gc =
      (s' : Session) × (vm_events w.tv w.collected s ≡ ok s')
  Answerable w s messages Request.objectspace_snapshot = Dumpable w s messages
  Answerable w s messages Request.handshake = PackableStatus (status_of w.process s)
  Answerable w s messages Request.start_cpu_profiling =
      IsSymbol s.clock_type × (in_int s.cpu_sampling_interval_usec ≡ true)
  Answerable w s messages _ = Unit

  -- "ok", or the frame of the handshake with the status before the request.
  abbrev pub IsReply : Surroundings → Session → Request → List ℕ → Type 0
  IsReply w s Request.handshake reply =
      (pairs : List (RubyValue Double × RubyValue Double)) × IsStatus s.extension.system.logger
        (status_of w.process s) pairs
      × ((rest : List ℕ)
          → read message_depth (reply ++ rest) ≡ some (hash_frame w.tv Codes.handshake pairs, rest))
  IsReply w s _ reply = reply ≡ ascii "ok"

  -- What is queued: the dump, what the hooks of the collector send, or nothing.
  abbrev pub Queues : Surroundings → Session → List (List ℕ) → Request → Session → Type 0
  Queues w s messages Request.trigger_gc s' =
      (x : Session) × (vm_events w.tv w.collected s ≡ ok x)
      × (s'.extension.system.messages ≡ x.extension.system.messages)
  Queues w s messages Request.objectspace_snapshot s' =
      (v : Server) × DumpSent w.clock (allocation_of s.extension.system.allocations) w.ranges
        (server_of s) messages v
      × (s'.extension.system.messages ≡ v.messages)
      × (s'.extension.packer ≡ v.packer)
      × (s'.extension.last_correlation_id ≡ v.last_correlation_id)
  Queues w s messages _ s' = s'.extension.system.messages ≡ s.extension.system.messages

  -- `s'` is `s` after the request: one reply was given to the response socket and the callback that
  -- there are, and nothing was published.
  pub record Answered (w : Surroundings) (s : Session) (messages : List (List ℕ)) (r : Request)
      (s' : Session) : Type 0 where
    pub view_lem : view_of s' ≡ effect r (view_of s)
    pub same_sockets : s'.extension.system.sockets ≡ s.extension.system.sockets
    pub reply : List ℕ
    pub reply_lem : IsReply w s r reply
    pub responded_lem :
        s'.extension.responded
        ≡ one_more (is_open s.extension.system.sockets.response_socket) s.extension.responded reply
    pub respond_called_lem :
        s'.extension.respond_called
        ≡ one_more s.has_respond_callback s.extension.respond_called reply
    pub same_published :
        (s'.extension.published ≡ s.extension.published)
        × (s'.extension.publish_called ≡ s.extension.publish_called)
    pub queued : Queues w s messages r s'
