-- ===== src/Library/Dispatch.antt =====
-- The message dispatch loop of lib/rbkit/server.rb.
use rbkit.Prelude.{ℕ, List, [], ◌∷◌, ◌==◌, if◌then◌else◌, Option, none, some, Outcome, ok, ◌>>=◌}
use rbkit.Event.{CString}
use rbkit.Event.Codes
use rbkit.Event.Codes.{code}
use rbkit.Allocation.{Info}
use rbkit.Allocation.Table.{StTable}
use rbkit.Allocation.Strings.{Shared}
use rbkit.Msgpack.{Msgpack}
use rbkit.Sampling.Signals.{Posix}
use rbkit.Server.{send_messages, send_hash_as_event}
use rbkit.Server.Outlets.{poll_for_request}
use rbkit.Library.GcStats.{VmStats, stat, ruby_hash}
use rbkit.Library.Timers.{run_timer}
use rbkit.Library.State.{Session, server_of, put_server}
use rbkit.Library.Answers.{Surroundings, process_incoming_request}

-- What a round finds: what ZeroMQ reports of the socket, and the times and statistics of the
-- timers.
pub record LoopRound : Type 0 where
  pub revents : ℕ
  pub received : Option (List ℕ)
  pub surroundings : Surroundings
  pub vm : VmStats
  pub stats_now : ℕ
  pub stats_later : ℕ
  pub dispatch_now : ℕ
  pub dispatch_later : ℕ

module _ ⦃m : Msgpack⦄ ⦃os : Posix⦄ ⦃strings : StTable CString Shared⦄
    ⦃objects : StTable ℕ Info⦄ where
  -- The blocks of the two timers.
  unfoldable pub send_gc_stats : LoopRound → Session → Outcome Session
  unfolding stat ruby_hash
  send_gc_stats w s = do
    stats ← stat w.vm
    (sent, v) ←
        send_hash_as_event w.surroundings.tv (ruby_hash stats) (code Codes.gc_stats) (server_of s)
    ok (put_server v s)

  unfoldable pub dispatch_messages : Session → Outcome Session
  unfolding send_messages
  dispatch_messages s = ok (put_server (send_messages (server_of s)) s)

  -- An empty request is none: `String(nil)` is empty.
  unfoldable pub take_request : Surroundings → Option CString → Session → Outcome Session
  unfolding process_incoming_request
  take_request w none s = ok s
  take_request w (some []) s = ok s
  take_request w (some (c ∷ cs)) s = process_incoming_request w (c ∷ cs) s

  unfoldable pub serve_request : LoopRound → Session → Outcome Session
  unfolding take_request
  serve_request w s = if s.request_port == 0 then ok s else (do
    request ← poll_for_request w.revents w.received
    take_request w.surroundings request s)

  unfoldable pub run_gc_stats_timer : LoopRound → Session → Outcome Session
  unfolding send_gc_stats
  run_gc_stats_timer w s =
      if s.enable_gc_stats
      then (do
        (t, s') ← run_timer w.stats_now w.stats_later (send_gc_stats w) (s.gc_stats_timer, s)
        ok (record s' { gc_stats_timer = t }))
      else ok s

  unfoldable pub run_message_dispatch_timer : LoopRound → Session → Outcome Session
  unfolding dispatch_messages
  run_message_dispatch_timer w s = do
    (t, s') ←
        run_timer w.dispatch_now w.dispatch_later dispatch_messages (s.message_dispatch_timer, s)
    ok (record s' { message_dispatch_timer = t })

  -- One round of the loop; none where it ends.
  unfoldable pub dispatch_round : LoopRound → Session → Outcome (Option Session)
  unfolding serve_request run_gc_stats_timer run_message_dispatch_timer
  dispatch_round w s = if s.stop_profiler_thread then ok none else (do
    s₁ ← serve_request w s
    s₂ ← run_gc_stats_timer w s₁
    s₃ ← run_message_dispatch_timer w s₂
    ok (some s₃))
