-- ===== src/Library/Replies.antt =====
-- Each request to a server of lib/rbkit/server.rb is answered once.
use rbkit.Prelude.{
  ℕ, ◌≡◌, refl, ap, ◌∙◌, true, false, Option-cases, inl, inr, some, List, ascii, ok, ◌>>=◌, ok-bind,
  if_true,
}
use rbkit.Event.{CString}
use rbkit.Aggregator.Grow.{Represents}
use rbkit.Allocation.{Info}
use rbkit.Allocation.Table.{StTable}
use rbkit.Allocation.Strings.{Shared}
use rbkit.Msgpack.{Msgpack}
use rbkit.Sampling.Signals.{Posix}
use rbkit.Server.{Server}
use rbkit.Server.Outlets.{give, send_command_ack, respond_with_message}
use rbkit.Server.Requests.{send_handshake_response}
use rbkit.Server.Responses.{answered_with, send_handshake_response-reads}
use rbkit.Tracing.{Logger}
use rbkit.Tracing.Sockets.{ServerSockets}
use rbkit.Library.Names.{Request, request_of}
use rbkit.Library.State.{is_set, is_open, Session, server_of, put_server, on_server, status_of}
use rbkit.Library.Answers.{Surroundings, acknowledge, carry_out, answer, process_incoming_request}
use rbkit.Library.Life.{Live}
use rbkit.Library.Sound.{Sound}
use rbkit.Library.Invariant.{Live-Sound}
use rbkit.Library.Views.{one_more, Answerable, IsReply, Queues, Answered}
use rbkit.Library.Carried.{IsAcked, Carried}
use rbkit.Library.CarryOut.{carry_out-Carries}

module _ ⦃m : Msgpack⦄ ⦃os : Posix⦄ ⦃strings : StTable CString Shared⦄ ⦃objects : StTable ℕ Info⦄
    (w : Surroundings) (s : Session) (messages : List (List ℕ)) where
  -- The session after an acknowledgement.
  abbrev acked : Session → Session
  acked s₁ =
      let v = server_of s₁ in put_server (record v { channels = send_command_ack v.channels }) s₁

  ok-IsReply : (r : Request) → IsAcked r → IsReply w s r (ascii "ok")
  ok-IsReply Request.start_memory_profile c = refl
  ok-IsReply Request.stop_memory_profile c = refl
  ok-IsReply Request.trigger_gc c = refl
  ok-IsReply Request.objectspace_snapshot c = refl
  ok-IsReply Request.handshake c = absurd c
  ok-IsReply Request.use_cpu_time c = refl
  ok-IsReply Request.use_wall_time c = refl
  ok-IsReply Request.start_cpu_profiling c = refl
  ok-IsReply Request.stop_cpu_profiling c = refl
  ok-IsReply Request.unknown c = refl

  acked-Queues :
      (r : Request) (s₁ : Session)
      → IsAcked r
      → Queues w s messages r s₁
      → Queues w s messages r (acked s₁)
  unfolding put_server server_of
  acked-Queues Request.start_memory_profile s₁ c q = q
  acked-Queues Request.stop_memory_profile s₁ c q = q
  acked-Queues Request.trigger_gc s₁ c q = q
  acked-Queues Request.objectspace_snapshot s₁ c q = q
  acked-Queues Request.handshake s₁ c q = absurd c
  acked-Queues Request.use_cpu_time s₁ c q = q
  acked-Queues Request.use_wall_time s₁ c q = q
  acked-Queues Request.start_cpu_profiling s₁ c q = q
  acked-Queues Request.stop_cpu_profiling s₁ c q = q
  acked-Queues Request.unknown s₁ c q = q

  acked-Answered :
      (r : Request) (s₁ : Session)
      → IsAcked r
      → Carried w s messages r s₁
      → Answered w s messages r (acked s₁)
  unfolding put_server server_of send_command_ack respond_with_message give
  acked-Answered r s₁ c h = record {
    view_lem = h.view_lem;
    same_sockets = h.same_sockets;
    reply = ascii "ok";
    reply_lem = ok-IsReply r c;
    responded_lem =
        ap
          (λ (k : ServerSockets).
            one_more (is_open k.response_socket) s₁.extension.responded (ascii "ok"))
          h.same_sockets
        ∙ ap (λ x. one_more (is_open s.extension.system.sockets.response_socket) x (ascii "ok"))
            h.same_responded;
    respond_called_lem =
        ap (λ b. one_more b s₁.extension.respond_called (ascii "ok")) h.same_callback
        ∙ ap (λ x. one_more s.has_respond_callback x (ascii "ok")) h.same_respond_called;
    same_published = h.same_published;
    queued = acked-Queues r s₁ c h.queued;
  }

  abbrev Answers : Request → Type 0
  Answers r = (s' : Session) × (answer w r s ≡ ok s') × Answered w s messages r s'

  handshake-Answers : Answerable w s messages Request.handshake → Answers Request.handshake
  unfolding answer carry_out put_server server_of give
  handshake-Answers a =
      let (buffer, pairs, q, status, reads) =
        send_handshake_response-reads w.tv s.extension.system.logger (status_of w.process s)
          (server_of s) a in
      let v : Server = answered_with buffer (server_of s) in
      (
        put_server v s,
        ok-bind
            (send_handshake_response w.tv s.extension.system.logger (status_of w.process s)
              (server_of s))
            (λ v'. ok (put_server v' s)) v q,
        record {
          view_lem = refl;
          same_sockets = refl;
          reply = buffer;
          reply_lem = (pairs, status, reads);
          responded_lem = refl;
          respond_called_lem = refl;
          same_published = (refl, refl);
          queued = refl;
        },
      )

  acked-Answers :
      (l : Logger) (r : Request)
      → s.extension.system.logger ≡ some l
      → IsAcked r
      → Sound s
      → Represents s.extension.system.messages messages
      → Answerable w s messages r
      → (s' : Session) × ((carry_out w r s >>= on_server acknowledge) ≡ ok s')
        × Answered w s messages r s'
  acked-Answers l r p c h q a =
      let (s₁, e, done) = carry_out-Carries w s messages l p r c h q a in
      (acked s₁, ok-bind (carry_out w r s) (on_server acknowledge) s₁ e, acked-Answered r s₁ c done)

  answer-Answers :
      (l : Logger) (r : Request)
      → s.extension.system.logger ≡ some l
      → Sound s
      → Represents s.extension.system.messages messages
      → Answerable w s messages r
      → Answers r
  unfolding answer
  answer-Answers l Request.handshake p h q a = handshake-Answers a
  answer-Answers l Request.start_memory_profile p h q a =
      acked-Answers l Request.start_memory_profile p tt h q a
  answer-Answers l Request.stop_memory_profile p h q a =
      acked-Answers l Request.stop_memory_profile p tt h q a
  answer-Answers l Request.trigger_gc p h q a = acked-Answers l Request.trigger_gc p tt h q a
  answer-Answers l Request.objectspace_snapshot p h q a =
      acked-Answers l Request.objectspace_snapshot p tt h q a
  answer-Answers l Request.use_cpu_time p h q a = acked-Answers l Request.use_cpu_time p tt h q a
  answer-Answers l Request.use_wall_time p h q a = acked-Answers l Request.use_wall_time p tt h q a
  answer-Answers l Request.start_cpu_profiling p h q a =
      acked-Answers l Request.start_cpu_profiling p tt h q a
  answer-Answers l Request.stop_cpu_profiling p h q a =
      acked-Answers l Request.stop_cpu_profiling p tt h q a
  answer-Answers l Request.unknown p h q a = acked-Answers l Request.unknown p tt h q a

  pub process_incoming_request-Answered :
      (request : CString)
      → Live s
      → s.server_running ≡ true
      → Represents s.extension.system.messages messages
      → Answerable w s messages (request_of request)
      → (s' : Session) × (process_incoming_request w request s ≡ ok s')
        × Answered w s messages (request_of request) s'
  unfolding process_incoming_request
  process_incoming_request-Answered request live on q a =
      let h = Live-Sound s live in
      elim (Option-cases s.extension.system.logger) [
        | inl n ↦
            let e : is_set s.extension.system.logger ≡ false = rw n refl in cc (e, h.running, on)
        | inr (l, p) ↦
            let (s', e, answered) = answer-Answers l (request_of request) p h q a in
            (s', if_true _ _ on ∙ e, answered)
      ]
