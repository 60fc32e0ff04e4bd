-- ===== src/Library/Outlets.antt =====
-- Sending an event gives nothing to the sockets and the callbacks: it is queued, or its job is
-- registered.
use rbkit.Prelude.{
  ℕ, ◌≡◌, refl, sym, ap, ◌∙◌, Bool, Bool-cases, inl, inr, List, Outcome, ok, bind-ok, ok_injective,
  if◌then◌else◌, if_true, if_false, ◌==◌, subst, true, false, [], ◌∷◌,
}
use rbkit.Time.{Timeval}
use rbkit.Event.{CString, Event}
use rbkit.Aggregator.{queue_message, queued_message_count, message_batch_size}
use rbkit.Allocation.{Info, Allocations, new_rbkit_allocation_info, delete_rbkit_allocation_info}
use rbkit.Server.Outlets.{Channels}
use rbkit.Allocation.Table.{StTable}
use rbkit.Allocation.Strings.{Shared}
use rbkit.Msgpack.{Msgpack}
use rbkit.Packer.{contents, pack_event}
use rbkit.Sampling.Signals.{Posix}
use rbkit.Server.{
  Server, send_messages, send_message, send_event, gc_start_i, gc_end_mark_i, gc_end_sweep_i,
}
use rbkit.Server.Objects.{NewObject, newobj_i, freeobj_i}
use rbkit.Library.State.{Session, server_of, put_server, put_system, on_server}
use rbkit.Library.Answers.{
  VmEvent, object_made, object_freed, marking_started, marking_ended, sweeping_ended, on_tables,
  vm_event, vm_events,
}
use rbkit.Library.Views.{view_of}

send_messages_channels : (s : Server) → (send_messages s).channels ≡ s.channels
unfolding send_messages
send_messages_channels s = elim (Bool-cases s.test_mode_enabled) [
  | inl on ↦ ap (λ (x : Server). x.channels) (if_true _ _ on)
  | inr off ↦ ap (λ (x : Server). x.channels) (if_false _ _ off)
]

send_message_channels :
    (buffer : List ℕ) (s s' : Server) → send_message buffer s ≡ ok s' → s'.channels ≡ s.channels
unfolding send_message
send_message_channels buffer s s' e =
    let (list, q, r) = bind-ok (queue_message buffer s.messages) _ s' e in
    let s₁ : Server = record s { messages = list } in
    ap (λ (x : Server). x.channels) (sym (ok_injective r))
    ∙ elim (Bool-cases (queued_message_count list == message_batch_size)) [
      | inl full ↦ ap (λ (x : Server). x.channels) (if_true _ _ full) ∙ send_messages_channels s₁
      | inr more ↦ ap (λ (x : Server). x.channels) (if_false _ _ more)
    ]

module _ ⦃m : Msgpack⦄ where
  open m use {Double}

  pub send_event_channels :
      (tv : Timeval) (e : Event Double) (s s' : Server)
      → send_event tv e s ≡ ok s'
      → s'.channels ≡ s.channels
  unfolding send_event
  send_event_channels tv e s s' q =
      let (p, q', r) = bind-ok (pack_event tv e s.packer) _ s' q in
      send_message_channels (contents p) (record s { packer = p.state }) s' r

module _ ⦃m : Msgpack⦄ ⦃os : Posix⦄ ⦃strings : StTable CString Shared⦄
    ⦃objects : StTable ℕ Info⦄ where
  -- A result beside the tables.
  abbrev beside : Allocations → Server → Outcome (Server × Allocations)
  beside a v = ok (v, a)

  newobj_i_channels :
      (tv : Timeval) (o : NewObject) (s s' : Server) (a a' : Allocations)
      → newobj_i tv o s a ≡ ok (s', a')
      → s'.channels ≡ s.channels
  unfolding newobj_i
  newobj_i_channels tv o s s' a a' e =
      let ((info, a₁), q, r) = bind-ok (new_rbkit_allocation_info o.trace a) _ (s', a') e in
      let (s₁, q', r') = bind-ok _ (beside a₁) (s', a') r in
      ap (λ (p : Server × Allocations). p.0.channels) (sym (ok_injective r'))
      ∙ send_event_channels tv _ s s₁ q'

  freeobj_i_channels :
      (tv : Timeval) (obj id : ℕ) (s s' : Server) (a a' : Allocations)
      → freeobj_i tv obj id s a ≡ ok (s', a')
      → s'.channels ≡ s.channels
  unfolding freeobj_i
  freeobj_i_channels tv obj id s s' a a' e =
      let (a₁, q, r) = bind-ok (delete_rbkit_allocation_info obj a) _ (s', a') e in
      let (s₁, q', r') = bind-ok _ (beside a₁) (s', a') r in
      ap (λ (p : Server × Allocations). p.0.channels) (sym (ok_injective r'))
      ∙ send_event_channels tv _ s s₁ q'

  -- The same sockets and callbacks, given the same, and the same switched on.
  pub record Untouched (s s' : Session) : Type 0 where
    pub same_view : view_of s' ≡ view_of s
    pub same_sockets : s'.extension.system.sockets ≡ s.extension.system.sockets
    pub same_callback : s'.has_respond_callback ≡ s.has_respond_callback
    pub same_responded : s'.extension.responded ≡ s.extension.responded
    pub same_respond_called : s'.extension.respond_called ≡ s.extension.respond_called
    pub same_published :
        (s'.extension.published ≡ s.extension.published)
        × (s'.extension.publish_called ≡ s.extension.publish_called)

  pub same-Untouched : (s : Session) → Untouched s s
  same-Untouched s = record {
    same_view = refl;
    same_sockets = refl;
    same_callback = refl;
    same_responded = refl;
    same_respond_called = refl;
    same_published = (refl, refl);
  }

  then-Untouched : (s₁ s₂ s₃ : Session) → Untouched s₁ s₂ → Untouched s₂ s₃ → Untouched s₁ s₃
  then-Untouched s₁ s₂ s₃ h h' = record {
    same_view = h'.same_view ∙ h.same_view;
    same_sockets = h'.same_sockets ∙ h.same_sockets;
    same_callback = h'.same_callback ∙ h.same_callback;
    same_responded = h'.same_responded ∙ h.same_responded;
    same_respond_called = h'.same_respond_called ∙ h.same_respond_called;
    same_published =
        (h'.same_published.0 ∙ h.same_published.0, h'.same_published.1 ∙ h.same_published.1);
  }

  pub put_server-Untouched :
      (s : Session) (v : Server)
      → v.channels ≡ (server_of s).channels
      → Untouched s (put_server v s)
  unfolding put_server server_of
  put_server-Untouched s v e = record {
    same_view = refl;
    same_sockets = refl;
    same_callback = refl;
    same_responded = ap (λ (c : Channels). c.responded) e;
    same_respond_called = ap (λ (c : Channels). c.respond_called) e;
    same_published =
        (ap (λ (c : Channels). c.published) e, ap (λ (c : Channels). c.publish_called) e);
  }

  on_server-Untouched :
      (f : Server → Outcome Server) (s s' : Session)
      → ((v : Server) → f (server_of s) ≡ ok v → v.channels ≡ (server_of s).channels)
      → on_server f s ≡ ok s'
      → Untouched s s'
  on_server-Untouched f s s' g e =
      let (v, q, r) = bind-ok (f (server_of s)) (λ v. ok (put_server v s)) s' e in
      subst (Untouched s) (ok_injective r) (put_server-Untouched s v (g v q))

  on_tables-Untouched :
      (f : Server → Allocations → Outcome (Server × Allocations)) (s s' : Session)
      → ((v : Server) (a : Allocations)
          → f (server_of s) s.extension.system.allocations ≡ ok (v, a)
          → v.channels ≡ (server_of s).channels)
      → on_tables f s ≡ ok s'
      → Untouched s s'
  on_tables-Untouched f s s' g e =
      let ((v, a), q, r) = bind-ok (f (server_of s) s.extension.system.allocations) _ s' e in
      let h = put_server-Untouched s v (g v a q) in
      let next : Session = put_server v s in
      let moved : Untouched s (put_system (record next.extension.system { allocations = a }) next) =
        record {
          same_view = h.same_view;
          same_sockets = h.same_sockets;
          same_callback = h.same_callback;
          same_responded = h.same_responded;
          same_respond_called = h.same_respond_called;
          same_published = h.same_published;
        } in
      subst (Untouched s) (ok_injective r) moved

  if-Untouched :
      (b : Bool) (f : Session → Outcome Session) (s s' : Session)
      → (f s ≡ ok s' → Untouched s s')
      → (if b then f s else ok s) ≡ ok s'
      → Untouched s s'
  if-Untouched true f s s' g e = g e
  if-Untouched false f s s' g e = subst (Untouched s) (ok_injective e) (same-Untouched s)

  vm_event-Untouched :
      (tv : Timeval) (x : VmEvent) (s s' : Session) → vm_event tv x s ≡ ok s' → Untouched s s'
  unfolding vm_event gc_start_i gc_end_mark_i gc_end_sweep_i
  vm_event-Untouched tv (object_made o) s s' e =
      if-Untouched _ (on_tables (newobj_i tv o)) s s'
        (on_tables-Untouched (newobj_i tv o) s s'
          (λ v a. newobj_i_channels tv o (server_of s) v s.extension.system.allocations a))
        e
  vm_event-Untouched tv (object_freed obj id) s s' e =
      if-Untouched _ (on_tables (freeobj_i tv obj id)) s s'
        (on_tables-Untouched (freeobj_i tv obj id) s s'
          (λ v a. freeobj_i_channels tv obj id (server_of s) v s.extension.system.allocations a))
        e
  vm_event-Untouched tv marking_started s s' e =
      if-Untouched _ (on_server (gc_start_i tv)) s s'
        (on_server-Untouched (gc_start_i tv) s s' (λ v. send_event_channels tv _ (server_of s) v)) e
  vm_event-Untouched tv marking_ended s s' e =
      if-Untouched _ (on_server (gc_end_mark_i tv)) s s'
        (on_server-Untouched (gc_end_mark_i tv) s s'
          (λ v. send_event_channels tv _ (server_of s) v))
        e
  vm_event-Untouched tv sweeping_ended s s' e =
      if-Untouched _ (on_server (gc_end_sweep_i tv)) s s'
        (on_server-Untouched (gc_end_sweep_i tv) s s'
          (λ v. send_event_channels tv _ (server_of s) v))
        e

  pub vm_events-Untouched :
      (tv : Timeval) (xs : List VmEvent) (s s' : Session)
      → vm_events tv xs s ≡ ok s'
      → Untouched s s'
  unfolding vm_events
  vm_events-Untouched tv [] s s' e = subst (Untouched s) (ok_injective e) (same-Untouched s)
  vm_events-Untouched tv (x ∷ xs) s s' e =
      let (s₁, q, r) = bind-ok (vm_event tv x s) _ s' e in
      then-Untouched s s₁ s' (vm_event-Untouched tv x s s₁ q) (vm_events-Untouched tv xs s₁ s' r)
