-- ===== src/Library/SoundHooks.antt =====
-- The hooks keep a server of lib/rbkit/server.rb sound.
use rbkit.Prelude.{
  ℕ, ◌≡◌, refl, ◌∙◌, ap, subst, Bool, true, false, List, [], ◌∷◌, Outcome, ok, ◌>>=◌, bind-ok,
  ok_injective, if◌then◌else◌,
}
use rbkit.Time.{Timeval}
use rbkit.Event.{CString}
use rbkit.Allocation.{Info, Allocations, new_rbkit_allocation_info, delete_rbkit_allocation_info}
use rbkit.Allocation.Table.{StTable}
use rbkit.Allocation.Strings.{Shared}
use rbkit.Msgpack.{Msgpack}
use rbkit.Sampling.Signals.{Posix}
use rbkit.Server.{Server, gc_start_i, gc_end_mark_i, gc_end_sweep_i}
use rbkit.Server.Objects.{NewObject, newobj_i, freeobj_i}
use rbkit.Tracing.Consistent.{Step-Consistent}
use rbkit.Tracing.Steps
use rbkit.Tracing.Steps.{Step}
use rbkit.Library.State.{Session, server_of, put_server, put_system, on_server}
use rbkit.Library.Answers.{
  VmEvent, object_made, object_freed, marking_started, marking_ended, sweeping_ended, on_tables,
  vm_event, vm_events,
}
use rbkit.Library.Life.{Bounded, AllBounded}
use rbkit.Library.Sound.{Sound, on_server-Sound}

module _ ⦃m : Msgpack⦄ ⦃os : Posix⦄ ⦃strings : StTable CString Shared⦄
    ⦃objects : StTable ℕ Info⦄ where
  -- The tables change as in a step, and something is sent.
  on_tables-Sound :
      (f : Server → Allocations → Outcome (Server × Allocations)) (s s' : Session)
      → ((v : Server) (a : Allocations)
          → f (server_of s) s.extension.system.allocations ≡ ok (v, a)
          → Step s.extension.system (record s.extension.system { allocations = a }))
      → on_tables f s ≡ ok s'
      → Sound s
      → Sound s'
  unfolding put_server
  on_tables-Sound f s s' step e h =
      let ((v, a), q, r) = bind-ok (f (server_of s) s.extension.system.allocations) _ s' e in
      let c =
        Step-Consistent s.extension.system (record s.extension.system { allocations = a })
          (step v a q) h.consistent in
      let next : Session = put_server v s in
      let moved : Sound (put_system (record next.extension.system { allocations = a }) next) =
        record {
          consistent = record {
            agrees = c.agrees;
            valid = c.valid;
            silent = c.silent;
            clean = c.clean;
          };
          running = h.running;
          sampled = h.sampled;
        } in
      subst Sound (ok_injective r) moved

  abbrev beside : Allocations → Server → Outcome (Server × Allocations)
  beside a v = ok (v, a)

  sent_tables :
      (o : Outcome Server) (a a' : Allocations) (v' : Server)
      → (o >>= beside a) ≡ ok (v', a')
      → a ≡ a'
  sent_tables o a a' v' e =
      let (v, q, r) = bind-ok o (beside a) (v', a') e in
      ap (λ (p : Server × Allocations). p.1) (ok_injective r)

  newobj_i-tables :
      (tv : Timeval) (o : NewObject) (v v' : Server) (a a' : Allocations)
      → newobj_i tv o v a ≡ ok (v', a')
      → (info : Info) × (new_rbkit_allocation_info o.trace a ≡ ok (info, a'))
  unfolding newobj_i
  newobj_i-tables tv o v v' a a' e =
      let ((info, a₁), q, r) = bind-ok (new_rbkit_allocation_info o.trace a) _ (v', a') e in
      (info, q ∙ ap (λ a₂. ok (info, a₂)) (sent_tables _ a₁ a' v' r))

  freeobj_i-tables :
      (tv : Timeval) (obj id : ℕ) (v v' : Server) (a a' : Allocations)
      → freeobj_i tv obj id v a ≡ ok (v', a')
      → delete_rbkit_allocation_info obj a ≡ ok a'
  unfolding freeobj_i
  freeobj_i-tables tv obj id v v' a a' e =
      let (a₁, q, r) = bind-ok (delete_rbkit_allocation_info obj a) _ (v', a') e in
      q ∙ ap ok (sent_tables _ a₁ a' v' r)

  pub if-Sound :
      (b : Bool) (f : Session → Outcome Session) (s s' : Session)
      → (b ≡ true → f s ≡ ok s' → Sound s')
      → (if b then f s else ok s) ≡ ok s'
      → Sound s
      → Sound s'
  if-Sound true f s s' go e h = go refl e
  if-Sound false f s s' go e h = subst Sound (ok_injective e) h

  pub vm_event-Sound :
      (tv : Timeval) (e : VmEvent) (s s' : Session)
      → Bounded e s
      → vm_event tv e s ≡ ok s'
      → Sound s
      → Sound s'
  unfolding vm_event
  vm_event-Sound tv (object_made o) s s' b e h =
      if-Sound s.extension.system.tracepoints.newobj_trace (on_tables (newobj_i tv o)) s s'
        (λ on q.
          on_tables-Sound (newobj_i tv o) s s'
            (λ v a q'.
              let (info, r) =
                newobj_i-tables tv o (server_of s) v s.extension.system.allocations a q' in
              Steps.object_made o.trace info a on b.0 b.1 r)
            q h)
        e h
  vm_event-Sound tv (object_freed obj id) s s' b e h =
      if-Sound s.extension.system.tracepoints.freeobj_trace (on_tables (freeobj_i tv obj id)) s s'
        (λ on q.
          on_tables-Sound (freeobj_i tv obj id) s s'
            (λ v a q'.
              Steps.object_freed obj a on b
                (freeobj_i-tables tv obj id (server_of s) v s.extension.system.allocations a q'))
            q h)
        e h
  vm_event-Sound tv marking_started s s' b e h =
      if-Sound s.extension.system.tracepoints.gc_start (on_server (gc_start_i tv)) s s'
        (λ on q. on_server-Sound (gc_start_i tv) s s' q h) e h
  vm_event-Sound tv marking_ended s s' b e h =
      if-Sound s.extension.system.tracepoints.gc_end_mark (on_server (gc_end_mark_i tv)) s s'
        (λ on q. on_server-Sound (gc_end_mark_i tv) s s' q h) e h
  vm_event-Sound tv sweeping_ended s s' b e h =
      if-Sound s.extension.system.tracepoints.gc_end_sweep (on_server (gc_end_sweep_i tv)) s s'
        (λ on q. on_server-Sound (gc_end_sweep_i tv) s s' q h) e h

  pub vm_events-Sound :
      (tv : Timeval) (es : List VmEvent) (s s' : Session)
      → AllBounded tv es s
      → vm_events tv es s ≡ ok s'
      → Sound s
      → Sound s'
  unfolding vm_events
  vm_events-Sound tv [] s s' b e h = subst Sound (ok_injective e) h
  vm_events-Sound tv (x ∷ xs) s s' (b, bs) e h =
      let (s₁, q, r) = bind-ok (vm_event tv x s) _ s' e in
      vm_events-Sound tv xs s₁ s' (bs s₁ q) r (vm_event-Sound tv x s s₁ b q h)
