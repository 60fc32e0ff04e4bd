-- ===== src/Tracing/Returns.antt =====
-- What a call of start_stat_server that returns has changed.
use rbkit.Prelude.{
  ℕ, ◌≡◌, refl, ap, subst, Bool, true, false, List, if◌then◌else◌, Outcome, ok, raised, fault,
  out_of_fuel, ◌>>=◌, bind-ok, fix2nat,
}
use rbkit.Event.{CString}
use rbkit.Allocation.{Info}
use rbkit.Allocation.Table.{StTable}
use rbkit.Allocation.Strings.{Shared}
use rbkit.Sampling.Signals.{Posix}
use rbkit.Tracing.Sockets.{ServerSockets, bind_publisher, bind_responder}
use rbkit.Tracing.{System, start_logger, open_server, start_stat_server}

module _ ⦃os : Posix⦄ ⦃strings : StTable CString Shared⦄ ⦃objects : StTable ℕ Info⦄ where
  -- The logger is started, or only the sockets have changed.
  abbrev pub after_binding : Bool → ServerSockets → System → System
  after_binding started k s =
      if started then start_logger (record s { sockets = k }) else record s { sockets = k }

  abbrev finish : System → Bool × ServerSockets → Outcome (Bool × System)
  finish s (answered, k) =
      let s' : System = record s { sockets = k } in
      ok (if answered then (true, start_logger s') else (false, s'))

  abbrev value_of : Bool × System → Outcome (Bool × System) → Bool × System
  value_of d (ok x) = x
  value_of d (raised e) = d
  value_of d fault = d
  value_of d out_of_fuel = d

  finished :
      (s : System) (o : Outcome (Bool × ServerSockets)) (r : Bool × System)
      → (o >>= finish s) ≡ ok r
      → (k : ServerSockets) × (r.1 ≡ after_binding r.0 k s)
  finished s (ok (true, k)) r e =
      let q = ap (value_of r) e in
      (k, subst (λ (x : Bool × System). x.1 ≡ after_binding x.0 k s) q refl)
  finished s (ok (false, k)) r e =
      let q = ap (value_of r) e in
      (k, subst (λ (x : Bool × System). x.1 ≡ after_binding x.0 k s) q refl)
  finished s (raised x) r e = cc e
  finished s fault r e = cc e
  finished s out_of_fuel r e = cc e

  open_server-after_binding :
      (zmq_bind : List ℕ → Bool) (pub_port request_port : ℕ) (s s' : System) (started : Bool)
      → open_server zmq_bind pub_port request_port s ≡ ok (started, s')
      → (k : ServerSockets) × (s' ≡ after_binding started k s)
  unfolding open_server
  open_server-after_binding zmq_bind pub_port request_port s s' started e =
      go (bind_publisher zmq_bind pub_port (record s.sockets { has_context = true })) e
    where
      go :
          (o : Outcome (Bool × ServerSockets))
          → (o >>= (λ p.
              (if p.0 then bind_responder zmq_bind request_port p.1 else ok (false, p.1))
              >>= finish s))
            ≡ ok (started, s')
          → (k : ServerSockets) × (s' ≡ after_binding started k s)
      go (ok (published, k)) e =
          finished s (if published then bind_responder zmq_bind request_port k else ok (false, k))
            (started, s') e
      go (raised x) e = cc e
      go fault e = cc e
      go out_of_fuel e = cc e

  -- A call that returns has started the logger if it returns true, and changed the sockets only if
  -- it returns false.
  pub start_stat_server-after_binding :
      (zmq_bind : List ℕ → Bool) (pub_port request_port : ℕ) (s s' : System) (started : Bool)
      → start_stat_server zmq_bind pub_port request_port s ≡ ok (started, s')
      → (k : ServerSockets) × (s' ≡ after_binding started k s)
  unfolding start_stat_server
  start_stat_server-after_binding zmq_bind pub_port request_port s s' started e =
      let (p, q, e₁) = bind-ok (fix2nat pub_port) _ (started, s') e in
      let (r, q', e₂) = bind-ok (fix2nat request_port) _ (started, s') e₁ in
      open_server-after_binding zmq_bind p r s s' started e₂
