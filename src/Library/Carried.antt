-- ===== src/Library/Carried.antt =====
-- What it means that a request to a server of lib/rbkit/server.rb was carried out.
use rbkit.Prelude.{ℕ, ◌≡◌, refl, sym, ap, ◌∙◌, Bool, List, ok}
use rbkit.Event.{CString}
use rbkit.Allocation.{Info}
use rbkit.Allocation.Table.{StTable}
use rbkit.Allocation.Strings.{Shared}
use rbkit.Msgpack.{Msgpack}
use rbkit.Sampling.Signals.{Posix}
use rbkit.Tracing.{Logger, System}
use rbkit.Tracing.Steps.{enabled_flag}
use rbkit.Library.Names.{Name, Request}
use rbkit.Library.State.{Session, put_system}
use rbkit.Library.Answers.{Surroundings, set_clock, carry_out}
use rbkit.Library.Sound.{sampling_flag}
use rbkit.Library.Switches.{Switched}
use rbkit.Library.Views.{View, effect, view_of, Queues}
use rbkit.Library.Outlets.{Untouched}

-- Requests that are acknowledged.
abbrev pub IsAcked : Request → Type 0
IsAcked Request.handshake = ⊥
IsAcked _ = Unit

-- Two views that agree on the two flags of the logger.
pub same_flags :
    {t t' u u' : Bool} (gc_stats : Bool) (clock mode : Name)
    → t ≡ t'
    → u ≡ u'
    → ◌≡◌ {A = View}
        (record { tracing = t; gc_stats = gc_stats; sampling = u; clock = clock; mode = mode })
        (record { tracing = t'; gc_stats = gc_stats; sampling = u'; clock = clock; mode = mode })
same_flags gc_stats clock mode e e' = rw (e, e') refl

module _ ⦃m : Msgpack⦄ ⦃os : Posix⦄ ⦃strings : StTable CString Shared⦄ ⦃objects : StTable ℕ Info⦄
    (w : Surroundings) (s : Session) (messages : List (List ℕ)) where
  -- The request was carried out, and nothing was given to a socket or a callback.
  pub record Carried (r : Request) (s' : Session) : Type 0 where
    pub view_lem : view_of s' ≡ effect r (view_of s)
    pub same_sockets : s'.extension.system.sockets ≡ s.extension.system.sockets
    pub same_callback : s'.has_respond_callback ≡ s.has_respond_callback
    pub same_responded : s'.extension.responded ≡ s.extension.responded
    pub same_respond_called : s'.extension.respond_called ≡ s.extension.respond_called
    pub same_published :
        (s'.extension.published ≡ s.extension.published)
        × (s'.extension.publish_called ≡ s.extension.publish_called)
    pub queued : Queues w s messages r s'

  abbrev pub Carries : Request → Type 0
  Carries r = (s' : Session) × (carry_out w r s ≡ ok s') × Carried r s'

  -- The session after a call that switched the logger to `l`.
  pub Switched-Carried :
      (r : Request) (gc_stats : Bool) (mode : Name) (l : Logger) (y : System)
      → Switched s.extension.system l y
      → ◌≡◌ {A = View}
          (record {
            tracing = l.enabled;
            gc_stats = gc_stats;
            sampling = l.sampling_profiler_enabled;
            clock = s.clock_type;
            mode = mode;
          })
          (effect r (view_of s))
      → Queues w s messages r
          (record (put_system y s) { enable_gc_stats = gc_stats; cpu_profiling_mode = mode })
      → Carried r
          (record (put_system y s) { enable_gc_stats = gc_stats; cpu_profiling_mode = mode })
  Switched-Carried r gc_stats mode l y sw e q = record {
    view_lem =
        same_flags gc_stats s.clock_type mode (ap enabled_flag sw.logger_lem)
          (ap sampling_flag sw.logger_lem)
        ∙ e;
    same_sockets = sw.same_sockets;
    same_callback = refl;
    same_responded = refl;
    same_respond_called = refl;
    same_published = (refl, refl);
    queued = q;
  }

  pub Untouched-Carried :
      (r : Request) (s' : Session)
      → Untouched s s'
      → effect r (view_of s) ≡ view_of s
      → Queues w s messages r s'
      → Carried r s'
  Untouched-Carried r s' h e q = record {
    view_lem = h.same_view ∙ sym e;
    same_sockets = h.same_sockets;
    same_callback = h.same_callback;
    same_responded = h.same_responded;
    same_respond_called = h.same_respond_called;
    same_published = h.same_published;
    queued = q;
  }

  pub clock-Carried :
      (r : Request) (clock : Name)
      → effect r (view_of s) ≡ record (view_of s) { clock = clock }
      → Queues w s messages r (set_clock clock s)
      → Carried r (set_clock clock s)
  clock-Carried r clock e q = record {
    view_lem = sym e;
    same_sockets = refl;
    same_callback = refl;
    same_responded = refl;
    same_respond_called = refl;
    same_published = (refl, refl);
    queued = q;
  }
