-- ===== src/Library/CarryOut.antt =====
-- Each request to a server of lib/rbkit/server.rb is carried out, before it is acknowledged.
use rbkit.Prelude.{
  ℕ, ◌≡◌, refl, sym, ap, ◌∙◌, Bool, true, false, Bool-cases, inl, inr, some, List, ascii, ok,
  ok-bind, if_true, if_false, in_int,
}
use rbkit.Event.{CString}
use rbkit.Aggregator.Grow.{Represents}
use rbkit.Allocation.{Info}
use rbkit.Allocation.Counts.{allocation_of}
use rbkit.Allocation.Table.{StTable}
use rbkit.Allocation.Strings.{Shared}
use rbkit.Allocation.Tables.{same_bytes}
use rbkit.Msgpack.{Msgpack}
use rbkit.Sampling.Signals.{Posix}
use rbkit.Server.Dump.Whole.{send_objectspace_dump-DumpSent}
use rbkit.Tracing.{
  Logger, start_stat_tracing, stop_stat_tracing, start_sampling_profiler, stop_sampling_profiler,
}
use rbkit.Tracing.Steps.{enabled_flag}
use rbkit.Library.Names.{Name, symbol, no_symbol, Request, is_sampling, clock_type_of}
use rbkit.Library.State.{Session, server_of, put_server, put_system, on_system}
use rbkit.Library.Methods.{start_cpu_profiling, stop_cpu_profiling}
use rbkit.Library.Answers.{Surroundings, set_gc_stats, dump_objects, carry_out}
use rbkit.Library.Sound.{sampling_flag, Sound}
use rbkit.Library.SoundQuiet.{on_system-ok}
use rbkit.Library.Switches.{
  start_stat_tracing-Switched, stop_stat_tracing-Switched, start_sampling_profiler-Switched,
  stop_sampling_profiler-Switched,
}
use rbkit.Library.Views.{IsSymbol, Dumpable, Answerable}
use rbkit.Library.Outlets.{same-Untouched, vm_events-Untouched, put_server-Untouched}
use rbkit.Library.Carried.{
  IsAcked, same_flags, Carries, Switched-Carried, Untouched-Carried, clock-Carried,
}

module _ ⦃m : Msgpack⦄ ⦃os : Posix⦄ ⦃strings : StTable CString Shared⦄ ⦃objects : StTable ℕ Info⦄
    (w : Surroundings) (s : Session) (messages : List (List ℕ)) where
  module _ (l : Logger) (p : s.extension.system.logger ≡ some l) where
    start_memory_profile-Carries : Carries w s messages Request.start_memory_profile
    unfolding carry_out
    start_memory_profile-Carries =
        let (y, q, sw) = start_stat_tracing-Switched s.extension.system l p in
        (
          set_gc_stats true (put_system y s),
          ok-bind (on_system start_stat_tracing s) _ (put_system y s)
              (on_system-ok start_stat_tracing s y q),
          Switched-Carried w s messages Request.start_memory_profile true s.cpu_profiling_mode _ y
              sw (same_flags true s.clock_type s.cpu_profiling_mode refl (sym (ap sampling_flag p)))
              sw.same_messages,
        )

    stop_memory_profile-Carries : Carries w s messages Request.stop_memory_profile
    unfolding carry_out
    stop_memory_profile-Carries =
        let (y, q, sw) = stop_stat_tracing-Switched s.extension.system l p in
        (
          set_gc_stats false (put_system y s),
          ok-bind (on_system stop_stat_tracing s) _ (put_system y s)
              (on_system-ok stop_stat_tracing s y q),
          Switched-Carried w s messages Request.stop_memory_profile false s.cpu_profiling_mode _ y
              sw
              (same_flags false s.clock_type s.cpu_profiling_mode refl (sym (ap sampling_flag p)))
              sw.same_messages,
        )

    start_cpu_profiling-Carries :
        (clock : Name)
        → s.clock_type ≡ clock
        → IsSymbol clock
        → in_int s.cpu_sampling_interval_usec ≡ true
        → Carries w s messages Request.start_cpu_profiling
    unfolding carry_out start_cpu_profiling is_sampling clock_type_of
    start_cpu_profiling-Carries (no_symbol text) c h fits = absurd h
    start_cpu_profiling-Carries (symbol text) c h fits =
        let wall : Bool = same_bytes text (ascii "wall") in
        let (y, q, sw) =
          start_sampling_profiler-Switched s.extension.system l p wall s.cpu_sampling_interval_usec
            fits in
        let s₀ : Session = record s { cpu_profiling_mode = symbol (ascii "sampling") } in
        (
          put_system y s₀,
          ap
                (λ x.
                  on_system (start_sampling_profiler (clock_type_of x) s.cpu_sampling_interval_usec)
                    s₀)
                c
              ∙ on_system-ok (start_sampling_profiler (some wall) s.cpu_sampling_interval_usec) s₀ y
                  q,
          Switched-Carried w s messages Request.start_cpu_profiling s.enable_gc_stats
              (symbol (ascii "sampling")) _ y sw
              (same_flags s.enable_gc_stats s.clock_type (symbol (ascii "sampling"))
                (sym (ap enabled_flag p)) refl)
              sw.same_messages,
        )

    stop_cpu_profiling-Carries : Sound s → Carries w s messages Request.stop_cpu_profiling
    unfolding carry_out stop_cpu_profiling
    stop_cpu_profiling-Carries h = elim (Bool-cases (is_sampling s.cpu_profiling_mode)) [
      | inl on ↦
          let (y, q, sw) = stop_sampling_profiler-Switched s.extension.system l p in
          (
            put_system y s,
            if_true _ _ on ∙ on_system-ok stop_sampling_profiler s y q,
            Switched-Carried w s messages Request.stop_cpu_profiling s.enable_gc_stats
                s.cpu_profiling_mode _ y sw
                (same_flags s.enable_gc_stats s.clock_type s.cpu_profiling_mode
                  (sym (ap enabled_flag p)) refl)
                sw.same_messages,
          )
      | inr off ↦
          let silent : sampling_flag s.extension.system.logger ≡ false =
            elim (Bool-cases (sampling_flag s.extension.system.logger)) [
              | inl on ↦ cc (h.sampled on, off)
              | inr n ↦ n
            ] in
          (
            s,
            if_false _ _ off,
            record {
              view_lem = same_flags s.enable_gc_stats s.clock_type s.cpu_profiling_mode refl silent;
              same_sockets = refl;
              same_callback = refl;
              same_responded = refl;
              same_respond_called = refl;
              same_published = (refl, refl);
              queued = refl;
            },
          )
    ]

    trigger_gc-Carries :
        Answerable w s messages Request.trigger_gc → Carries w s messages Request.trigger_gc
    unfolding carry_out
    trigger_gc-Carries (x, q) = (
      x,
      q,
      Untouched-Carried w s messages Request.trigger_gc x
          (vm_events-Untouched w.tv w.collected s x q) refl (x, q, refl),
    )

    objectspace_snapshot-Carries :
        Represents s.extension.system.messages messages
        → Dumpable w s messages
        → Carries w s messages Request.objectspace_snapshot
    unfolding carry_out server_of put_server
    objectspace_snapshot-Carries r d =
        let table = allocation_of s.extension.system.allocations in
        let (v, q, sent) =
          send_objectspace_dump-DumpSent w.clock table w.ranges (server_of s) messages d.fresh r
            d.some_objects d.packable d.correlation_fits d.bytes_fit d.messages_fit in
        (
          put_server v s,
          ok-bind (dump_objects w s (server_of s)) (λ v. ok (put_server v s)) v q,
          Untouched-Carried w s messages Request.objectspace_snapshot (put_server v s)
              (put_server-Untouched s v sent.same_channels) refl (v, sent, refl, refl, refl),
        )

    pub carry_out-Carries :
        (r : Request)
        → IsAcked r
        → Sound s
        → Represents s.extension.system.messages messages
        → Answerable w s messages r
        → Carries w s messages r
    unfolding carry_out
    carry_out-Carries Request.start_memory_profile c h q a = start_memory_profile-Carries
    carry_out-Carries Request.stop_memory_profile c h q a = stop_memory_profile-Carries
    carry_out-Carries Request.trigger_gc c h q a = trigger_gc-Carries a
    carry_out-Carries Request.objectspace_snapshot c h q a = objectspace_snapshot-Carries q a
    carry_out-Carries Request.handshake c h q a = absurd c
    carry_out-Carries Request.use_cpu_time c h q a =
        (_, refl, clock-Carried w s messages Request.use_cpu_time (symbol (ascii "cpu")) refl refl)
    carry_out-Carries Request.use_wall_time c h q a = (
      _,
      refl,
      clock-Carried w s messages Request.use_wall_time (symbol (ascii "wall")) refl refl,
    )
    carry_out-Carries Request.start_cpu_profiling c h q a =
        start_cpu_profiling-Carries s.clock_type refl a.0 a.1
    carry_out-Carries Request.stop_cpu_profiling c h q a = stop_cpu_profiling-Carries h
    carry_out-Carries Request.unknown c h q a =
        (s, refl, Untouched-Carried w s messages Request.unknown s (same-Untouched s) refl refl)
