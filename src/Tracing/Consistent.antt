-- ===== src/Tracing/Consistent.antt =====
-- What holds of the server in every reachable state.
use rbkit.Prelude.{
  ℕ, sym, ap, subst, ◌∙◌, inl, inr, Option-cases, Outcome, raised, out_of_fuel, if◌then◌else◌, ◌≡◌,
  refl, true, false, none, some, ok, fault, arith, All, ◌||◌, fix2int,
}
use rbkit.Aggregator.{message_list_destroy}
use rbkit.Event.{CString}
use rbkit.Allocation.{Info, Allocations, clear_tables, new_tables}
use rbkit.Allocation.Created.{new_rbkit_allocation_info-Recorded}
use rbkit.Allocation.Removed.{delete_rbkit_allocation_info-Forgotten}
use rbkit.Allocation.Counts.{IsValid}
use rbkit.Allocation.Clear.{clear_tables-all_freed}
use rbkit.Allocation.Table.{StTable}
use rbkit.Allocation.Strings.{Shared}
use rbkit.Allocation.History.{Holds, new_tables-Holds}
use rbkit.Sampling.{rbkit_install_sampling_profiler, rbkit_uninstall_sampling_profiler}
use rbkit.Sampling.Signals.{Posix}
use rbkit.Tracing.Sockets.{
  ServerSockets, is_closed, Closable, Closable-cases, closed_sockets, close_sockets-ok,
  close_sockets-fault,
}
use rbkit.Tracing.Returns.{after_binding, start_stat_server-after_binding}
use rbkit.Tracing.{
  start_logger, create_gc_hooks, Logger, System, all, get_trace_logger, start_stat_tracing,
  stop_stat_tracing, start_sampling_profiler, stop_sampling_profiler, stop_stat_server,
}
use rbkit.Tracing.Steps.{
  Step, start_server, start_tracing, stop_tracing, start_profiler, stop_profiler, object_made,
  object_freed, stop_server, Reachable, loaded, step, enabled_flag,
}

module _ ⦃os : Posix⦄ ⦃strings : StTable CString Shared⦄ ⦃objects : StTable ℕ Info⦄ where
  -- The tracepoints run as the logger says, none of an earlier start does, the counts of the strings are exact, and there is no
  -- string without a logger.
  pub record Consistent (s : System) : Type 0 where
    pub agrees : s.tracepoints ≡ all (enabled_flag s.logger)
    pub valid : IsValid s.allocations
    pub silent : All (λ t. t ≡ all false) s.earlier
    pub clean : s.logger ≡ none → (a : ℕ) → s.allocations.str_table.heap.text_at a ≡ none

  -- A call that leaves the tables, and a logger.
  still-Consistent :
      (s s' : System)
      → Consistent s
      → s'.tracepoints ≡ all (enabled_flag s'.logger)
      → s'.allocations ≡ s.allocations
      → s'.earlier ≡ s.earlier
      → (s'.logger ≡ none → ⊥)
      → Consistent s'
  still-Consistent s s' h q same same_earlier on = record {
    agrees = q;
    valid = rw same h.valid;
    silent = rw same_earlier h.silent;
    clean = λ n. absurd (on n);
  }

  -- What is left of a server that was stopped.
  abbrev pub stopped : System → Logger → Allocations → System
  stopped s l a = record s {
    tracepoints = if l.enabled then all false else s.tracepoints;
    messages = message_list_destroy s.messages;
    allocations = a;
    sockets = closed_sockets s.sockets;
    logger = none;
  }

  pub stop_stat_server_runs :
      (s : System) (l : Logger) (a : Allocations)
      → s.logger ≡ some l
      → clear_tables s.allocations ≡ ok a
      → Closable s.sockets
      → stop_stat_server s ≡ ok (stopped s l a)
  unfolding stop_stat_server
  stop_stat_server_runs s l a p q c = rw (p, q, close_sockets-ok s.sockets c) refl

  -- A pointer that was closed before is closed again.
  pub stop_stat_server-closed :
      (s : System) (l : Logger) (a : Allocations)
      → s.logger ≡ some l
      → clear_tables s.allocations ≡ ok a
      → (is_closed s.sockets.publisher || is_closed s.sockets.response_socket) ≡ true
      → stop_stat_server s ≡ fault
  unfolding stop_stat_server
  stop_stat_server-closed s l a p q c = rw (p, q, close_sockets-fault s.sockets c) refl

  stop_stat_server_fault : (s : System) → s.logger ≡ none → stop_stat_server s ≡ fault
  unfolding stop_stat_server
  stop_stat_server_fault s n = rw n refl

  started-Consistent :
      (s : System) (k : ServerSockets)
      → s.logger ≡ none
      → Consistent s
      → Consistent (after_binding true k s)
  unfolding start_logger create_gc_hooks get_trace_logger
  started-Consistent s k n h =
      let new = new_tables-Holds s.allocations.str_table.heap h.valid.positive (h.clean n) in
      record {
        agrees = rw n refl;
        valid = rw n new.valid;
        silent =
            let q : s.tracepoints ≡ all false = rw n at h.agrees in
            rw (n, q) (refl, (refl, h.silent));
        clean = rw n (λ e. cc e);
      }

  pub stopped-Consistent :
      (s : System) (l : Logger) (a : Allocations)
      → s.logger ≡ some l
      → Consistent s
      → ((addr : ℕ) → a.str_table.heap.text_at addr ≡ none)
      → Holds (λ obj. none) a
      → Consistent (stopped s l a)
  stopped-Consistent s l a p h gone new = record {
    agrees = ground (arith, p, h.agrees);
    valid = new.valid;
    silent = h.silent;
    clean = λ n. gone;
  }

  abbrev kept : {A : Type 0} → A → Outcome A → A
  kept d (ok a) = a
  kept d (raised x) = d
  kept d fault = d
  kept d out_of_fuel = d

  abbrev made : Outcome (Info × Allocations) → Allocations → Allocations
  made (ok (info, a)) d = a
  made (raised x) d = d
  made fault d = d
  made out_of_fuel d = d

  pub Step-Consistent : (s s' : System) → Step s s' → Consistent s → Consistent s'
  unfolding start_stat_tracing stop_stat_tracing rbkit_install_sampling_profiler
      rbkit_uninstall_sampling_profiler start_sampling_profiler stop_sampling_profiler fix2int
  Step-Consistent s s' (start_server b pub_port request_port true n e) h =
      let (k, q) = start_stat_server-after_binding b pub_port request_port s s' true e in
      subst Consistent (sym q) (started-Consistent s k n h)
  Step-Consistent s s' (start_server b pub_port request_port false n e) h =
      let (k, q) = start_stat_server-after_binding b pub_port request_port s s' false e in
      subst Consistent (sym q)
        (record { agrees = h.agrees; valid = h.valid; silent = h.silent; clean = h.clean })
  Step-Consistent s s' (start_tracing e) h =
      still-Consistent s s' h (ground (arith, e, h.agrees)) (ground (arith, e)) (ground (arith, e))
        (λ n. ground (arith, e, n))
  Step-Consistent s s' (stop_tracing e) h =
      still-Consistent s s' h (ground (arith, e, h.agrees)) (ground (arith, e)) (ground (arith, e))
        (λ n. ground (arith, e, n))
  Step-Consistent s s' (start_profiler none i e) h =
      still-Consistent s s' h (ground (arith, e, h.agrees)) (ground (arith, e)) (ground (arith, e))
        (λ n. ground (arith, e, n))
  Step-Consistent s s' (start_profiler (some c) i e) h =
      still-Consistent s s' h (ground (arith, e, h.agrees)) (ground (arith, e)) (ground (arith, e))
        (λ n. ground (arith, e, n))
  Step-Consistent s s' (stop_profiler e) h =
      still-Consistent s s' h (ground (arith, e, h.agrees)) (ground (arith, e)) (ground (arith, e))
        (λ n. ground (arith, e, n))
  Step-Consistent s s' (object_made arg info a on small few e) h =
      let (info', a', q, r) =
        new_rbkit_allocation_info-Recorded arg s.allocations h.valid few small in
      let same : a' ≡ a = ap (λ o. made o a) (sym q ∙ e) in
      record {
        agrees = h.agrees;
        valid = subst IsValid same r.valid;
        silent = h.silent;
        clean = λ n. absurd (ground (arith, n, on, h.agrees));
      }
  Step-Consistent s s' (object_freed obj a on few e) h =
      let (a', q, r) = delete_rbkit_allocation_info-Forgotten obj s.allocations h.valid few in
      let same : a' ≡ a = ap (kept a) (sym q ∙ e) in
      record {
        agrees = h.agrees;
        valid = subst IsValid same r.valid;
        silent = h.silent;
        clean = λ n. absurd (ground (arith, n, on, h.agrees));
      }
  Step-Consistent s s' (stop_server e) h = elim (Option-cases s.logger) [
    | inl n ↦ let f = stop_stat_server_fault s n in cc (f, e)
    | inr (l, p) ↦
        let (a, q, gone, new) = clear_tables-all_freed s.allocations h.valid in
        elim (Closable-cases s.sockets) [
          | inl c ↦
              let same : stopped s l a ≡ s' =
                ap (kept s') (sym (stop_stat_server_runs s l a p q c) ∙ e) in
              subst Consistent same (stopped-Consistent s l a p h gone new)
          | inr c ↦ let f = stop_stat_server-closed s l a p q c in cc (f, e)
        ]
  ]

  pub Reachable-Consistent : (s : System) → Reachable s → Consistent s
  unfolding new_tables
  Reachable-Consistent s (loaded c p k) = record {
    agrees = refl;
    valid = (new_tables-Holds _ (omega arith) (λ a. refl)).valid;
    silent = tt;
    clean = λ n a. refl;
  }
  Reachable-Consistent s (step {s = before} r x) =
      Step-Consistent before s x (Reachable-Consistent before r)
