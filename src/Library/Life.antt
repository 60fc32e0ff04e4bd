-- ===== src/Library/Life.antt =====
-- The calls of a Ruby program, the rounds of the dispatch loop and what the Ruby VM does, as steps
-- of a server of lib/rbkit/server.rb.
use rbkit.Prelude.{
  ℕ, ◌^◌, ◌<◌, ℤ, ◌≡◌, Bool, true, false, none, some, List, [], ◌∷◌, length, ascii, ok,
}
use rbkit.Time.{Timeval}
use rbkit.Event.{CString}
use rbkit.Allocation.{Info}
use rbkit.Allocation.Table.{StTable}
use rbkit.Allocation.Strings.{Shared}
use rbkit.Msgpack.{Msgpack}
use rbkit.Sampling.Signals.{Posix}
use rbkit.Server.{trigger_publish_callback, queue_cpu_sample_for_sending}
use rbkit.Event.{CpuSample}
use rbkit.Tracing.Steps.{Reachable}
use rbkit.Library.Names.{Name, symbol, is_sampling}
use rbkit.Library.Sound.{sampling_flag}
use rbkit.Library.State.{Extension, Session, on_server}
use rbkit.Library.Methods.{
  StartOptions, initialize, start, stop, start_cpu_profiling, stop_cpu_profiling,
}
use rbkit.Library.Answers.{
  VmEvent, object_made, object_freed, vm_event, Surroundings, process_incoming_request,
}
use rbkit.Library.Dispatch.{LoopRound, dispatch_round}

module _ ⦃m : Msgpack⦄ ⦃os : Posix⦄ ⦃strings : StTable CString Shared⦄
    ⦃objects : StTable ℕ Info⦄ where
  abbrev pub FewObjects : Session → Type 0
  FewObjects s = length (objects.entries s.extension.system.allocations.object_table) < 2 ^ 62

  -- Fewer than 2 ^ 62 objects are known, and the line of a new object fits an int.
  abbrev pub Bounded : VmEvent → Session → Type 0
  Bounded (object_made o) s = (o.trace.line < 2 ^ 31) × FewObjects s
  Bounded (object_freed obj id) s = FewObjects s
  Bounded _ s = Unit

  abbrev pub AllBounded : Timeval → List VmEvent → Session → Type 0
  AllBounded tv [] s = Unit
  AllBounded tv (e ∷ es) s =
      Bounded e s × ((s' : Session) → vm_event tv e s ≡ ok s' → AllBounded tv es s')

  -- The calls that return. start_cpu_profiling is called with the mode `sampling`, or with another
  -- mode while nothing is sampled.
  pub data SessionStep : Session → Session → Type 0 where
    start_called :
        {s s' : Session} (zmq_bind : List ℕ → Bool) (o : StartOptions) (started : Bool)
        → start zmq_bind o s ≡ ok (started, s')
        → SessionStep s s'
    stop_called : {s s' : Session} (stopped : Bool) → stop s ≡ ok (stopped, s') → SessionStep s s'
    profiling_started :
        {s s' : Session} (clock_type : Name) (interval : ℤ)
        → start_cpu_profiling (symbol (ascii "sampling")) clock_type interval s ≡ ok s'
        → SessionStep s s'
    other_mode_set :
        {s s' : Session} (mode clock_type : Name) (interval : ℤ)
        → is_sampling mode ≡ false
        → sampling_flag s.extension.system.logger ≡ false
        → start_cpu_profiling mode clock_type interval s ≡ ok s'
        → SessionStep s s'
    profiling_stopped : {s s' : Session} → stop_cpu_profiling s ≡ ok s' → SessionStep s s'
    requested :
        {s s' : Session} (w : Surroundings) (request : CString)
        → AllBounded w.tv w.collected s
        → process_incoming_request w request s ≡ ok s'
        → SessionStep s s'
    round_done :
        {s s' : Session} (w : LoopRound)
        → AllBounded w.surroundings.tv w.surroundings.collected s
        → dispatch_round w s ≡ ok (some s')
        → SessionStep s s'
    vm_event_seen :
        {s s' : Session} (tv : Timeval) (e : VmEvent)
        → Bounded e s
        → vm_event tv e s ≡ ok s'
        → SessionStep s s'
    job_run :
        {s s' : Session} (tv : Timeval)
        → on_server (trigger_publish_callback tv) s ≡ ok s'
        → SessionStep s s'
    sample_taken :
        {s s' : Session} (tv : Timeval) (taken : CpuSample)
        → on_server (queue_cpu_sample_for_sending tv taken) s ≡ ok s'
        → SessionStep s s'

  -- What the steps make of a server.
  pub data Lives (s : Session) : Session → Type 0 where
    here : Lives s s
    next : {s' s'' : Session} → Lives s s' → SessionStep s' s'' → Lives s s''

  -- A server that was made when there was no logger, or for one that was stopped, after any steps.
  pub data Live : Session → Type 0 where
    made :
        {s : Session} (x : Extension) (pub_port request_port : ℤ) (now : ℕ)
        → Reachable x.system
        → x.system.logger ≡ none
        → initialize pub_port request_port now x ≡ ok s
        → Live s
    replaced :
        {s s' s'' : Session} (pub_port request_port : ℤ) (now : ℕ)
        → Live s
        → stop s ≡ ok (true, s')
        → initialize pub_port request_port now s'.extension ≡ ok s''
        → Live s''
    lived : {s s' : Session} → Live s → SessionStep s s' → Live s'
