-- ===== src/Library/StatsSent.antt =====
-- The statistics of the collector reach a client.
use rbkit.Prelude.{
  ℕ, ◌+◌, ◌*◌, ◌^◌, ◌<◌, ◌≡◌, refl, sym, ap, subst, ◌∙◌, if_true, lt→ltb, true, Option, none, some,
  List, [], ◌∷◌, ◌++◌, map, length, All, ascii, ok, ok-bind, arith,
}
use rbkit.Event.{CString, hash, new_rbkit_hash_event}
use rbkit.Event.Codes
use rbkit.Event.Codes.{code}
use rbkit.Aggregator.Grow.{Represents}
use rbkit.Allocation.{Info}
use rbkit.Allocation.Table.{StTable}
use rbkit.Allocation.Strings.{Shared}
use rbkit.Msgpack.{Msgpack}
use rbkit.Packer.Frames.{hash_frame}
use rbkit.Packer.HashFrames.{PackableValue, PackablePair}
use rbkit.Sampling.Signals.{Posix}
use rbkit.Server.{Server}
use rbkit.Server.Hooks.{Fits, Delivered, send_hash_as_event-Delivered}
use rbkit.Library.GcStats.{
  at_least, counts, VmStats, Stats, copied, same_key, stat, ruby_value, ruby_hash,
}
use rbkit.Library.StatsKeys.{
  pages_key, all_stats, IsKey, Documented, stat_sources, with_size, total_heap_size_lem,
}
use rbkit.Library.State.{is_set, Session, server_of, put_server}
use rbkit.Library.Dispatch.{LoopRound, send_gc_stats}
use rbkit.Library.Life.{Live}
use rbkit.Library.Invariant.{Live-Sound}

-- Numbers that are Fixnums on a 64-bit machine.
pub record IsSmall (vm : VmStats) (heap_size : ℕ) : Type 0 where
  pub values : (key : CString) (n : ℕ) → vm.gc_stat key ≡ some n → n < 2 ^ 62
  pub size : heap_size < 2 ^ 62
  pub memsize : vm.memsize_of_all < 2 ^ 62

abbrev some_or : ℕ → Option ℕ → ℕ
some_or d none = d
some_or d (some n) = n

some_injective : {a b : ℕ} → some a ≡ some b → a ≡ b
some_injective {a} e = ap (some_or a) e

module _ (D : Type 0) where
  small_value :
      (o : Option ℕ) → ((n : ℕ) → o ≡ some n → n < 2 ^ 62) → PackableValue {D = D} (ruby_value o)
  unfolding ruby_value
  small_value none h = (omega arith, refl)
  small_value (some n) h =
      let small = h n refl in
      subst (PackableValue {D = D}) (sym (if_true _ _ (lt→ltb n (2 ^ 62) small)))
        (omega (arith, small))

  copied-packable :
      (data_of : CString → Option ℕ) (keys : List (CString × CString)) (rest : Stats)
      → All IsKey keys
      → ((key : CString) (n : ℕ) → data_of key ≡ some n → n < 2 ^ 62)
      → All (PackablePair {D = D}) (ruby_hash rest)
      → All (PackablePair {D = D}) (ruby_hash (copied data_of keys ++ rest))
  unfolding copied ruby_hash
  copied-packable data_of [] rest k h r = r
  copied-packable data_of ((key, source) ∷ keys) rest (k, ks) h r =
      ((k, small_value (data_of source) (h source)), copied-packable data_of keys rest ks h r)

  length-ruby_hash :
      (data_of : CString → Option ℕ) (keys : List (CString × CString)) (rest : Stats)
      → length (ruby_hash {D = D} (copied data_of keys ++ rest))
        ≡ length keys + length (ruby_hash {D = D} rest)
  unfolding copied ruby_hash
  length-ruby_hash data_of [] rest = omega arith
  length-ruby_hash data_of ((key, source) ∷ keys) rest =
      omega (arith, length-ruby_hash data_of keys rest)

  all_stats-packable :
      (vm : VmStats) (sources : List (CString × CString)) (heap_size : ℕ)
      → All IsKey sources
      → IsSmall vm heap_size
      → All (PackablePair {D = D}) (ruby_hash (all_stats vm sources heap_size))
  unfolding ruby_hash
  all_stats-packable vm sources heap_size k h =
      copied-packable vm.gc_stat (map same_key counts ++ sources) _
        ((omega arith, refl), ((omega arith, refl), ((omega arith, refl), k))) h.values
        (
          (
            (omega arith, refl),
            small_value (some heap_size) (λ n e. subst (λ k. k < 2 ^ 62) (some_injective e) h.size),
          ),
          (
            (
              (omega arith, refl),
              small_value (some vm.memsize_of_all)
                  (λ n e. subst (λ k. k < 2 ^ 62) (some_injective e) h.memsize),
            ),
            tt,
          ),
        )

  few_stats :
      (vm : VmStats) (sources : List (CString × CString)) (heap_size : ℕ)
      → length sources ≡ 19
      → length (ruby_hash {D = D} (all_stats vm sources heap_size)) < 2 ^ 31
  unfolding ruby_hash
  few_stats vm sources heap_size e =
      omega (arith, e, length-ruby_hash vm.gc_stat (map same_key counts ++ sources) _)

module _ ⦃m : Msgpack⦄ ⦃os : Posix⦄ ⦃strings : StTable CString Shared⦄
    ⦃objects : StTable ℕ Info⦄ where
  -- The block of the timer for GC statistics, on a server that runs after any calls, with Ruby 2.1
  -- or above that has the two constants, numbers below 2 ^ 62, which are Fixnums, and at most 2 ^ 62
  -- bytes and messages queued then: it returns, and one gc_stats frame of the statistics is queued
  -- behind the other messages, with the keys that the comment of RbkitGC.stat lists.
  pub send_gc_stats-Delivered :
      (w : LoopRound) (s : Session) (messages : List (List ℕ)) (pages limit size : ℕ)
      → Live s
      → s.server_running ≡ true
      → Represents s.extension.system.messages messages
      → length messages < 2 ^ 62
      → at_least w.vm.ruby_version (ascii "2.1.0") ≡ true
      → w.vm.gc_stat (pages_key w.vm.ruby_version) ≡ some pages
      → w.vm.heap_obj_limit ≡ some limit
      → w.vm.rvalue_size ≡ some size
      → IsSmall w.vm (pages * limit * size)
      → ((stats : Stats)
          → stat w.vm ≡ ok stats
          → Fits w.surroundings.tv
              (hash (new_rbkit_hash_event (code Codes.gc_stats) (ruby_hash stats)))
              (server_of s)
              messages)
      → (stats : Stats) × (v : Server) × Documented w.vm (pages * limit * size) stats
        × (send_gc_stats w s ≡ ok (put_server v s))
        × Delivered
            (server_of s)
            messages
            (hash_frame w.surroundings.tv Codes.gc_stats (ruby_hash stats))
            v
  unfolding send_gc_stats server_of
  send_gc_stats-Delivered w s messages pages limit size live on r few new_enough p l z small fits =
      let (sources, keys, count, e₀, d) = stat_sources w.vm pages new_enough p in
      let heap_size = pages * limit * size in
      let e : stat w.vm ≡ ok (all_stats w.vm sources heap_size) =
        e₀ ∙ ap (with_size w.vm sources) (total_heap_size_lem w.vm pages limit size l z) in
      let stats = all_stats w.vm sources heap_size in
      let logged : is_set s.extension.system.logger ≡ true = sym (Live-Sound s live).running ∙ on in
      let (v, q, sent) =
        send_hash_as_event-Delivered w.surroundings.tv (server_of s) messages r few Codes.gc_stats
          (ruby_hash stats) logged tt
          (all_stats-packable m.Double w.vm sources heap_size keys small)
          (few_stats m.Double w.vm sources heap_size count) (fits stats e) in
      (
        stats,
        v,
        d heap_size,
        ok-bind (stat w.vm) _ stats e ∙ ok-bind _ (λ p'. ok (put_server p'.1 s)) (true, v) q,
        sent,
      )
