-- ===== src/Server/Dump/Loop.antt =====
-- The loop that sends a dump.
use rbkit.Prelude.{
  ℕ, zero, suc, ◌+◌, ◌^◌, ◌<◌, ◌≤◌, ◌≡◌, refl, ap, ◌∙◌, sym, List, [], ◌∷◌, ◌++◌, length, flatten,
  take, drop, All, ok, arith, append_assoc, append-nil, length-drop, length-append, flatten-append,
  ltb, true, subst,
}
use rbkit.Time.{Timeval}
use rbkit.Event.{ObjectSpaceDumpEvent, dump}
use rbkit.Aggregator.Grow.{Represents}
use rbkit.ObjectGraph.Pages.{ObjectData, Heap}
use rbkit.Msgpack.{Msgpack}
use rbkit.Msgpack.Reader.{wire}
use rbkit.Packer.{Packed, contents, pack_event, as_dump}
use rbkit.Packer.Dump.{max_object_dumps_in_message}
use rbkit.Packer.DumpObjects.{PackableObject}
use rbkit.Packer.Walk.{Advanced}
use rbkit.Packer.DumpCalls.{Pending, dump_calls}
use rbkit.Packer.DumpFrames.{Sent, pack_event-object_space_dump}
use rbkit.Server.{Server, send_message}
use rbkit.Server.Publish.{Queued, send_message-Represents}
use rbkit.Server.Dump.{send_batch, send_batches}
use rbkit.Server.Dump.Batches.{in_batches, batch_messages}

All-drop : (n : ℕ) (ds : List ObjectData) → All PackableObject ds → All PackableObject (drop n ds)
All-drop zero ds h = h
All-drop (suc n) [] h = h
All-drop (suc n) (d ∷ ds) h = All-drop n ds h.1

module _ ⦃m : Msgpack⦄ (old : Heap) where
  -- One round sends the message `buffer`: `e'` is left before `back`.
  record Round (n : ℕ) (e : ObjectSpaceDumpEvent) (s : Server) (messages : List (List ℕ))
      (buffer : List ℕ) (back : List ObjectData) (e' : ObjectSpaceDumpEvent) (s' : Server)
      : Type 0 where
    pending : Pending old e' s'.packer.heap back
    advanced : Advanced n e e'
    represents : Represents s'.messages (messages ++ buffer ∷ [])
    same_correlation : s'.last_correlation_id ≡ s.last_correlation_id
    same_channels : s'.channels ≡ s.channels
    same_counter : s'.packer.counter ≡ s.packer.counter

  Round-Queued :
      (tv : Timeval) (e : ObjectSpaceDumpEvent) (s s' : Server) (messages : List (List ℕ))
      (front back : List ObjectData) (q : Packed) (sent : Sent tv old e s.packer front back q)
      → Queued (record s { packer = q.state }) messages (contents q) s'
      → Round (length front) e s messages (contents q) back sent.event' s'
  Round-Queued tv e s s' messages front back q sent queued = record {
    pending =
        subst (λ x. Pending old sent.event' x.heap back) (sym queued.same_packer) sent.pending;
    advanced = sent.advanced;
    represents = queued.represents;
    same_correlation = queued.same_correlation;
    same_channels = queued.same_channels;
    same_counter = ap (λ x. x.counter) queued.same_packer ∙ sent.counter_lem;
  }

  send_batch_lem :
      (tv : Timeval) (e e' : ObjectSpaceDumpEvent) (s s' : Server) (q : Packed)
      → pack_event tv (dump e) s.packer ≡ ok q
      → q.event ≡ dump e'
      → send_message (contents q) (record s { packer = q.state }) ≡ ok s'
      → send_batch tv e s ≡ ok (e', s')
  unfolding send_batch as_dump
  send_batch_lem tv e e' s s' q packs event sends = rw (packs, event, sends) refl

  send_batch-Sent :
      (tv : Timeval) (e : ObjectSpaceDumpEvent) (s : Server) (messages : List (List ℕ))
      (front back : List ObjectData) (q : Packed)
      → pack_event tv (dump e) s.packer ≡ ok q
      → Sent tv old e s.packer front back q
      → Represents s.messages messages
      → length (flatten messages) + length (contents q) ≤ 2 ^ 62
      → length messages < 2 ^ 62
      → (e' : ObjectSpaceDumpEvent) × (s' : Server) × (send_batch tv e s ≡ ok (e', s'))
        × Round (length front) e s messages (contents q) back e' s'
  send_batch-Sent tv e s messages front back q packs sent r small few =
      let (s', sends, queued) =
        send_message-Represents (record s { packer = q.state }) messages (contents q) r
          (omega (arith, r.used)) few in
      (
        sent.event',
        s',
        send_batch_lem tv e sent.event' s s' q packs sent.event_lem sends,
        Round-Queued tv e s s' messages front back q sent queued,
      )

  -- The loop has sent the messages `sent` and left the event with nothing to pack.
  pub record Walked (e : ObjectSpaceDumpEvent) (s : Server) (messages sent : List (List ℕ))
      (e' : ObjectSpaceDumpEvent) (s' : Server) : Type 0 where
    pub pending : Pending old e' s'.packer.heap []
    pub represents : Represents s'.messages (messages ++ sent)
    pub same_correlation : s'.last_correlation_id ≡ s.last_correlation_id
    pub same_channels : s'.channels ≡ s.channels
    pub same_counter : s'.packer.counter ≡ s.packer.counter

  send_batches_done :
      (fuel : ℕ) (clock : ℕ → Timeval) (k : ℕ) (e : ObjectSpaceDumpEvent) (s : Server)
      → Pending old e s.packer.heap []
      → send_batches fuel clock k e s ≡ ok (e, s)
  unfolding send_batches
  send_batches_done zero clock k e s p = ground (arith, p.counted)
  send_batches_done (suc fuel) clock k e s p = ground (arith, p.counted)

  send_batches_more :
      (fuel : ℕ) (clock : ℕ → Timeval) (k : ℕ) (e e' e'' : ObjectSpaceDumpEvent) (s s' s'' : Server)
      (d : ObjectData) (ds : List ObjectData)
      → Pending old e s.packer.heap (d ∷ ds)
      → send_batch (clock k) e s ≡ ok (e', s')
      → send_batches fuel clock (k + 1) e' s' ≡ ok (e'', s'')
      → send_batches (suc fuel) clock k e s ≡ ok (e'', s'')
  unfolding send_batches
  send_batches_more fuel clock k e e' e'' s s' s'' d ds p q r =
      let lt : ltb e.packed_objects e.object_count ≡ true = ground (arith, p.counted) in
      rw (lt, q, r) refl

  -- What follows a round, walked from behind it.
  Walked-Round :
      (n : ℕ) (e e' e'' : ObjectSpaceDumpEvent) (s s' s'' : Server) (messages sent : List (List ℕ))
      (buffer : List ℕ) (back : List ObjectData)
      → Round n e s messages buffer back e' s'
      → Walked e' s' (messages ++ buffer ∷ []) sent e'' s''
      → Walked e s messages (buffer ∷ sent) e'' s''
  Walked-Round n e e' e'' s s' s'' messages sent buffer back r w = record {
    pending = w.pending;
    represents = rw (← append_assoc messages (buffer ∷ []) sent) w.represents;
    same_correlation = w.same_correlation ∙ r.same_correlation;
    same_channels = w.same_channels ∙ r.same_channels;
    same_counter = w.same_counter ∙ r.same_counter;
  }

  length-flatten_snoc :
      (xss : List (List ℕ)) (xs : List ℕ)
      → length (flatten (xss ++ xs ∷ [])) ≡ length (flatten xss) + length xs
  length-flatten_snoc xss xs =
      rw (flatten-append xss (xs ∷ []), append-nil xs) (length-append (flatten xss) xs)

  -- With fuel for every object left, objects that can be packed, and at most 2 ^ 62 bytes and
  -- messages queued then, the loop ends without a fault. It queues the messages of the batches of
  -- 1000 objects, behind those that were queued, and leaves the event with nothing to pack.
  pub send_batches-Pending :
      (fuel : ℕ) (clock : ℕ → Timeval) (k correlation count : ℕ) (e : ObjectSpaceDumpEvent)
      (s : Server) (messages : List (List ℕ)) (objects : List ObjectData)
      → e.correlation_id ≡ correlation
      → e.object_count ≡ count
      → length objects ≤ fuel
      → Pending old e s.packer.heap objects
      → All PackableObject objects
      → Represents s.messages messages
      → let sent =
          batch_messages clock correlation count k
            (in_batches max_object_dumps_in_message fuel objects) in
        length (flatten messages) + length (flatten sent) ≤ 2 ^ 62
        → length messages + length objects ≤ 2 ^ 62
        → (e' : ObjectSpaceDumpEvent) × (s' : Server) × (send_batches fuel clock k e s
            ≡ ok (e', s'))
          × Walked e s messages sent e' s'
  send_batches-Pending zero clock k correlation count e s messages [] c n f p h r small few = (
    e,
    s,
    send_batches_done zero clock k e s p,
    record {
      pending = p;
      represents = rw (append-nil messages) r;
      same_correlation = refl;
      same_channels = refl;
      same_counter = refl;
    },
  )
  send_batches-Pending zero clock k correlation count e s messages (d ∷ ds) c n f p h r small few =
      absurd (omega arith)
  send_batches-Pending (suc fuel) clock k correlation count e s messages [] c n f p h r small few =
      (
        e,
        s,
        send_batches_done (suc fuel) clock k e s p,
        record {
          pending = p;
          represents = rw (append-nil messages) r;
          same_correlation = refl;
          same_channels = refl;
          same_counter = refl;
        },
      )
  send_batches-Pending (suc fuel) clock k correlation count e s messages (d ∷ ds) c n f p h r small
        few =
      let b = max_object_dumps_in_message in
      let (q, packs, sent) = pack_event-object_space_dump (clock k) old e s.packer (d ∷ ds) p h in
      let buffer = wire (dump_calls (clock k) correlation count (take b (d ∷ ds))) [] in
      let others =
        batch_messages clock correlation count (k + 1) (in_batches b fuel (drop b (d ∷ ds))) in
      let same : contents q ≡ buffer = rw (← c, ← n) sent.contents_lem in
      let total : length (flatten messages) + (length (contents q) + length (flatten others))
          ≤ 2 ^ 62 =
        omega (arith, small, ap length same, length-append buffer (flatten others)) in
      let (e₁, s₁, x, round) =
        send_batch-Sent (clock k) e s messages (take b (d ∷ ds)) (drop b (d ∷ ds)) q packs sent r
          (omega (arith, total)) (omega arith) in
      let (e', s', y, w) =
        send_batches-Pending fuel clock (k + 1) correlation count e₁ s₁
          (messages ++ contents q ∷ []) (drop b (d ∷ ds)) (round.advanced.same_correlation ∙ c)
          (round.advanced.same_count ∙ n) (omega (arith, length-drop b (d ∷ ds))) round.pending
          (All-drop b (d ∷ ds) h) round.represents
          (omega (arith, total, length-flatten_snoc messages (contents q)))
          (omega (arith, length-append messages (contents q ∷ []), length-drop b (d ∷ ds))) in
      (
        e',
        s',
        send_batches_more fuel clock k e e₁ e' s s₁ s' d ds p x y,
        subst (λ x. Walked e s messages (x ∷ others) e' s') same
            (Walked-Round _ e e₁ e' s s₁ s' messages others (contents q) (drop b (d ∷ ds)) round w),
      )
