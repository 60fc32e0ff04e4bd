-- ===== src/Server/Dump/Whole.antt =====
-- `send_objectspace_dump` from the Ruby heap to the queue.
use rbkit.Prelude.{
  ℕ, ◌+◌, ◌^◌, ◌<◌, ◌≤◌, ◌≡◌, ◌≢◌, refl, ap, ◌∙◌, sym, Option, none, List, [], ◌∷◌, ◌++◌, length,
  flatten, drop, All, ok, arith, length-append, ◌==◌, ==_iff, Bool-cases, inl, inr, ltb, fault,
}
use rbkit.Time.{Timeval}
use rbkit.Event.{AllocationInfo, ObjectSpaceDumpEvent}
use rbkit.Aggregator.Grow.{Represents}
use rbkit.ObjectGraph.{ObjectDump, RubyObject, get_object_dump}
use rbkit.ObjectGraph.Pages.{ObjectData, Page, Heap, write, free}
use rbkit.ObjectGraph.Pages.Laws.{free-some, page_at-write_self, page_at-write_ne}
use rbkit.ObjectGraph.Shape.{IsFresh}
use rbkit.ObjectGraph.Collect.{dumped, get_object_dump-Built, get_object_dump_nothing}
use rbkit.Msgpack.{Msgpack}
use rbkit.Packer.Dump.{max_object_dumps_in_message}
use rbkit.Packer.Cursor.{Cursor, remaining}
use rbkit.Packer.DumpObjects.{PackableObject}
use rbkit.Packer.DumpCalls.{Pending}
use rbkit.Packer.Frames.{Object}
use rbkit.Collection.Batch.{Readable}
use rbkit.Server.{Server}
use rbkit.Server.Dump.{
  read_count, new_rbkit_object_space_dump_event, send_batches, send_objectspace_dump,
}
use rbkit.Server.Dump.Start.{started, new_rbkit_object_space_dump_event-Built, started-Pending}
use rbkit.Server.Dump.Batches.{
  in_batches, flatten-in_batches, in_batches_small, batch_messages, batch_frames,
  batch_messages-Readable,
}
use rbkit.Server.Dump.Loop.{send_batches-Pending}

module _ (old : Heap) (fresh : IsFresh old) (e : ObjectSpaceDumpEvent) (h : Heap) where
  elsewhere :
      (page : Page)
      → Cursor old e h page []
      → (a : ℕ) → a ≢ e.current_page
      → h.page_at a ≡ old.page_at a
  elsewhere page c a ne = elim (Bool-cases (ltb a old.fresh)) [
    | inl before ↦ c.kept a (ground (arith, before))
    | inr from ↦ elim (Bool-cases (ltb a e.current_page)) [
      | inl walked ↦
          let le : old.fresh ≤ a = ground (arith, from) in
          c.freed a le (ground (arith, walked)) ∙ sym (fresh.unused a le)
      | inr behind ↦
          let le : old.fresh ≤ a = ground (arith, from) in
          let lt : e.current_page + 0 < a = ground (arith, behind, ne) in
          c.unused a lt ∙ sym (fresh.unused a le)
    ]
  ]

  page_at-last :
      (page : Page) (later : List (List ObjectData))
      → Cursor old e h page later
      → [] ≡ remaining e page later
      → (a : ℕ) → (write h e.current_page none).page_at a ≡ old.page_at a
  page_at-last page ([] ∷ later) c left a = absurd (omega (arith, c.after.5))
  page_at-last page ((d ∷ ds) ∷ later) c left a = absurd (
      omega (
        arith,
        ap length left,
        length-append (drop e.current_page_index page.slots) ((d ∷ ds) ++ flatten later),
      ))
  page_at-last page [] c left a = elim (Bool-cases (a == e.current_page)) [
    | inl same ↦
        let e₁ : a ≡ e.current_page = (==_iff _ _).0 same in
        rw e₁ (page_at-write_self h e.current_page none ∙ sym (fresh.unused e.current_page c.base))
    | inr other ↦
        let ne : a ≢ e.current_page = ground (arith, other) in
        page_at-write_ne h e.current_page a none ne ∙ elsewhere page c a ne
  ]

  -- When nothing is left, the page at the cursor is the only one of the dump that is still there.
  free-Pending :
      Pending old e h []
      → (free h e.current_page ≡ ok (write h e.current_page none))
        × ((a : ℕ) → (write h e.current_page none).page_at a ≡ old.page_at a)
  free-Pending p = (
    free-some h e.current_page p.at.page p.at.cursor.positive p.at.cursor.at_page,
    page_at-last p.at.page p.at.later p.at.cursor p.at.left,
  )

module _ ⦃m : Msgpack⦄ (clock : ℕ → Timeval) (table : ℕ → Option AllocationInfo)
    (ranges : List (List RubyObject)) (s : Server) where
  abbrev batches : List (List ObjectData)
  batches =
      in_batches max_object_dumps_in_message (length (dumped table (flatten ranges)))
        (dumped table (flatten ranges))

  -- The messages of the dump and the frames that a client reads.
  abbrev pub dump_messages : List (List ℕ)
  dump_messages =
      batch_messages clock (s.last_correlation_id + 1) (length (dumped table (flatten ranges))) 0
        batches

  abbrev pub dump_frames : List Object
  dump_frames =
      batch_frames clock (s.last_correlation_id + 1) (length (dumped table (flatten ranges))) 0
        batches

  -- `s'` is `s` with the dump queued behind `messages`, and nothing else changed.
  pub record DumpSent (messages : List (List ℕ)) (s' : Server) : Type 0 where
    pub represents : Represents s'.messages (messages ++ dump_messages)
    pub readable : Readable dump_messages dump_frames
    pub complete : flatten batches ≡ dumped table (flatten ranges)
    pub bounded : All (λ b. length b ≤ max_object_dumps_in_message) batches
    pub freed : (a : ℕ) → s'.packer.heap.page_at a ≡ s.packer.heap.page_at a
    pub correlation_lem : s'.last_correlation_id ≡ s.last_correlation_id + 1
    pub same_counter : s'.packer.counter ≡ s.packer.counter
    pub same_channels : s'.channels ≡ s.channels

  -- The calls of `send_objectspace_dump` in a row.
  send_objectspace_dump_lem :
      (d : ObjectDump) (h h' : Heap) (e e' : ObjectSpaceDumpEvent) (correlation : ℕ) (s' : Server)
      → get_object_dump table ranges s.packer.heap ≡ ok (d, h)
      → new_rbkit_object_space_dump_event s.last_correlation_id d ≡ ok (e, correlation)
      → send_batches e.object_count clock 0 e
          (record s { last_correlation_id = correlation; packer = record s.packer { heap = h } })
        ≡ ok (e', s')
      → free s'.packer.heap e'.current_page ≡ ok h'
      → send_objectspace_dump clock table ranges s
        ≡ ok (record s' { packer = record s'.packer { heap = h' } })
  unfolding send_objectspace_dump
  send_objectspace_dump_lem d h h' e e' correlation s' p q r f = rw (p, q, r, f) refl

  -- If there is an object to dump, each can be packed, the correlation id stays an int, and at most
  -- 2 ^ 62 bytes and messages are queued then, a dump ends without a fault. It queues messages of
  -- at most 1000 objects, which a client reads as object space dump frames with the next
  -- correlation id and the number of objects; in order, they hold every dumped object of the Ruby
  -- heap once. Every page that was allocated is freed, and no other has changed.
  pub send_objectspace_dump-DumpSent :
      (messages : List (List ℕ))
      → IsFresh s.packer.heap
      → Represents s.messages messages
      → 0 < length (dumped table (flatten ranges))
      → All PackableObject (dumped table (flatten ranges))
      → s.last_correlation_id + 1 < 2 ^ 31
      → length (flatten messages) + length (flatten dump_messages) ≤ 2 ^ 62
      → length messages + length (dumped table (flatten ranges)) ≤ 2 ^ 62
      → (s' : Server) × (send_objectspace_dump clock table ranges s ≡ ok s') × DumpSent messages s'
  send_objectspace_dump-DumpSent messages fresh r some_objects packable small bytes few =
      let objects = dumped table (flatten ranges) in
      let next = s.last_correlation_id + 1 in
      let old = s.packer.heap in
      let n : length objects < 2 ^ 64 = omega (arith, few) in
      let ((d, h), g, b) = get_object_dump-Built table old fresh ranges some_objects in
      let e = started s.last_correlation_id d (length objects) in
      let (e', s', q, w) =
        send_batches-Pending old (length objects) clock 0 next (length objects) e
          (record s { last_correlation_id = next; packer = record s.packer { heap = h } }) messages
          objects refl refl (omega arith)
          (started-Pending old fresh s.last_correlation_id d h objects b n small) packable r bytes
          few in
      let (f, same) = free-Pending old fresh e' s'.packer.heap w.pending in
      (
        record s' {
          packer = record s'.packer { heap = write s'.packer.heap e'.current_page none };
        },
        send_objectspace_dump_lem d h _ e e' next s' g
            (new_rbkit_object_space_dump_event-Built old fresh s.last_correlation_id d h objects b
              small)
            q f,
        record {
          represents = w.represents;
          readable =
              batch_messages-Readable clock next (length objects) max_object_dumps_in_message
                (length objects) 0 objects (omega arith) packable small n;
          complete =
              flatten-in_batches max_object_dumps_in_message (length objects) objects (omega arith)
                (omega arith);
          bounded = in_batches_small max_object_dumps_in_message (length objects) objects;
          freed = same;
          correlation_lem = w.same_correlation;
          same_counter = w.same_counter;
          same_channels = w.same_channels;
        },
      )

  -- With nothing to dump, `send_objectspace_dump` reads a count that was never set.
  send_objectspace_dump_nothing :
      IsFresh s.packer.heap
      → dumped table (flatten ranges) ≡ []
      → send_objectspace_dump clock table ranges s ≡ fault
  unfolding send_objectspace_dump new_rbkit_object_space_dump_event read_count
  send_objectspace_dump_nothing fresh none_dumped =
      rw (get_object_dump_nothing table s.packer.heap fresh ranges none_dumped) refl
