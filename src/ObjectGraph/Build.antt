-- ===== src/ObjectGraph/Build.antt =====
-- `dump_heap_object`: one more object goes behind those that are there, on a new page if need be.
use rbkit.Prelude.{
  ℕ, ◌+◌, ◌≤◌, ◌<◌, ◌≡◌, refl, sym, ◌∙◌, inl, inr, Option, none, some, List, [], ◌∷◌, ◌++◌, length,
  flatten, ◌==◌, ==_iff, Bool-cases, Outcome, ok, ◌>>=◌, arith, length-append, append_assoc,
  append-nil, flatten-append,
}
use rbkit.Event.{AllocationInfo}
use rbkit.ObjectGraph.Pages.{
  page_size, ObjectData, Page, Heap, write, load, set_slot, rbkit_object_dump_page_new,
}
use rbkit.ObjectGraph.Pages.Laws.{
  fresh-write, page_at-write_self, page_at-write_ne, load-some, set_slot_new,
}
use rbkit.ObjectGraph.Shape.{page_of, Linked, Linked-same, Linked-snoc, IsFresh, Built}
use rbkit.ObjectGraph.{
  add_one, ObjectDump, RubyObject, initialize_object_data, object_data, dump_heap_object,
}

-- As `Built`, with room in the last page, which may be empty.
record Ready (old : Heap) (s : ObjectDump × Heap) (objects : List ObjectData) : Type 0 where
  full : List (List ObjectData)
  last : List ObjectData
  split : objects ≡ flatten full ++ last
  linked : Linked s.1.page_at old.fresh full
  at_last : s.1.page_at (old.fresh + length full) ≡ some (page_of last 0)
  room : length last < page_size
  first_lem : s.0.first ≡ old.fresh
  last_lem : s.0.last ≡ old.fresh + length full
  fresh_lem : s.1.fresh ≡ old.fresh + length full + 1
  objects_counted : s.0.object_count ≡ some (length objects)
  pages_counted : s.0.page_count ≡ some (length full + 1)
  kept : (b : ℕ) → b < old.fresh → s.1.page_at b ≡ old.page_at b
  unused : (b : ℕ) → s.1.fresh ≤ b → s.1.page_at b ≡ none

module _ (old : Heap) (f : IsFresh old) where
  -- The first object makes the first page.
  initialize_first :
      (dump : ObjectDump)
      → dump.first ≡ 0
      → (s : ObjectDump × Heap) × (initialize_object_data dump old ≡ ok s) × Ready old s []
  unfolding initialize_object_data write
  initialize_first dump e = (
    (
      record { page_count = some 1; object_count = some 0; first = old.fresh; last = old.fresh },
      (rbkit_object_dump_page_new old).1,
    ),
    rw e,
    record {
      full = [];
      last = [];
      split = refl;
      linked = tt;
      at_last = ground arith;
      room = omega arith;
      first_lem = refl;
      last_lem = omega arith;
      fresh_lem = omega arith;
      objects_counted = refl;
      pages_counted = ground arith;
      kept = λ b lt. ground arith;
      unused = λ b le. ground (arith, f.unused b);
    },
  )

  module _ (dump : ObjectDump) (h : Heap) (objects : List ObjectData)
      (built : Built old (dump, h) objects) where
    load_last : load h dump.last ≡ ok (page_of built.last 0)
    load_last = rw built.last_lem (
        load-some h (old.fresh + length built.full) (page_of built.last 0)
          (omega (arith, f.positive)) built.at_last)

    -- A last page that is not full is used on.
    initialize_same :
        length built.last < page_size
        → (initialize_object_data dump h ≡ ok (dump, h)) × Ready old (dump, h) objects
    unfolding initialize_object_data
    initialize_same room = (
      ground (arith, load_last, built.first_lem, f.positive),
      record {
        full = built.full;
        last = built.last;
        split = built.split;
        linked = built.linked;
        at_last = built.at_last;
        room = room;
        first_lem = built.first_lem;
        last_lem = built.last_lem;
        fresh_lem = built.fresh_lem;
        objects_counted = built.objects_counted;
        pages_counted = built.pages_counted;
        kept = built.kept;
        unused = built.unused;
      },
    )

    -- A full last page is linked to a new one.
    initialize_next :
        length built.last ≡ page_size
        → (s : ObjectDump × Heap) × (initialize_object_data dump h ≡ ok s) × Ready old s objects
    unfolding initialize_object_data write
    initialize_next full = (
      (
        record dump { page_count = some (length built.full + 2); last = h.fresh },
        write (rbkit_object_dump_page_new h).1 dump.last (some (page_of built.last h.fresh)),
      ),
      ground (arith, load_last, built.first_lem, f.positive, built.pages_counted),
      record {
        full = built.full ++ built.last ∷ [];
        last = [];
        split = built.split ∙ simp (flatten-append, append-nil);
        linked =
            Linked-snoc _ old.fresh dump.last built.full built.last (sym built.last_lem)
              (Linked-same h.page_at _ old.fresh built.full
                (λ b lt. ground (arith, built.last_lem, built.fresh_lem)) built.linked)
              (ground (arith, built.last_lem, built.fresh_lem)) full;
        at_last =
            ground
              (arith, length-append built.full (built.last ∷ []), built.last_lem, built.fresh_lem);
        room = omega arith;
        first_lem = built.first_lem;
        last_lem = omega (arith, built.fresh_lem, length-append built.full (built.last ∷ []));
        fresh_lem = omega (arith, built.fresh_lem, length-append built.full (built.last ∷ []));
        objects_counted = built.objects_counted;
        pages_counted = ground (arith, length-append built.full (built.last ∷ []));
        kept = λ b lt. ground (arith, built.kept b, built.last_lem, built.fresh_lem);
        unused = λ b le. ground (arith, built.unused b, built.last_lem, built.fresh_lem);
      },
    )

  -- The object goes into the free slot.
  module _ (dump : ObjectDump) (h : Heap) (objects : List ObjectData)
      (ready : Ready old (dump, h) objects) (d : ObjectData) where
    abbrev filled : ObjectDump × Heap
    filled = (
      record dump { object_count = some (length objects + 1) },
      write h dump.last (some (page_of (ready.last ++ d ∷ []) 0)),
    )

    filled-Built : Built old filled (objects ++ d ∷ [])
    filled-Built = record {
      full = ready.full;
      last = ready.last ++ d ∷ [];
      split = rw ready.split (append_assoc (flatten ready.full) ready.last (d ∷ []));
      linked =
          Linked-same h.page_at _ old.fresh ready.full
            (λ b lt. page_at-write_ne h dump.last b _ (omega (arith, ready.last_lem))) ready.linked;
      at_last = rw (← ready.last_lem) (page_at-write_self h dump.last _);
      not_empty = omega (arith, length-append ready.last (d ∷ []));
      fits = omega (arith, length-append ready.last (d ∷ []), ready.room);
      first_lem = ready.first_lem;
      last_lem = ready.last_lem;
      fresh_lem = fresh-write h dump.last _ ∙ ready.fresh_lem;
      objects_counted = ground (arith, length-append objects (d ∷ []));
      pages_counted = ready.pages_counted;
      kept = λ b lt.
          page_at-write_ne h dump.last b _ (omega (arith, ready.last_lem)) ∙ ready.kept b lt;
      unused = λ b le.
          let above : h.fresh ≤ b = rw fresh-write at le in
          page_at-write_ne h dump.last b _ (omega (arith, above, ready.last_lem, ready.fresh_lem))
          ∙ ready.unused b above;
    }

    abbrev finish : Page → Outcome (ObjectDump × Heap)
    finish page' = ok (
      record dump { object_count = add_one dump.object_count },
      write h dump.last (some (record page' { count = page'.count + 1 })),
    )

    fill :
        (do page ← load h dump.last; page' ← set_slot page page.count d; finish page') ≡ ok filled
    fill =
        let loaded : load h dump.last ≡ ok (page_of ready.last 0) = rw ready.last_lem (
          load-some h (old.fresh + length ready.full) (page_of ready.last 0)
            (omega (arith, f.positive)) ready.at_last) in
        let grown : length ready.last + 1 ≡ length (ready.last ++ d ∷ []) =
          omega (arith, length-append ready.last (d ∷ [])) in
        rw (
          loaded,
          set_slot_new (page_of ready.last 0) (length ready.last) d refl ready.room,
          ready.objects_counted,
          grown,
        )

  module _ (table : ℕ → Option AllocationInfo) (obj : RubyObject) where
    dump_heap_object-Ready :
        (s s' : ObjectDump × Heap) (objects : List ObjectData)
        → initialize_object_data s.0 s.1 ≡ ok s'
        → Ready old s' objects
        → (s'' : ObjectDump × Heap) × (dump_heap_object table obj s ≡ ok s'')
          × Built old s'' (objects ++ object_data table obj ∷ [])
    unfolding dump_heap_object
    dump_heap_object-Ready s (dump, h) objects e ready = (
      filled dump h objects ready (object_data table obj),
      rw e (fill dump h objects ready (object_data table obj)),
      filled-Built dump h objects ready (object_data table obj),
    )

    -- The first object of a dump.
    pub dump_heap_object_first :
        (dump : ObjectDump)
        → dump.first ≡ 0
        → (s : ObjectDump × Heap) × (dump_heap_object table obj (dump, old) ≡ ok s)
          × Built old s (object_data table obj ∷ [])
    dump_heap_object_first dump e =
        let (s, i, r) = initialize_first dump e in dump_heap_object-Ready (dump, old) s [] i r

    -- Each further object goes behind those that are there.
    pub dump_heap_object-Built :
        (s : ObjectDump × Heap) (objects : List ObjectData)
        → Built old s objects
        → (s' : ObjectDump × Heap) × (dump_heap_object table obj s ≡ ok s')
          × Built old s' (objects ++ object_data table obj ∷ [])
    dump_heap_object-Built (dump, h) objects built =
        elim (Bool-cases (length built.last == page_size)) [
          | inl full ↦
              let (s', i, r) = initialize_next dump h objects built ((==_iff _ _).0 full) in
              dump_heap_object-Ready (dump, h) s' objects i r
          | inr room ↦
              let (i, r) = initialize_same dump h objects built (ground (arith, built.fits)) in
              dump_heap_object-Ready (dump, h) (dump, h) objects i r
        ]
