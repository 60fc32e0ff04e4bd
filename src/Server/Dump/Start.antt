-- ===== src/Server/Dump/Start.antt =====
-- A new dump as the packer sees it: every object is still to be packed.
use rbkit.Prelude.{
  ℕ, ◌+◌, ◌^◌, ◌<◌, ◌≤◌, ◌≡◌, refl, sym, List, [], ◌∷◌, ◌++◌, length, flatten, Option, some, ok,
  arith, append_assoc, append-nil,
}
use rbkit.Event.{ObjectSpaceDumpEvent}
use rbkit.Event.Codes.{code, object_space_dump}
use rbkit.ObjectGraph.{ObjectDump}
use rbkit.ObjectGraph.Pages.{page_size, ObjectData, Page, Heap}
use rbkit.ObjectGraph.Shape.{page_of, Linked, IsFresh, Built}
use rbkit.Packer.Cursor.{After, Cursor}
use rbkit.Packer.DumpCalls.{Pending}
use rbkit.Server.Dump.{read_count, new_rbkit_object_space_dump_event}

-- Linked pages from `a` on, as the packer walks them.
record Chain (at : ℕ → Option Page) (a n : ℕ) (objects : List ObjectData) : Type 0 where
  page : Page
  later : List (List ObjectData)
  here : at a ≡ some page
  after : After at a page later
  all : objects ≡ page.slots ++ flatten later
  not_empty : 0 < length page.slots
  fits : length page.slots ≤ page_size
  as_many : length later ≡ n

chain-Linked :
    (at : ℕ → Option Page) (a b : ℕ) (dss : List (List ObjectData)) (last : List ObjectData)
    → a + length dss ≡ b
    → Linked at a dss
    → at b ≡ some (page_of last 0)
    → 0 < length last
    → length last ≤ page_size
    → Chain at a (length dss) (flatten dss ++ last)
chain-Linked at a b [] last e h p pos fits = record {
  page = page_of last 0;
  later = [];
  here = let e' : a ≡ b = omega arith in rw e' p;
  after = tt;
  all = sym (append-nil last);
  not_empty = pos;
  fits = fits;
  as_many = refl;
}
chain-Linked at a b (ds ∷ dss) last e h p pos fits =
    let c = chain-Linked at (a + 1) b dss last (omega arith) h.2 p pos fits in
    record {
      page = page_of ds (a + 1);
      later = c.page.slots ∷ c.later;
      here = h.0;
      after = (c.page, refl, h.1, c.here, refl, c.not_empty, c.fits, c.after);
      all = rw (append_assoc, ← c.all) refl;
      not_empty = omega (arith, h.1);
      fits = omega (arith, h.1);
      as_many = omega (arith, c.as_many);
    }

-- The event that `new_rbkit_object_space_dump_event` makes of a dump.
abbrev pub started : ℕ → ObjectDump → ℕ → ObjectSpaceDumpEvent
started correlation d count = record {
  event_type = code object_space_dump;
  packed_objects = 0;
  object_count = count;
  current_page = d.first;
  current_page_index = 0;
  correlation_id = correlation + 1;
}

module _ (old : Heap) (fresh : IsFresh old) (correlation : ℕ) (d : ObjectDump) (h : Heap)
    (objects : List ObjectData) (b : Built old (d, h) objects) where
  pub new_rbkit_object_space_dump_event-Built :
      correlation + 1 < 2 ^ 31
      → new_rbkit_object_space_dump_event correlation d
        ≡ ok (started correlation d (length objects), correlation + 1)
  unfolding new_rbkit_object_space_dump_event read_count
  new_rbkit_object_space_dump_event-Built small = rw b.objects_counted (ground (arith, small))

  chain : Chain h.page_at old.fresh (length b.full) objects
  chain = rw b.split (
      chain-Linked h.page_at old.fresh (old.fresh + length b.full) b.full b.last refl b.linked
        b.at_last b.not_empty b.fits)

  started-Cursor : Cursor old (started correlation d (length objects)) h chain.page chain.later
  started-Cursor = record {
    at_page = rw b.first_lem chain.here;
    positive = rw b.first_lem fresh.positive;
    fits = chain.fits;
    index_le = omega arith;
    after = rw b.first_lem chain.after;
    base = omega (arith, b.first_lem);
    kept = b.kept;
    freed = λ x le lt. absurd (omega (arith, b.first_lem));
    unused = λ x lt. b.unused x (omega (arith, b.first_lem, b.fresh_lem, chain.as_many));
  }

  -- Every object of a new dump is still to be packed.
  pub started-Pending :
      length objects < 2 ^ 64
      → correlation + 1 < 2 ^ 31
      → Pending old (started correlation d (length objects)) h objects
  started-Pending few small = record {
    at = record {
      page = chain.page;
      later = chain.later;
      cursor = started-Cursor;
      left = chain.all;
    };
    counted = omega arith;
    few = few;
    type_lem = refl;
    correlation_fits = small;
  }
