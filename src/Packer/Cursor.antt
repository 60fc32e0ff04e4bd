-- ===== src/Packer/Cursor.antt =====
-- The walk of `pack_object_space_dump_event` over the pages of a dump.
use rbkit.Prelude.{
  ℕ, suc, ◌+◌, ◌≤◌, ◌<◌, ◌≡◌, ◌≢◌, refl, ap, ◌∙◌, inl, inr, Option, none, some, List, [], ◌∷◌, ◌++◌,
  length, flatten, drop, set, ◌==◌, ==_iff, Bool-cases, ok, arith, length-drop, length-set,
  drop-set, drop_tail,
}
use rbkit.Event.{ObjectSpaceDumpEvent}
use rbkit.ObjectGraph.Pages.{page_size, ObjectData, Page, Heap, write}
use rbkit.ObjectGraph.Pages.Laws.{page_at-write_self, page_at-write_ne, load-some}
use rbkit.Packer.Dump.{turn_page}

-- Behind the page `p` at `a` come pages that hold `later`, none of them empty, each behind a full one.
abbrev pub After : (ℕ → Option Page) → ℕ → Page → List (List ObjectData) → Type 0
After at a p [] = Unit
After at a p (ds ∷ later) =
    (q : Page) × (p.next ≡ a + 1)
    × (length p.slots ≡ page_size)
    × (at (a + 1) ≡ some q)
    × (q.slots ≡ ds)
    × (0 < length ds)
    × (length ds ≤ page_size)
    × After at (a + 1) q later

-- The event `e` stands at `page` in the heap `h`, where the dump was made over the heap `old`: the
-- pages before this one are freed, those behind it hold `later`, nothing else has changed.
pub record Cursor (old : Heap) (e : ObjectSpaceDumpEvent) (h : Heap) (page : Page)
    (later : List (List ObjectData)) : Type 0 where
  pub at_page : h.page_at e.current_page ≡ some page
  pub positive : 0 < e.current_page
  pub fits : length page.slots ≤ page_size
  pub index_le : e.current_page_index ≤ length page.slots
  pub after : After h.page_at e.current_page page later
  pub base : old.fresh ≤ e.current_page
  pub kept : (b : ℕ) → b < old.fresh → h.page_at b ≡ old.page_at b
  pub freed : (b : ℕ) → old.fresh ≤ b → b < e.current_page → h.page_at b ≡ none
  pub unused : (b : ℕ) → e.current_page + length later < b → h.page_at b ≡ none

-- The objects that are not packed yet.
abbrev pub remaining : ObjectSpaceDumpEvent → Page → List (List ObjectData) → List ObjectData
remaining e page later = drop e.current_page_index page.slots ++ flatten later

After-same :
    (at at' : ℕ → Option Page) (a : ℕ) (p : Page) (later : List (List ObjectData))
    → ((b : ℕ) → a < b → at' b ≡ at b)
    → After at a p later
    → After at' a p later
After-same at at' a p [] same h = tt
After-same at at' a p (ds ∷ later) same h = (
  h.0,
  h.1,
  h.2,
  same (a + 1) (omega arith) ∙ h.3,
  h.4,
  h.5,
  h.6,
  After-same at at' (a + 1) h.0 later (λ b lt. same b (omega arith)) h.7,
)

-- Of the page in front only the link and the number of slots matter.
After-page :
    (at : ℕ → Option Page) (a : ℕ) (p p' : Page) (later : List (List ObjectData))
    → p'.next ≡ p.next
    → length p'.slots ≡ length p.slots
    → After at a p later
    → After at a p' later
After-page at a p p' [] n l h = tt
After-page at a p p' (ds ∷ later) n l h = (h.0, n ∙ h.1, l ∙ h.2, h.3, h.4, h.5, h.6, h.7)

module _ (old : Heap) (e : ObjectSpaceDumpEvent) (h : Heap) (page : Page) where
  -- A page with objects left is not turned.
  pub turn_page_same :
      (later : List (List ObjectData)) (d : ObjectData) (here : List ObjectData)
      → Cursor old e h page later
      → drop e.current_page_index page.slots ≡ d ∷ here
      → turn_page e h ≡ ok (e, h)
  unfolding turn_page
  turn_page_same later d here c hit =
      ground (arith, c.fits, c.index_le, ap length hit, length-drop e.current_page_index page.slots)

  -- The event after a turn from a page that is used up.
  abbrev pub turned : ObjectSpaceDumpEvent
  turned = record e { current_page_index = 0; current_page = page.next }

  module _ (ds : List ObjectData) (later : List (List ObjectData))
      (c : Cursor old e h page (ds ∷ later))
      (used_up : drop e.current_page_index page.slots ≡ []) where
    at_end : e.current_page_index ≡ page_size
    at_end = omega (
      arith,
      c.index_le,
      c.after.2,
      ap length used_up,
      length-drop e.current_page_index page.slots,
    )

    pub turn_page_next : turn_page e h ≡ ok (turned, write h e.current_page none)
    unfolding turn_page
    turn_page_next =
        rw ((==_iff _ _).1 at_end, load-some h e.current_page page c.positive c.at_page)
          (ground (arith, c.positive))

    pub turned-Cursor : Cursor old turned (write h e.current_page none) c.after.0 later
    turned-Cursor = record {
      at_page =
          rw c.after.1
            (page_at-write_ne h e.current_page (e.current_page + 1) none (omega arith) ∙ c.after.3);
      positive = omega (arith, c.after.1);
      fits = rw c.after.4 c.after.6;
      index_le = omega arith;
      after = rw c.after.1 (
          After-same h.page_at _ (e.current_page + 1) c.after.0 later
            (λ b lt. page_at-write_ne h e.current_page b none (omega arith)) c.after.7);
      base = omega (arith, c.after.1, c.base);
      kept = λ b lt. page_at-write_ne h e.current_page b none (omega (arith, c.base)) ∙ c.kept b lt;
      freed = λ b le lt. elim (Bool-cases (b == e.current_page)) [
        | inl same ↦ rw ((==_iff _ _).0 same) (page_at-write_self h e.current_page none)
        | inr other ↦
            let ne : b ≢ e.current_page = ground (arith, other) in
            page_at-write_ne h e.current_page b none ne
            ∙ c.freed b le (omega (arith, ne, c.after.1))
      ];
      unused = λ b lt.
          page_at-write_ne h e.current_page b none (omega (arith, c.after.1))
          ∙ c.unused b (omega (arith, c.after.1));
    }

  module _ (d' : ObjectData) where
    -- The event and the page after the object at the cursor was packed and left as `d'`.
    abbrev pub stepped : ObjectSpaceDumpEvent
    stepped = record e {
      current_page_index = e.current_page_index + 1;
      packed_objects = e.packed_objects + 1;
    }

    abbrev pub rewritten : Page
    rewritten = record page { slots = set page.slots e.current_page_index d' }

    pub stepped-Cursor :
        (later : List (List ObjectData))
        → Cursor old e h page later
        → e.current_page_index < length page.slots
        → Cursor old stepped (write h e.current_page (some rewritten)) rewritten later
    stepped-Cursor later c lt = record {
      at_page = page_at-write_self h e.current_page (some rewritten);
      positive = c.positive;
      fits = omega (arith, c.fits, length-set page.slots e.current_page_index d');
      index_le = omega (arith, length-set page.slots e.current_page_index d');
      after =
          After-same h.page_at (write h e.current_page (some rewritten)).page_at e.current_page
            rewritten later
            (λ b gt. page_at-write_ne h e.current_page b (some rewritten) (omega arith))
            (After-page h.page_at e.current_page page rewritten later refl
              (length-set page.slots e.current_page_index d') c.after);
      base = c.base;
      kept = λ b gt. page_at-write_ne h e.current_page b _ (omega (arith, c.base)) ∙ c.kept b gt;
      freed = λ b le gt. page_at-write_ne h e.current_page b _ (omega arith) ∙ c.freed b le gt;
      unused = λ b gt. page_at-write_ne h e.current_page b _ (omega arith) ∙ c.unused b gt;
    }

    pub remaining-stepped :
        (later : List (List ObjectData)) (d : ObjectData) (here : List ObjectData)
        → drop e.current_page_index page.slots ≡ d ∷ here
        → remaining stepped rewritten later ≡ here ++ flatten later
    remaining-stepped later d here hit =
        let e₁ : e.current_page_index + 1 ≡ suc e.current_page_index = omega arith in
        rw (
          e₁,
          drop-set page.slots e.current_page_index d',
          drop_tail e.current_page_index page.slots here d hit,
        )
