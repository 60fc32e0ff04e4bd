-- ===== src/Packer/Walk.antt =====
-- One round of the loop over the objects of a dump.
use rbkit.Prelude.{
  ℕ, ◌+◌, ◌<◌, ◌≡◌, refl, sym, ap, ◌∙◌, List, [], ◌∷◌, ◌++◌, length, flatten, drop, ok, some, none,
  arith, get_elem?-drop, length-drop,
}
use rbkit.Event.{ObjectSpaceDumpEvent}
use rbkit.ObjectGraph.Pages.{ObjectData, Page, Heap, load, slot, set_slot, write}
use rbkit.ObjectGraph.Pages.Laws.{load-some, slot-some, set_slot_old}
use rbkit.Msgpack.{Msgpack}
use rbkit.Packer.Dump.{turn_page, pack_next}
use rbkit.Packer.Cursor.{
  Cursor, remaining, turn_page_same, turned, turn_page_next, turned-Cursor, stepped, rewritten,
  stepped-Cursor, remaining-stepped,
}
use rbkit.Packer.DumpObjects.{PackableObject, packed_object, object_calls, pack_object_lem}

-- The event stands in the heap before the objects `objects`.
pub record At (old : Heap) (e : ObjectSpaceDumpEvent) (h : Heap) (objects : List ObjectData)
    : Type 0 where
  pub page : Page
  pub later : List (List ObjectData)
  pub cursor : Cursor old e h page later
  pub left : objects ≡ remaining e page later

-- `e'` is `e` after `n` more objects.
pub record Advanced (n : ℕ) (e e' : ObjectSpaceDumpEvent) : Type 0 where
  pub packed : e'.packed_objects ≡ e.packed_objects + n
  pub same_count : e'.object_count ≡ e.object_count
  pub same_type : e'.event_type ≡ e.event_type
  pub same_correlation : e'.correlation_id ≡ e.correlation_id

-- The cursor at a page with an object left.
record Aimed (old : Heap) (e : ObjectSpaceDumpEvent) (h : Heap) (d : ObjectData)
    (objects : List ObjectData) : Type 0 where
  page : Page
  later : List (List ObjectData)
  here : List ObjectData
  cursor : Cursor old e h page later
  hit : drop e.current_page_index page.slots ≡ d ∷ here
  rest : objects ≡ here ++ flatten later

turn_page-At :
    (old : Heap) (e : ObjectSpaceDumpEvent) (h : Heap) (d : ObjectData) (objects : List ObjectData)
    (page : Page) (later : List (List ObjectData)) (here : List ObjectData)
    → Cursor old e h page later
    → drop e.current_page_index page.slots ≡ here
    → d ∷ objects ≡ here ++ flatten later
    → (e' : ObjectSpaceDumpEvent) × (h' : Heap) × (turn_page e h ≡ ok (e', h'))
      × Aimed old e' h' d objects
      × Advanced 0 e e'
turn_page-At old e h d objects page later (x ∷ here) c hit left = (
  e,
  h,
  turn_page_same old e h page later x here c hit,
  record { page = page; later = later; here = here; cursor = c; hit = cc; rest = cc },
  record { packed = omega arith; same_count = refl; same_type = refl; same_correlation = refl },
)
turn_page-At old e h d objects page [] [] c hit left = absurd (omega (arith, ap length left))
turn_page-At old e h d objects page ([] ∷ later) [] c hit left = absurd (omega (arith, c.after.5))
turn_page-At old e h d objects page ((x ∷ ds) ∷ later) [] c hit left = (
  turned old e h page,
  write h e.current_page none,
  turn_page_next old e h page (x ∷ ds) later c hit,
  record {
    page = c.after.0;
    later = later;
    here = ds;
    cursor = turned-Cursor old e h page (x ∷ ds) later c hit;
    hit = cc (c.after.4);
    rest = cc;
  },
  record { packed = omega arith; same_count = refl; same_type = refl; same_correlation = refl },
)

-- An object at the cursor is read and written back where it stands.
module _ (old : Heap) (e : ObjectSpaceDumpEvent) (h : Heap) (d : ObjectData)
    (objects : List ObjectData) (a : Aimed old e h d objects) (d' : ObjectData) where
  index-lt : e.current_page_index < length a.page.slots
  index-lt = omega (arith, ap length a.hit, length-drop e.current_page_index a.page.slots)

  load_page : load h e.current_page ≡ ok a.page
  load_page = load-some h e.current_page a.page a.cursor.positive a.cursor.at_page

  slot_page : slot a.page e.current_page_index ≡ ok d
  slot_page = slot-some a.page _ d (get_elem?-drop e.current_page_index a.page.slots a.here d a.hit)

  set_slot_page : set_slot a.page e.current_page_index d' ≡ ok (rewritten old e h a.page d')
  set_slot_page = set_slot_old a.page e.current_page_index d' index-lt

  stepped-At :
      At old
        (stepped old e h a.page d')
        (write h e.current_page (some (rewritten old e h a.page d')))
        objects
  stepped-At = record {
    page = rewritten old e h a.page d';
    later = a.later;
    cursor = stepped-Cursor old e h a.page d' a.later a.cursor index-lt;
    left = a.rest ∙ sym (remaining-stepped old e h a.page d' a.later d a.here a.hit);
  }

module _ ⦃m : Msgpack⦄ where
  open m use {Double}

  -- One round of the loop packs the object at the cursor and moves on.
  pub pack_next-At :
      (old : Heap) (e : ObjectSpaceDumpEvent) (h : Heap) (d : ObjectData)
      (objects : List ObjectData)
      → At old e h (d ∷ objects)
      → PackableObject d
      → (e' : ObjectSpaceDumpEvent) × (h' : Heap) × (pack_next e h ≡ ok (object_calls d [], e', h'))
        × At old e' h' objects
        × Advanced 1 e e'
  unfolding pack_next
  pack_next-At old e h d objects at p =
      let (e₁, h₁, t, a, adv) =
        turn_page-At old e h d objects at.page at.later (drop e.current_page_index at.page.slots)
          at.cursor refl at.left in
      (
        stepped old e₁ h₁ a.page (packed_object d),
        write h₁ e₁.current_page (some (rewritten old e₁ h₁ a.page (packed_object d))),
        rw (
          t,
          load_page old e₁ h₁ d objects a (packed_object d),
          slot_page old e₁ h₁ d objects a (packed_object d),
          pack_object_lem d p,
          set_slot_page old e₁ h₁ d objects a (packed_object d),
        ),
        stepped-At old e₁ h₁ d objects a (packed_object d),
        record {
          packed = omega (arith, adv.packed);
          same_count = adv.same_count;
          same_type = adv.same_type;
          same_correlation = adv.same_correlation;
        },
      )
