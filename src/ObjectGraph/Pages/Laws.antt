-- ===== src/ObjectGraph/Pages/Laws.antt =====
-- Laws of the page heap.
use rbkit.Prelude.{
  ℕ, ◌<◌, ◌≡◌, ◌≢◌, refl, Option, none, some, [], ◌∷◌, ◌++◌, length, set, get_elem?, ok, arith,
}
use rbkit.ObjectGraph.Pages.{page_size, ObjectData, Page, Heap, write, load, free, slot, set_slot}

module _ (h : Heap) where
  pub fresh-write : (a : ℕ) (p : Option Page) → (write h a p).fresh ≡ h.fresh
  unfolding write
  fresh-write a p = refl

  pub page_at-write_self : (a : ℕ) (p : Option Page) → (write h a p).page_at a ≡ p
  unfolding write
  page_at-write_self a p = ground arith

  pub page_at-write_ne : (a b : ℕ) (p : Option Page) → b ≢ a → (write h a p).page_at b ≡ h.page_at b
  unfolding write
  page_at-write_ne a b p ne = ground arith

  pub load-some : (a : ℕ) (p : Page) → 0 < a → h.page_at a ≡ some p → load h a ≡ ok p
  unfolding load
  load-some a p pos e = ground arith

  pub free-some : (a : ℕ) (p : Page) → 0 < a → h.page_at a ≡ some p → free h a ≡ ok (write h a none)
  unfolding free load
  free-some a p pos e = ground arith

module _ (p : Page) where
  pub slot-some : (i : ℕ) (d : ObjectData) → get_elem? p.slots i ≡ some d → slot p i ≡ ok d
  unfolding slot
  slot-some i d e = rw (e, slot)

  -- A slot that was written is written again.
  pub set_slot_old :
      (i : ℕ) (d : ObjectData)
      → i < length p.slots
      → set_slot p i d ≡ ok (record p { slots = set p.slots i d })
  unfolding set_slot
  set_slot_old i d h = ground arith

  -- The slot behind the last is written for the first time.
  pub set_slot_new :
      (i : ℕ) (d : ObjectData)
      → i ≡ length p.slots
      → i < page_size
      → set_slot p i d ≡ ok (record p { slots = p.slots ++ d ∷ [] })
  unfolding set_slot
  set_slot_new i d e h = ground arith
