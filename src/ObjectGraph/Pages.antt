-- ===== src/ObjectGraph/Pages.antt =====
-- The structures of ext/rbkit_object_graph.h, and the pages of a dump on an explicit heap. Address 0 is
-- NULL.
pub mod Laws
use rbkit.Prelude.{
  ℕ, ◌+◌, Option, none, some, List, [], ◌∷◌, ◌++◌, length, set, get_elem?, ltb, ◌==◌, ◌&&◌,
  if◌then◌else◌, Outcome, ok, fault, ◌>>=◌,
}
use rbkit.Event.{CString}

-- RBKIT_OBJECT_DUMP_PAGE_SIZE
abbrev pub page_size : ℕ
page_size = 1000

-- `unsigned long long * references`
pub data References : Type 0 where
  null freed : References
  array : List ℕ → References

-- rbkit_object_data
pub record ObjectData : Type 0 where
  pub object_id : ℕ
  pub class_name : Option CString
  pub references : References
  pub reference_count : ℕ
  pub file : Option CString
  pub line : ℕ
  pub size : ℕ

-- rbkit_object_dump_page; `slots` are the elements of `data` that have been written
pub record Page : Type 0 where
  pub slots : List ObjectData
  pub count : ℕ
  pub next : ℕ

-- The pages that are allocated and not freed. Addresses are not used again.
pub record Heap : Type 0 where
  pub fresh : ℕ
  pub page_at : ℕ → Option Page

unfoldable pub write : Heap → ℕ → Option Page → Heap
write h a p = record h { page_at = λ b. if b == a then p else h.page_at b }

-- *page, a fault at NULL and at a page that was freed
unfoldable pub load : Heap → ℕ → Outcome Page
load h a = if a == 0 then fault else elim (h.page_at a) [ none ↦ fault | some p ↦ ok p ]

-- free(page): nothing at NULL, a fault at a page that was freed
unfoldable pub free : Heap → ℕ → Outcome Heap
unfolding load write
free h a = if a == 0 then ok h else (do p ← load h a; ok (write h a none))

-- page->data[i], a fault where nothing was written
unfoldable pub slot : Page → ℕ → Outcome ObjectData
slot p i = elim (get_elem? p.slots i) [ none ↦ fault | some d ↦ ok d ]

-- page->data[i] = d, a fault outside the array
unfoldable pub set_slot : Page → ℕ → ObjectData → Outcome Page
set_slot p i d =
    if ltb i (length p.slots)
    then ok (record p { slots = set p.slots i d })
    else if (i == length p.slots) && ltb i page_size
    then ok (record p { slots = p.slots ++ d ∷ [] })
    else fault

-- rbkit_object_dump_page_new
unfoldable pub rbkit_object_dump_page_new : Heap → ℕ × Heap
rbkit_object_dump_page_new h = (
  h.fresh,
  record {
    fresh = h.fresh + 1;
    page_at = (write h h.fresh (some (record { slots = []; count = 0; next = 0 }))).page_at;
  },
)
