-- ===== src/ObjectGraph/Shape.antt =====
-- How the pages of a dump hold its objects.
use rbkit.Prelude.{
  ℕ, ◌+◌, ◌≤◌, ◌<◌, ◌≡◌, ◌∙◌, Option, none, some, List, [], ◌∷◌, ◌++◌, length, flatten, arith,
}
use rbkit.ObjectGraph.Pages.{page_size, ObjectData, Page, Heap}
use rbkit.ObjectGraph.{ObjectDump}

-- A page that holds the objects `ds`, before the page at `next`.
abbrev pub page_of : List ObjectData → ℕ → Page
page_of ds next = record { slots = ds; count = length ds; next = next }

-- Full pages at `a`, `a + 1`, …, each linked to the one behind it.
abbrev pub Linked : (ℕ → Option Page) → ℕ → List (List ObjectData) → Type 0
Linked at a [] = Unit
Linked at a (ds ∷ dss) =
    (at a ≡ some (page_of ds (a + 1))) × (length ds ≡ page_size) × Linked at (a + 1) dss

-- Addresses that were not handed out hold nothing, and none of them is NULL.
pub record IsFresh (h : Heap) : Type 0 where
  pub positive : 0 < h.fresh
  pub unused : (b : ℕ) → h.fresh ≤ b → h.page_at b ≡ none

-- The dump and the heap `h` after the objects `objects`, where the heap was `old` before the first.
pub record Built (old : Heap) (s : ObjectDump × Heap) (objects : List ObjectData) : Type 0 where
  pub full : List (List ObjectData)
  pub last : List ObjectData
  pub split : objects ≡ flatten full ++ last
  pub linked : Linked s.1.page_at old.fresh full
  pub at_last : s.1.page_at (old.fresh + length full) ≡ some (page_of last 0)
  pub not_empty : 0 < length last
  pub fits : length last ≤ page_size
  pub first_lem : s.0.first ≡ old.fresh
  pub last_lem : s.0.last ≡ old.fresh + length full
  pub fresh_lem : s.1.fresh ≡ old.fresh + length full + 1
  pub objects_counted : s.0.object_count ≡ some (length objects)
  pub pages_counted : s.0.page_count ≡ some (length full + 1)
  pub kept : (b : ℕ) → b < old.fresh → s.1.page_at b ≡ old.page_at b
  pub unused : (b : ℕ) → s.1.fresh ≤ b → s.1.page_at b ≡ none

pub Linked-same :
    (at at' : ℕ → Option Page) (a : ℕ) (dss : List (List ObjectData))
    → ((b : ℕ) → b < a + length dss → at' b ≡ at b)
    → Linked at a dss
    → Linked at' a dss
Linked-same at at' a [] same h = tt
Linked-same at at' a (ds ∷ dss) same h = (
  same a (omega arith) ∙ h.0,
  h.1,
  Linked-same at at' (a + 1) dss (λ b lt. same b (omega arith)) h.2,
)

pub Linked-snoc :
    (at : ℕ → Option Page) (a b : ℕ) (dss : List (List ObjectData)) (ds : List ObjectData)
    → a + length dss ≡ b
    → Linked at a dss
    → at b ≡ some (page_of ds (b + 1))
    → length ds ≡ page_size
    → Linked at a (dss ++ ds ∷ [])
Linked-snoc at a b [] ds e h p q = let e' : a ≡ b = omega arith in rw e' (p, q, tt)
Linked-snoc at a b (x ∷ dss) ds e h p q =
    (h.0, h.1, Linked-snoc at (a + 1) b dss ds (omega arith) h.2 p q)
