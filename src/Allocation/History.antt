-- ===== src/Allocation/History.antt =====
-- Objects that are made and freed, in any order, from the start of the server on.
use rbkit.Prelude.{
  ℕ, ◌+◌, ◌^◌, ◌≤◌, ◌<◌, ◌≡◌, refl, Option, none, some, List, [], ◌∷◌, length, All, Outcome, ok,
  ◌>>=◌, arith,
}
use rbkit.Event.{CString, AllocationInfo}
use rbkit.Allocation.{
  Info, TraceArg, Allocations, new_rbkit_allocation_info, delete_rbkit_allocation_info, new_tables,
}
use rbkit.Allocation.Table.{StTable}
use rbkit.Allocation.Strings.{StringHeap, Shared}
use rbkit.Allocation.Counts.{IsValid, allocation_of}
use rbkit.Allocation.Created.{reported, with_allocation, new_rbkit_allocation_info-Recorded}
use rbkit.Allocation.Removed.{delete_rbkit_allocation_info-Forgotten}

-- What the two tracepoints see of an object.
pub data Action : Type 0 where
  created : TraceArg → Action
  freed : ℕ → Action

abbrev pub HasIntLine : Action → Type 0
HasIntLine (created arg) = arg.line < 2 ^ 31
HasIntLine (freed obj) = Unit

-- The specification: the last report of each object, until it is freed.
abbrev pub replay_one : Action → (ℕ → Option AllocationInfo) → ℕ → Option AllocationInfo
replay_one (created arg) = with_allocation arg.object (some (reported arg))
replay_one (freed obj) = with_allocation obj none

unfoldable pub replay : List Action → (ℕ → Option AllocationInfo) → ℕ → Option AllocationInfo
replay [] known = known
replay (x ∷ xs) known = replay xs (replay_one x known)

module _ ⦃strings : StTable CString Shared⦄ ⦃objects : StTable ℕ Info⦄ where
  unfoldable pub act : Action → Allocations → Outcome Allocations
  act (created arg) a = do (info, a') ← new_rbkit_allocation_info arg a; ok a'
  act (freed obj) a = delete_rbkit_allocation_info obj a

  unfoldable pub act_all : List Action → Allocations → Outcome Allocations
  act_all [] a = ok a
  act_all (x ∷ xs) a = do a' ← act x a; act_all xs a'

  -- `a'` is valid and holds what `known` says.
  pub record Holds (known : ℕ → Option AllocationInfo) (a' : Allocations) : Type 0 where
    pub valid : IsValid a'
    pub table : (j : ℕ) → allocation_of a' j ≡ known j

  -- New tables are valid on a heap with no strings.
  pub new_tables-Holds :
      (h : StringHeap)
      → 0 < h.fresh
      → ((a : ℕ) → h.text_at a ≡ none)
      → Holds (λ j. none) (new_tables h)
  unfolding new_tables
  new_tables-Holds h pos gone = record {
    valid = record {
      null = gone 0;
      positive = pos;
      unused = λ a le. gone a;
      stored = λ s e f. cc (f, strings.find-empty s);
      live = λ a s f. cc (f, gone a);
      needed = λ a s f. cc (f, gone a);
      dead = λ a f pos'. rw objects.entries-empty refl;
    };
    table = λ j. rw (objects.find-empty j) refl;
  }

  -- The tables of the first logger, before any string was allocated.
  abbrev pub no_allocations : Allocations
  no_allocations = new_tables (record { fresh = 1; text_at = λ a. none })

  act_all-Holds :
      (xs : List Action) (a : Allocations) (known : ℕ → Option AllocationInfo)
      → Holds known a
      → All HasIntLine xs
      → length (objects.entries a.object_table) + length xs ≤ 2 ^ 62
      → (a' : Allocations) × (act_all xs a ≡ ok a') × Holds (replay xs known) a'
  unfolding act_all replay act
  act_all-Holds [] a known h fit few = (a, refl, h)
  act_all-Holds (created arg ∷ xs) a known h (small, fit) few =
      let (info, a₁, q, r) =
        new_rbkit_allocation_info-Recorded arg a h.valid (omega (arith, few)) small in
      let (a', q', h') =
        act_all-Holds xs a₁ (replay_one (created arg) known)
          (record { valid = r.valid; table = λ j. rw (r.table j, h.table j) refl }) fit
          (omega (arith, few, r.size)) in
      (a', rw (q, q') refl, h')
  act_all-Holds (freed obj ∷ xs) a known h (_, fit) few =
      let (a₁, q, r) = delete_rbkit_allocation_info-Forgotten obj a h.valid (omega (arith, few)) in
      let (a', q', h') =
        act_all-Holds xs a₁ (replay_one (freed obj) known)
          (record { valid = r.valid; table = λ j. rw (r.table j, h.table j) refl }) fit
          (omega (arith, few, r.size)) in
      (a', rw (q, q') refl, h')

  -- From the tables that get_trace_logger makes, any sequence of at most 2 ^ 62 allocations, whose
  -- lines fit an int, and of frees ends without a fault: the table then says of each object what
  -- the last allocation of it reported, if it was not freed since, and the counts are exact.
  pub tables_after-Holds :
      (xs : List Action)
      → All HasIntLine xs
      → length xs ≤ 2 ^ 62
      → (a' : Allocations) × (act_all xs no_allocations ≡ ok a') × Holds (replay xs (λ j. none)) a'
  unfolding new_tables
  tables_after-Holds xs fit few =
      act_all-Holds xs no_allocations (λ j. none) (new_tables-Holds _ (omega arith) (λ a. refl)) fit
        (rw objects.entries-empty (omega (arith, few)))
