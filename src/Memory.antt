-- ===== src/Memory.antt =====
-- Heap blocks as the C library hands them out: `malloc`, `realloc`, `memcpy` (C standard, 7.22.3).
-- Allocation is taken to succeed.
pub mod Laws
use rbkit.Prelude.{
  ℕ, zero, suc, ◌+◌, ◌-◌, Option, none, some, List, [], ◌∷◌, ◌++◌, map, length, take, drop,
  replicate, leb, if◌then◌else◌, Outcome, ok, fault, ◌>>=◌,
}

-- A byte of a block; `none` is an indeterminate byte.
abbrev pub Cell : Type 0
Cell = Option ℕ

abbrev pub Block : Type 0
Block = List Cell

-- A pointer to a whole block: `NULL`, a block that was freed, or a live block.
pub data Pointer : Type 0 where
  null dangling : Pointer
  live : Block → Pointer

unfoldable pub malloc : ℕ → Block
malloc n = replicate n none

-- The old contents up to the new size, then indeterminate bytes.
unfoldable pub resize : Block → ℕ → Block
resize b n = take n b ++ replicate (n - length b) none

-- realloc(p, n)
unfoldable pub realloc : Pointer → ℕ → Outcome Pointer
unfolding malloc resize
realloc null n = ok (live (malloc n))
realloc dangling n = fault
realloc (live b) n = ok (live (resize b n))

-- memcpy(p + offset, source, length source); writing past the block is a fault
unfoldable pub copy_in : Pointer → ℕ → List ℕ → Outcome Pointer
copy_in (live b) offset source =
    if leb (offset + length source) (length b)
    then ok (live (take offset b ++ (map some source ++ drop (offset + length source) b)))
    else fault
copy_in p offset [] = ok p
copy_in p offset source = fault

-- the bytes of memcpy(destination, p, n); reading past the block is a fault, and so is a use of
-- indeterminate bytes
unfoldable pub copy_block : Block → ℕ → Outcome (List ℕ)
copy_block b zero = ok []
copy_block [] (suc n) = fault
copy_block (none ∷ b) (suc n) = fault
copy_block (some x ∷ b) (suc n) = do xs ← copy_block b n; ok (x ∷ xs)

unfoldable pub copy_out : Pointer → ℕ → Outcome (List ℕ)
unfolding copy_block
copy_out (live b) n = copy_block b n
copy_out p zero = ok []
copy_out p (suc n) = fault
