-- ===== src/Memory/Laws.antt =====
-- Laws of the block operations.
use rbkit.Prelude.{
  ℕ, ◌+◌, ◌-◌, ◌≤◌, ◌≡◌, refl, some, none, List, [], ◌∷◌, ◌++◌, map, length, drop, replicate, ok,
  arith, length-append, length-replicate, length-map, drop-add, take_of_length-le,
  take-append_length, drop-append_length, le→leb,
}
use rbkit.Memory.{Block, live, malloc, resize, copy_in, copy_block, copy_out}

-- Growing a block appends indeterminate bytes.
pub resize_grow :
    (b : Block) (n : ℕ) → length b ≤ n → resize b n ≡ b ++ replicate (n - length b) none
unfolding resize
resize_grow b n h = rw (take_of_length-le n b h)

pub copy_block-map :
    (xs : List ℕ) (spare : Block) → copy_block (map some xs ++ spare) (length xs) ≡ ok xs
unfolding copy_block
copy_block-map [] spare = refl
copy_block-map (x ∷ xs) spare = rw (copy_block-map xs spare)

-- What was copied to the front of a block is read back.
pub copy_out-map :
    (xs : List ℕ) (spare : Block) → copy_out (live (map some xs ++ spare)) (length xs) ≡ ok xs
unfolding copy_out
copy_out-map xs spare = copy_block-map xs spare

-- A copy right behind the bytes `xs` that fits is a success, and uses up the first spare bytes.
pub copy_in-map :
    (xs ys : List ℕ) (spare : Block)
    → length ys ≤ length spare
    → copy_in (live (map some xs ++ spare)) (length xs) ys
      ≡ ok (live (map some xs ++ (map some ys ++ drop (length ys) spare)))
unfolding copy_in
copy_in-map xs ys spare h = rw (
  drop-add (length xs) (length ys),
  le→leb (length xs + length ys) (length (map some xs ++ spare)) fits,
  ← length-map some xs,
  take-append_length,
  drop-append_length,
)
  where
    fits : length xs + length ys ≤ length (map some xs ++ spare)
    fits = omega (arith, length-append (map some xs) spare, length-map some xs)

pub length-malloc : (n : ℕ) → length (malloc n) ≡ n
unfolding malloc
length-malloc n = length-replicate n none
