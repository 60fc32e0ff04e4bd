-- ===== src/Msgpack.antt =====
-- What the extension uses of msgpack-c (`msgpack.h`, not part of the repository): the calls that
-- write to a packer, and what an unpacker makes of the bytes.
pub mod Value
pub mod Reader
pub mod Parses
pub mod Wire
use rbkit.Prelude.{ℕ, ◌^◌, ◌<◌, ◌≡◌, Option, some, List, ◌++◌, length, ℤ, pos, Within}

-- A call on a packer. `pack_int` stands for msgpack_pack_int and msgpack_pack_long, `pack_unsigned`
-- for msgpack_pack_unsigned_long and msgpack_pack_unsigned_long_long, `pack_str` and
-- `pack_str_body` also for msgpack_pack_raw and msgpack_pack_raw_body of the versions before 1.
pub data Call (D : Type 0) : Type 0 where
  pack_nil : Call D
  pack_int : ℤ → Call D
  pack_unsigned : ℕ → Call D
  pack_double : D → Call D
  pack_str : ℕ → Call D
  pack_str_body : List ℕ → Call D
  pack_array : ℕ → Call D
  pack_map : ℕ → Call D

-- What an unpacker finds at the head of the bytes: a scalar, or the header of a container with the
-- number of its elements or pairs.
pub data Item (D : Type 0) : Type 0 where
  nil : Item D
  int : ℤ → Item D
  double : D → Item D
  str : List ℕ → Item D
  array : ℕ → Item D
  map : ℕ → Item D

-- The library: doubles, the bytes that a call appends to the buffer, and its unpacker. The laws
-- are the format's: what was packed within the format's limits is unpacked, whatever follows.
pub record Msgpack : Type 1 where
  pub Double : Type 0
  pub from_long : ℕ → Double
  pub bytes : Call Double → List ℕ
  pub next : List ℕ → Option (Item Double × List ℕ)
  pub next-nil : (rest : List ℕ) → next (bytes pack_nil ++ rest) ≡ some (nil, rest)
  pub next-int :
      (z : ℤ) (rest : List ℕ)
      → Within (2 ^ 63) z
      → next (bytes (pack_int z) ++ rest) ≡ some (int z, rest)
  pub next-unsigned :
      (n : ℕ) (rest : List ℕ)
      → n < 2 ^ 64
      → next (bytes (pack_unsigned n) ++ rest) ≡ some (int (pos n), rest)
  pub next-double :
      (x : Double) (rest : List ℕ) → next (bytes (pack_double x) ++ rest) ≡ some (double x, rest)
  pub next-str :
      (xs rest : List ℕ)
      → length xs < 2 ^ 32
      → next (bytes (pack_str (length xs)) ++ (bytes (pack_str_body xs) ++ rest))
        ≡ some (str xs, rest)
  pub next-array :
      (n : ℕ) (rest : List ℕ)
      → n < 2 ^ 32
      → next (bytes (pack_array n) ++ rest) ≡ some (array n, rest)
  pub next-map :
      (n : ℕ) (rest : List ℕ) → n < 2 ^ 32 → next (bytes (pack_map n) ++ rest) ≡ some (map n, rest)
