-- ===== src/Msgpack/Wire.antt =====
-- The MessagePack format in its widest forms, as one library that meets the laws of `Msgpack`. A
-- double is its eight bytes.
use rbkit.Prelude.{
  ℕ, zero, suc, ◌+◌, ◌-◌, ◌*◌, ◌/◌, ◌%◌, ◌^◌, ◌<◌, ◌≡◌, refl, Option, none, some, List, [], ◌∷◌,
  ◌++◌, length, ltb, ◌==◌, if◌then◌else◌, ℤ, pos, negsuc, Within, arith, append_assoc, ap, ◌∙◌,
}
use native.Mathlib.Nat.{pow-suc}
use rbkit.Msgpack.{
  Call, Item, Msgpack, nil, int, double, str, array, map, pack_nil, pack_int, pack_unsigned,
  pack_double, pack_str, pack_str_body, pack_array, pack_map,
}

-- The `k` bytes of `n`, the highest first.
unfoldable pub big_endian : ℕ → ℕ → List ℕ
big_endian zero n = []
big_endian (suc k) n = big_endian k (n / 256) ++ (n % 256) ∷ []

read_number : ℕ → ℕ → List ℕ → Option (ℕ × List ℕ)
read_number zero acc bs = some (acc, bs)
read_number (suc k) acc [] = none
read_number (suc k) acc (b ∷ bs) = read_number k (acc * 256 + b) bs

read_number_one_more :
    (k acc v b : ℕ) (bs rest : List ℕ)
    → read_number k acc bs ≡ some (v, b ∷ rest)
    → read_number (suc k) acc bs ≡ some (v * 256 + b, rest)
unfolding read_number
read_number_one_more zero acc v b [] rest h = cc
read_number_one_more zero acc v b (x ∷ bs) rest h = cc
read_number_one_more (suc k) acc v b [] rest h = cc
read_number_one_more (suc k) acc v b (x ∷ bs) rest h =
    read_number_one_more k (acc * 256 + x) v b bs rest h

read_number-big_endian :
    (k n : ℕ) (rest : List ℕ)
    → n < 256 ^ k
    → read_number k 0 (big_endian k n ++ rest) ≡ some (n, rest)
unfolding big_endian
read_number-big_endian zero n rest h =
    let e : n ≡ 0 = omega arith in rw e (unfold read_number in refl)
read_number-big_endian (suc k) n rest h =
    let e : n / 256 * 256 + n % 256 ≡ n = omega arith in
    rw append_assoc (
      read_number_one_more k 0 (n / 256) (n % 256) _ rest
        (read_number-big_endian k (n / 256) (n % 256 ∷ rest) (omega (arith, pow-suc 256 k)))
      ∙ ap (λ v. some (v, rest)) e)

pub record Bytes8 : Type 0 where
  pub b₀ : ℕ
  pub b₁ : ℕ
  pub b₂ : ℕ
  pub b₃ : ℕ
  pub b₄ : ℕ
  pub b₅ : ℕ
  pub b₆ : ℕ
  pub b₇ : ℕ

-- A stand-in for the conversion: the number in the low bytes.
unfoldable pub from_number : ℕ → Bytes8
from_number n = record {
  b₀ = 0;
  b₁ = 0;
  b₂ = n / 2 ^ 40 % 256;
  b₃ = n / 2 ^ 32 % 256;
  b₄ = n / 2 ^ 24 % 256;
  b₅ = n / 2 ^ 16 % 256;
  b₆ = n / 2 ^ 8 % 256;
  b₇ = n % 256;
}

unfoldable pub twos_complement : ℤ → ℕ
twos_complement (pos n) = n
twos_complement (negsuc n) = 2 ^ 64 - 1 - n

from_twos_complement : ℕ → ℤ
from_twos_complement n = if ltb n (2 ^ 63) then pos n else negsuc (2 ^ 64 - 1 - n)

from_twos_complement_lem :
    (z : ℤ) → Within (2 ^ 63) z → from_twos_complement (twos_complement z) ≡ z
unfolding from_twos_complement twos_complement
from_twos_complement_lem (pos n) h = ground arith
from_twos_complement_lem (negsuc n) h = ground arith

unfoldable pub encode : Call Bytes8 → List ℕ
encode pack_nil = 0xc0 ∷ []
encode (pack_int z) = 0xd3 ∷ big_endian 8 (twos_complement z)
encode (pack_unsigned n) = 0xcf ∷ big_endian 8 n
encode (pack_double x) = 0xcb ∷ x.b₀ ∷ x.b₁ ∷ x.b₂ ∷ x.b₃ ∷ x.b₄ ∷ x.b₅ ∷ x.b₆ ∷ x.b₇ ∷ []
encode (pack_str n) = 0xdb ∷ big_endian 4 n
encode (pack_str_body bs) = bs
encode (pack_array n) = 0xdd ∷ big_endian 4 n
encode (pack_map n) = 0xdf ∷ big_endian 4 n

then_with {ℓ κ} :
    {A : Type ℓ} {B : Type κ} → Option (A × List ℕ) → (A → List ℕ → Option B) → Option B
then_with none f = none
then_with (some (a, bs)) f = f a bs

split : ℕ → List ℕ → Option (List ℕ × List ℕ)
split zero bs = some ([], bs)
split (suc n) [] = none
split (suc n) (b ∷ bs) = then_with (split n bs) (λ xs rest. some (b ∷ xs, rest))

split-append : (xs rest : List ℕ) → split (length xs) (xs ++ rest) ≡ some (xs, rest)
unfolding split then_with
split-append [] rest = refl
split-append (x ∷ xs) rest = rw (split-append xs rest)

decode_double : List ℕ → Option (Item Bytes8 × List ℕ)
decode_double (a ∷ b ∷ c ∷ d ∷ e ∷ f ∷ g ∷ h ∷ rest) =
    some (double (record { b₀ = a; b₁ = b; b₂ = c; b₃ = d; b₄ = e; b₅ = f; b₆ = g; b₇ = h }), rest)
decode_double _ = none

decode_as : ℕ → List ℕ → Option (Item Bytes8 × List ℕ)
unfolding read_number split then_with decode_double from_twos_complement
decode_as tag bs =
    if tag == 0xc0
    then some (nil, bs)
    else if tag == 0xd3
    then then_with (read_number 8 0 bs) (λ n rest. some (int (from_twos_complement n), rest))
    else if tag == 0xcf
    then then_with (read_number 8 0 bs) (λ n rest. some (int (pos n), rest))
    else if tag == 0xcb
    then decode_double bs
    else if tag == 0xdb
    then then_with (read_number 4 0 bs)
        (λ n rest. then_with (split n rest) (λ xs r. some (str xs, r)))
    else if tag == 0xdd
    then then_with (read_number 4 0 bs) (λ n rest. some (array n, rest))
    else if tag == 0xdf
    then then_with (read_number 4 0 bs) (λ n rest. some (map n, rest))
    else none

pub decode : List ℕ → Option (Item Bytes8 × List ℕ)
unfolding decode_as
decode [] = none
decode (tag ∷ bs) = decode_as tag bs

module _ (rest : List ℕ) where
  read_word : (n : ℕ) → n < 2 ^ 64 → read_number 8 0 (big_endian 8 n ++ rest) ≡ some (n, rest)
  read_word n h = read_number-big_endian 8 n rest (omega arith)

  read_half : (n : ℕ) → n < 2 ^ 32 → read_number 4 0 (big_endian 4 n ++ rest) ≡ some (n, rest)
  read_half n h = read_number-big_endian 4 n rest (omega arith)

  pub decode-nil : decode (encode pack_nil ++ rest) ≡ some (nil, rest)
  unfolding encode decode_as decode
  decode-nil = refl

  pub decode-int :
      (z : ℤ) → Within (2 ^ 63) z → decode (encode (pack_int z) ++ rest) ≡ some (int z, rest)
  unfolding encode decode twos_complement
  decode-int (pos n) h = rw (read_word n (omega arith)) (rw (from_twos_complement_lem (pos n) h))
  decode-int (negsuc n) h =
      rw (read_word (2 ^ 64 - 1 - n) (omega arith)) (rw (from_twos_complement_lem (negsuc n) h))

  pub decode-unsigned :
      (n : ℕ) → n < 2 ^ 64 → decode (encode (pack_unsigned n) ++ rest) ≡ some (int (pos n), rest)
  unfolding encode decode
  decode-unsigned n h = rw (read_word n h)

  pub decode-double : (x : Bytes8) → decode (encode (pack_double x) ++ rest) ≡ some (double x, rest)
  unfolding encode decode
  decode-double x = refl

  pub decode-str :
      (xs : List ℕ)
      → length xs < 2 ^ 32
      → decode (encode (pack_str (length xs)) ++ (encode (pack_str_body xs) ++ rest))
        ≡ some (str xs, rest)
  unfolding encode decode
  decode-str xs h =
      rw (read_number-big_endian 4 (length xs) (xs ++ rest) (omega arith), split-append xs rest)

  pub decode-array :
      (n : ℕ) → n < 2 ^ 32 → decode (encode (pack_array n) ++ rest) ≡ some (array n, rest)
  unfolding encode decode
  decode-array n h = rw (read_half n h)

  pub decode-map : (n : ℕ) → n < 2 ^ 32 → decode (encode (pack_map n) ++ rest) ≡ some (map n, rest)
  unfolding encode decode
  decode-map n h = rw (read_half n h)

instance unfoldable pub message_pack : Msgpack
message_pack = record {
  Double = Bytes8;
  from_long = from_number;
  bytes = encode;
  next = decode;
  next-nil = decode-nil;
  next-int = λ z rest h. decode-int rest z h;
  next-unsigned = λ n rest h. decode-unsigned rest n h;
  next-double = λ x rest. decode-double rest x;
  next-str = λ xs rest h. decode-str rest xs h;
  next-array = λ n rest h. decode-array rest n h;
  next-map = λ n rest h. decode-map rest n h;
}
