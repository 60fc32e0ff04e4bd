-- ===== src/Packer/Pieces.antt =====
-- The bytes of keys, strings and headers are the objects that the protocol names.
use rbkit.Prelude.{
  ℕ, suc, ◌^◌, ◌<◌, ◌≡◌, refl, Option, none, some, List, [], ◌∷◌, ◌++◌, length, ok, arith,
  take_of_length-le,
}
use rbkit.Time.{Timeval}
use rbkit.Event.{CString}
use rbkit.Event.Codes.{EventType, code, Field, field_code}
use rbkit.Event.Codes
use rbkit.Msgpack.{Call, Msgpack, pack_nil, pack_map, pack_str, pack_str_body}
use rbkit.Msgpack.Value.{Pairs}
use rbkit.Msgpack.Reader.{wire}
use rbkit.Msgpack.Parses.{
  Parses, ParsesPairs, Parses-nil, Parses-int, Parses-str, Parses-map, Parses-double,
  ParsesPairs-pair,
}
use rbkit.Packer.Calls.{int_as_size, key, pack_string, pack_event_header}
use rbkit.Packer.Frames.{Object, number, entry, text, frame}

-- A string that the extension can pack: its length fits an int.
abbrev pub Packable : Option CString → Type 0
Packable none = Unit
Packable (some s) = length s < 2 ^ 31

pub field_code-lt : (f : Field) → field_code f < 16
unfolding field_code
field_code-lt Codes.event_type = omega arith
field_code-lt _ = omega arith

pub code-lt : (t : EventType) → code t < 10
unfolding code
code-lt Codes.obj_created = omega arith
code-lt _ = omega arith

pub int_as_size_small : (n : ℕ) → n < 2 ^ 31 → int_as_size n ≡ n
unfolding int_as_size
int_as_size_small n h = ground arith

module _ ⦃m : Msgpack⦄ where
  open m use {Double, from_long}

  pub Parses-key :
      {d : ℕ} (f : Field) (cs : List (Call Double)) (rest : List ℕ)
      → Parses (suc d) (wire (key f ∷ cs) rest) (number (field_code f)) (wire cs rest)
  Parses-key f cs rest = Parses-int cs rest (omega (arith, field_code-lt f))

  -- An entry is a key and its value.
  pub ParsesPairs-entry :
      {d n : ℕ} (f : Field) (cs : List (Call Double)) (rest : List ℕ) {v : Object}
      {ps : Pairs Double} {bs rest' : List ℕ}
      → Parses (suc d) (wire cs rest) v bs
      → ParsesPairs (suc d) n bs ps rest'
      → ParsesPairs (suc d) (suc n) (wire (key f ∷ cs) rest) (entry f v ps) rest'
  ParsesPairs-entry f cs rest p q = ParsesPairs-pair (Parses-key f cs rest) p q

  -- The calls that `pack_string` makes for a packable string.
  abbrev pub string_calls : Option CString → List (Call Double)
  string_calls none = pack_nil ∷ []
  string_calls (some s) = pack_str (length s) ∷ pack_str_body s ∷ []

  pub pack_string_lem : (s : Option CString) → Packable s → pack_string s ≡ ok (string_calls s)
  unfolding pack_string
  pack_string_lem none h = refl
  pack_string_lem (some s) h =
      rw (int_as_size_small (length s) h, take_of_length-le (length s) s (omega arith))
        (ground arith)

  pub Parses-string :
      {d : ℕ} (s : Option CString) (cs : List (Call Double)) (rest : List ℕ)
      → Packable s
      → Parses (suc d) (wire (string_calls s ++ cs) rest) (text s) (wire cs rest)
  Parses-string none cs rest h = Parses-nil cs rest
  Parses-string (some s) cs rest h = Parses-str cs rest (omega arith)

  pub Parses-last_string :
      {d : ℕ} (s : Option CString) (rest : List ℕ)
      → Packable s
      → Parses (suc d) (wire (string_calls s) rest) (text s) rest
  unfolding wire
  Parses-last_string none rest h = Parses-nil [] rest
  Parses-last_string (some s) rest h = Parses-str [] rest (omega arith)

  -- The header, in a map of `n` entries more.
  pub Parses-frame :
      {d n : ℕ} (tv : Timeval) (t : EventType) (cs : List (Call Double)) (rest : List ℕ)
      {ps : Pairs Double} {rest' : List ℕ}
      → n < 2 ^ 31
      → ParsesPairs (suc d) n (wire cs rest) ps rest'
      → Parses
          (suc (suc d))
          (wire (pack_map (suc (suc n)) ∷ (pack_event_header tv (code t) ++ cs)) rest)
          (frame tv t ps)
          rest'
  unfolding pack_event_header
  Parses-frame tv t cs rest h p = Parses-map _ _ (omega arith) (
      ParsesPairs-entry Codes.event_type _ _ (Parses-int _ _ (omega (arith, code-lt t)))
        (ParsesPairs-entry Codes.timestamp _ _ (Parses-double _ _) p))
