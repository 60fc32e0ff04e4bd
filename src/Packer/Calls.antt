-- ===== src/Packer/Calls.antt =====
-- The helpers of ext/rbkit_event_packer.c. Each returns the calls that it makes on the packer, in order.
use rbkit.Prelude.{
  ℕ, ◌+◌, ◌-◌, ◌%◌, ◌^◌, Option, none, some, List, [], ◌∷◌, length, take, ltb, pos, if◌then◌else◌,
  Outcome, ok, fault,
}
use rbkit.Time.{Timeval, get_wall_time_in_msec}
use rbkit.Event.{CString}
use rbkit.Event.Codes.{Field, event_type, timestamp, field_code}
use rbkit.Msgpack.{Call, Msgpack, pack_nil, pack_int, pack_double, pack_str, pack_str_body}

-- A size_t that is cast to int and then passed as a size_t: the upper half wraps to huge sizes.
unfoldable pub int_as_size : ℕ → ℕ
int_as_size n = let c = n % 2 ^ 32 in if ltb c (2 ^ 31) then c else 2 ^ 64 - 2 ^ 32 + c

module _ {D : Type 0} where
  -- msgpack_pack_int of a number that is not negative
  abbrev pub int : ℕ → Call D
  int n = pack_int (pos n)

  abbrev pub key : Field → Call D
  key f = pack_int (pos (field_code f))

  -- pack_string: a length that does not fit an int makes the copy read past the string, or cuts it
  unfoldable pub pack_string : Option CString → Outcome (List (Call D))
  unfolding int_as_size
  pack_string none = ok (pack_nil ∷ [])
  pack_string (some string) =
      let size = int_as_size (length string) in
      if ltb (length string) size
      then fault
      else ok (pack_str size ∷ pack_str_body (take size string) ∷ [])

module _ ⦃m : Msgpack⦄ where
  open m use {Double, from_long}

  -- pack_event_header, with pack_timestamp at its end
  unfoldable pub pack_event_header : Timeval → ℕ → List (Call Double)
  unfolding get_wall_time_in_msec
  pack_event_header tv t =
      key event_type
      ∷ int t
      ∷ key timestamp
      ∷ pack_double (from_long (get_wall_time_in_msec tv))
      ∷ []
