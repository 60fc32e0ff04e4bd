-- ===== src/Packer/Hash.antt =====
-- pack_value_object, hash_pack_iterator and pack_hash_event of ext/rbkit_event_packer.c.
use rbkit.Prelude.{
  ℕ, Bool, true, false, some, List, [], ◌∷◌, ◌++◌, length, ◌==◌, if◌then◌else◌, Outcome, ok, raised,
  argument_error, ◌>>=◌,
}
use rbkit.Time.{Timeval}
use rbkit.Event.{RubyValue, fixnum, float, other, HashEvent}
use rbkit.Event.Codes.{payload}
use rbkit.Msgpack.{Call, Msgpack, pack_int, pack_double, pack_map}
use rbkit.Packer.Calls.{int_as_size, key, pack_string, pack_event_header}

abbrev pub has_zero : List ℕ → Bool
has_zero [] = false
has_zero (b ∷ bs) = if b == 0 then true else has_zero bs

module _ {D : Type 0} where
  -- StringValueCStr raises for a string with a zero byte.
  unfoldable pub pack_value_object : RubyValue D → Outcome (List (Call D))
  pack_value_object (fixnum z) = ok (pack_int z ∷ [])
  pack_value_object (float x) = ok (pack_double x ∷ [])
  pack_value_object (other bytes) =
      if has_zero bytes then raised argument_error else pack_string (some bytes)

  unfoldable pub hash_pack_iterator : RubyValue D → RubyValue D → Outcome (List (Call D))
  unfolding pack_value_object
  hash_pack_iterator k v = do ks ← pack_value_object k; vs ← pack_value_object v; ok (ks ++ vs)

  -- rb_hash_foreach(hash, hash_pack_iterator, packer)
  unfoldable pub pack_pairs : List (RubyValue D × RubyValue D) → Outcome (List (Call D))
  unfolding hash_pack_iterator
  pack_pairs [] = ok []
  pack_pairs ((k, v) ∷ ps) = do kv ← hash_pack_iterator k v; rest ← pack_pairs ps; ok (kv ++ rest)

module _ ⦃m : Msgpack⦄ where
  open m use {Double}

  unfoldable pub pack_hash_event : Timeval → HashEvent Double → Outcome (List (Call Double))
  unfolding pack_event_header pack_pairs int_as_size
  pack_hash_event tv e = do
    ps ← pack_pairs e.hash
    ok (
        pack_map 3
        ∷ (pack_event_header tv e.event_type
            ++ (key payload ∷ pack_map (int_as_size (length e.hash)) ∷ ps)))
