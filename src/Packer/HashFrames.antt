-- ===== src/Packer/HashFrames.antt =====
-- `pack_event` on hash events: GC statistics, the handshake, and a type that the caller got wrong.
use rbkit.Prelude.{
  ℕ, suc, ◌^◌, ◌<◌, ◌≡◌, refl, List, [], ◌∷◌, ◌++◌, length, some, ok, arith, All, Within, false,
  append_assoc,
}
use rbkit.Time.{Timeval}
use rbkit.Event.{RubyValue, fixnum, float, other, hash, new_rbkit_hash_event}
use rbkit.Event.Codes
use rbkit.Event.Codes.{EventType, code}
use rbkit.Msgpack.{Call, Msgpack, pack_int, pack_double, pack_str, pack_str_body, pack_map}
use rbkit.Msgpack.Reader.{wire}
use rbkit.Msgpack.Parses.{
  Parses, ParsesPairs, Packs, Parses-int, Parses-double, Parses-str, Parses-map, ParsesPairs-pair,
  ParsesPairs-end, ParsesPairs-done,
}
use rbkit.Packer.{PackerState, pack_event}
use rbkit.Packer.Calls.{key, pack_event_header}
use rbkit.Packer.Hash.{has_zero, pack_value_object, hash_pack_iterator, pack_pairs, pack_hash_event}
use rbkit.Packer.Frames.{ruby_object, ruby_pairs, hash_frame}
use rbkit.Packer.Pieces.{int_as_size_small, ParsesPairs-entry, pack_string_lem, Parses-frame}
use rbkit.Packer.Messages.{message_depth, Sends, Sends-calls}

module _ {D : Type 0} where
  -- A value that can be packed: a string has no zero byte and a length that fits an int.
  abbrev pub PackableValue : RubyValue D → Type 0
  PackableValue (fixnum z) = Within (2 ^ 63) z
  PackableValue (float x) = Unit
  PackableValue (other bytes) = (length bytes < 2 ^ 31) × (has_zero bytes ≡ false)

  abbrev pub PackablePair : RubyValue D × RubyValue D → Type 0
  PackablePair p = PackableValue p.0 × PackableValue p.1

  -- The calls for a value and for the pairs of a hash.
  abbrev value_calls : RubyValue D → List (Call D)
  value_calls (fixnum z) = pack_int z ∷ []
  value_calls (float x) = pack_double x ∷ []
  value_calls (other bytes) = pack_str (length bytes) ∷ pack_str_body bytes ∷ []

  abbrev pair_calls : List (RubyValue D × RubyValue D) → List (Call D)
  pair_calls [] = []
  pair_calls ((k, v) ∷ ps) = value_calls k ++ (value_calls v ++ pair_calls ps)

module _ ⦃m : Msgpack⦄ where
  open m use {Double}

  pack_value_object_lem :
      (v : RubyValue Double) → PackableValue v → pack_value_object v ≡ ok (value_calls v)
  unfolding pack_value_object
  pack_value_object_lem (fixnum z) h = refl
  pack_value_object_lem (float x) h = refl
  pack_value_object_lem (other bytes) h = rw h.1 (pack_string_lem (some bytes) h.0)

  pack_pairs_lem :
      (ps : List (RubyValue Double × RubyValue Double))
      → All PackablePair ps
      → pack_pairs ps ≡ ok (pair_calls ps)
  unfolding pack_pairs hash_pack_iterator
  pack_pairs_lem [] h = refl
  pack_pairs_lem ((k, v) ∷ ps) h = rw (
    pack_value_object_lem k h.0.0,
    pack_value_object_lem v h.0.1,
    pack_pairs_lem ps h.1,
    append_assoc,
  )

  Parses-value :
      {d : ℕ} (v : RubyValue Double) (cs : List (Call Double)) (rest : List ℕ)
      → PackableValue v
      → Parses (suc d) (wire (value_calls v ++ cs) rest) (ruby_object v) (wire cs rest)
  Parses-value (fixnum z) cs rest h = Parses-int cs rest h
  Parses-value (float x) cs rest h = Parses-double cs rest
  Parses-value (other bytes) cs rest h = Parses-str cs rest (omega arith)

  ParsesPairs-pairs :
      {d : ℕ} (ps : List (RubyValue Double × RubyValue Double)) (rest : List ℕ)
      → All PackablePair ps
      → ParsesPairs (suc d) (length ps) (wire (pair_calls ps) rest) (ruby_pairs ps) rest
  ParsesPairs-pairs [] rest h = ParsesPairs-done rest
  ParsesPairs-pairs ((k, v) ∷ ps) rest h =
      ParsesPairs-pair (Parses-value k _ rest h.0.0) (Parses-value v _ rest h.0.1)
        (ParsesPairs-pairs ps rest h.1)

  -- The event types that `send_hash_as_event` and the handshake are for.
  abbrev pub IsHashType : EventType → Type 0
  IsHashType Codes.gc_stats = Unit
  IsHashType Codes.handshake = Unit
  IsHashType _ = ⊥

  abbrev hash_calls :
      Timeval → EventType → List (RubyValue Double × RubyValue Double) → List (Call Double)
  hash_calls tv t h =
      pack_map 3
      ∷ (pack_event_header tv (code t) ++ (key Codes.payload ∷ pack_map (length h) ∷ pair_calls h))

  module _ (tv : Timeval) (h : List (RubyValue Double × RubyValue Double))
      (packable : All PackablePair h) (small : length h < 2 ^ 31) where
    pack_hash_event_lem :
        (t : EventType)
        → pack_hash_event tv (new_rbkit_hash_event (code t) h) ≡ ok (hash_calls tv t h)
    unfolding pack_hash_event new_rbkit_hash_event
    pack_hash_event_lem t = rw (pack_pairs_lem h packable, int_as_size_small (length h) small)

    hash_calls-Packs : (t : EventType) → Packs message_depth (hash_calls tv t h) (hash_frame tv t h)
    hash_calls-Packs t rest = Parses-frame tv t _ rest (omega arith) (
        ParsesPairs-entry Codes.payload _ rest
          (Parses-map _ rest (omega arith) (ParsesPairs-pairs h rest packable)) ParsesPairs-end)

  -- GC statistics and the handshake are sent as a frame whose payload has the pairs of the hash,
  -- in the hash's order: integers and floats as such, any other value as its string. The hash has
  -- fewer than 2 ^ 31 pairs, its integers fit 64 bits, and its strings fit an int and have no zero
  -- byte.
  pub pack_event-hash :
      (tv : Timeval) (t : EventType) (h : List (RubyValue Double × RubyValue Double))
      (s : PackerState)
      → IsHashType t
      → All PackablePair h
      → length h < 2 ^ 31
      → Sends (pack_event tv (hash (new_rbkit_hash_event (code t) h)) s) (hash_frame tv t h) s
  unfolding pack_event new_rbkit_hash_event
  pack_event-hash tv Codes.gc_stats h s w p q =
      Sends-calls (hash_calls tv Codes.gc_stats h) (hash (new_rbkit_hash_event 6 h)) _
        (rw (pack_hash_event_lem tv h p q Codes.gc_stats))
        (hash_calls-Packs tv h p q Codes.gc_stats)
  pack_event-hash tv Codes.handshake h s w p q =
      Sends-calls (hash_calls tv Codes.handshake h) (hash (new_rbkit_hash_event 8 h)) _
        (rw (pack_hash_event_lem tv h p q Codes.handshake))
        (hash_calls-Packs tv h p q Codes.handshake)
  pack_event-hash tv _ h s w p q = absurd w
