-- ===== src/Packer/DumpObjects.antt =====
-- One object of a dump, and a run of them, in the message.
use rbkit.Prelude.{
  ℕ, suc, ◌^◌, ◌<◌, ◌≡◌, refl, List, [], ◌∷◌, ◌++◌, length, map, ok, arith, All, ◌==◌,
  if◌then◌else◌, Bool-cases, inl, inr, ==_iff,
}
use rbkit.Event.Codes
use rbkit.ObjectGraph.Pages.{References, null, freed, array, ObjectData}
use rbkit.Msgpack.{Call, Msgpack, pack_nil, pack_unsigned, pack_array, pack_map}
use rbkit.Msgpack.Value.{Value, values}
use rbkit.Msgpack.Reader.{wire}
use rbkit.Msgpack.Parses.{
  Parses, ParsesItems, Parses-nil, Parses-unsigned, Parses-array, Parses-map, ParsesPairs-end,
  ParsesItems-end, ParsesItems-item,
}
use rbkit.Packer.Calls.{key}
use rbkit.Packer.Dump.{pack_ids, read_references, pack_references, pack_known, pack_object}
use rbkit.Packer.Frames.{number, known, ids_of, object_object}
use rbkit.Packer.Pieces.{Packable, ParsesPairs-entry, string_calls, pack_string_lem, Parses-string}

-- An object whose numbers fit 64 bits and whose strings fit an int, with live references.
pub record PackableObject (d : ObjectData) : Type 0 where
  pub id_fits : d.object_id < 2 ^ 64
  pub name_fits : Packable d.class_name
  pub file_fits : Packable d.file
  pub line_fits : d.line < 2 ^ 64
  pub size_fits : d.size < 2 ^ 64
  pub counted : d.reference_count ≡ length (ids_of d.references)
  pub ids_fit : All (λ id. id < 2 ^ 64) (ids_of d.references)
  pub ids_few : d.reference_count < 2 ^ 32

-- The object as it is left when it was packed: its references are freed.
abbrev pub packed_object : ObjectData → ObjectData
packed_object d = if d.reference_count == 0 then d else record d { references = freed }

module _ ⦃m : Msgpack⦄ where
  open m use {Double}

  abbrev id_calls : List ℕ → List (Call Double)
  id_calls = map pack_unsigned

  abbrev known_call : ℕ → Call Double
  known_call n = if n == 0 then pack_nil else pack_unsigned n

  -- The calls for an object, and then `cs`.
  abbrev pub object_calls : ObjectData → List (Call Double) → List (Call Double)
  object_calls d cs =
      pack_map 6
      ∷ key Codes.object_id
      ∷ pack_unsigned d.object_id
      ∷ key Codes.class_name
      ∷ (string_calls d.class_name
          ++ (key Codes.references
              ∷ pack_array d.reference_count
              ∷ (id_calls (ids_of d.references)
                  ++ (key Codes.file
                      ∷ (string_calls d.file
                          ++ (key Codes.line
                              ∷ known_call d.line
                              ∷ key Codes.size
                              ∷ known_call d.size
                              ∷ cs))))))

  pack_ids_lem : (ids : List ℕ) → pack_ids (length ids) ids ≡ ok (id_calls ids)
  unfolding pack_ids
  pack_ids_lem [] = refl
  pack_ids_lem (id ∷ ids) = rw (pack_ids_lem ids)

  read_references_lem :
      (r : References) (n : ℕ)
      → n ≡ length (ids_of r)
      → 0 < n
      → read_references r n ≡ ok (id_calls (ids_of r))
  unfolding read_references
  read_references_lem (array ids) n e h = rw e (pack_ids_lem ids)
  read_references_lem null n e h = absurd (omega arith)
  read_references_lem freed n e h = absurd (omega arith)

  no_ids : (r : References) → 0 ≡ length (ids_of r) → id_calls (ids_of r) ≡ []
  no_ids (array []) e = refl
  no_ids (array (x ∷ xs)) e = absurd (omega arith)
  no_ids null e = refl
  no_ids freed e = refl

  pack_references_lem :
      (d : ObjectData)
      → PackableObject d
      → pack_references d ≡ ok (id_calls (ids_of d.references), packed_object d)
  unfolding pack_references
  pack_references_lem d p = elim (Bool-cases (d.reference_count == 0)) [
    | inl none ↦ rw (none, no_ids d.references (omega (arith, p.counted, (==_iff _ _).0 none)))
    | inr some ↦
        rw (
          some,
          read_references_lem d.references d.reference_count p.counted (ground (arith, some)),
        )
  ]

  pub pack_object_lem :
      (d : ObjectData) → PackableObject d → pack_object d ≡ ok (object_calls d [], packed_object d)
  unfolding pack_object pack_known
  pack_object_lem d p = rw (
    pack_string_lem d.class_name p.name_fits,
    pack_references_lem d p,
    pack_string_lem d.file p.file_fits,
  )

  ParsesItems-ids :
      {d : ℕ} (ids : List ℕ) (cs : List (Call Double)) (rest : List ℕ)
      → All (λ id. id < 2 ^ 64) ids
      → ParsesItems
          (suc d)
          (length ids)
          (wire (id_calls ids ++ cs) rest)
          (values (map number ids))
          (wire cs rest)
  ParsesItems-ids [] cs rest h = ParsesItems-end
  ParsesItems-ids (id ∷ ids) cs rest h =
      ParsesItems-item (Parses-unsigned _ rest h.0) (ParsesItems-ids ids cs rest h.1)

  Parses-known :
      {d : ℕ} (n : ℕ) (cs : List (Call Double)) (rest : List ℕ)
      → n < 2 ^ 64
      → Parses (suc d) (wire (known_call n ∷ cs) rest) (known n) (wire cs rest)
  Parses-known n cs rest h = elim (Bool-cases (n == 0)) [
    | inl e ↦ rw e (Parses-nil cs rest)
    | inr e ↦ rw e (Parses-unsigned cs rest h)
  ]

  pub Parses-object :
      {d : ℕ} (o : ObjectData) (cs : List (Call Double)) (rest : List ℕ)
      → PackableObject o
      → Parses (suc (suc (suc d))) (wire (object_calls o cs) rest) (object_object o) (wire cs rest)
  Parses-object o cs rest p = Parses-map _ rest (omega arith) (
      ParsesPairs-entry Codes.object_id _ rest (Parses-unsigned _ rest p.id_fits) (
        ParsesPairs-entry Codes.class_name _ rest (Parses-string o.class_name _ rest p.name_fits) (
          ParsesPairs-entry Codes.references _ rest (references_parse _) (
            ParsesPairs-entry Codes.file _ rest (Parses-string o.file _ rest p.file_fits) (
              ParsesPairs-entry Codes.line _ rest (Parses-known o.line _ rest p.line_fits) (
                ParsesPairs-entry Codes.size _ rest (Parses-known o.size _ rest p.size_fits)
                  ParsesPairs-end))))))
    where
      references_parse :
          {d : ℕ} (cs' : List (Call Double))
          → Parses
              (suc (suc d))
              (wire (pack_array o.reference_count ∷ (id_calls (ids_of o.references) ++ cs')) rest)
              (Value.array (values (map number (ids_of o.references))))
              (wire cs' rest)
      references_parse cs' =
          Parses-array _ rest p.ids_few
            (rw p.counted (ParsesItems-ids (ids_of o.references) _ rest p.ids_fit))
