-- ===== src/Packer/DumpCalls.antt =====
-- The calls for one message of an object space dump, and what an unpacker reads of them.
use rbkit.Prelude.{
  ℕ, suc, ◌+◌, ◌-◌, ◌%◌, ◌^◌, ◌<◌, ◌≡◌, refl, ◌∙◌, List, [], ◌∷◌, ◌++◌, length, map, take, ok,
  arith, All, append_assoc, if◌then◌else◌, length-take, ltb,
}
use rbkit.Time.{Timeval}
use rbkit.Event.{ObjectSpaceDumpEvent}
use rbkit.Event.Codes
use rbkit.Event.Codes.{code}
use rbkit.ObjectGraph.Pages.{ObjectData, Heap}
use rbkit.Msgpack.{Call, Msgpack, pack_map, pack_array, pack_unsigned}
use rbkit.Msgpack.Value.{values}
use rbkit.Msgpack.Reader.{wire}
use rbkit.Msgpack.Parses.{
  Packs, ParsesItems, ParsesItems-done, ParsesItems-item, Parses-array, Parses-int, Parses-unsigned,
  ParsesPairs-end,
}
use rbkit.Packer.Calls.{int, key, pack_event_header}
use rbkit.Packer.Dump.{max_object_dumps_in_message, pack_objects, objects_in_batch}
use rbkit.Packer.Walk.{At, Advanced, pack_next-At}
use rbkit.Packer.DumpObjects.{PackableObject, object_calls, Parses-object}
use rbkit.Packer.Frames.{object_object, object_space_dump_frame}
use rbkit.Packer.Pieces.{ParsesPairs-entry, Parses-frame}
use rbkit.Packer.Messages.{message_depth}

pub batch_small : (ds : List ObjectData) → length (take max_object_dumps_in_message ds) < 2 ^ 32
batch_small ds = small max_object_dumps_in_message (omega arith)
  where
    small : (n : ℕ) → n < 2 ^ 32 → length (take n ds) < 2 ^ 32
    small n h = omega (arith, length-take n ds)

-- A dump event with the objects `objects` still to be packed.
pub record Pending (old : Heap) (e : ObjectSpaceDumpEvent) (h : Heap) (objects : List ObjectData)
    : Type 0 where
  pub at : At old e h objects
  pub counted : e.object_count ≡ e.packed_objects + length objects
  pub few : e.object_count < 2 ^ 64
  pub type_lem : e.event_type ≡ code Codes.object_space_dump
  pub correlation_fits : e.correlation_id < 2 ^ 31

pub batch_size :
    (n : ℕ) (ds : List ObjectData)
    → (if ltb (length ds) n then length ds else n) ≡ length (take n ds)
batch_size n ds = ground (arith, length-take n ds)

-- A message takes the next 1000 objects, or what is left.
pub objects_in_batch-Pending :
    (old : Heap) (e : ObjectSpaceDumpEvent) (h : Heap) (objects : List ObjectData)
    → Pending old e h objects
    → objects_in_batch e ≡ length (take max_object_dumps_in_message objects)
unfolding objects_in_batch
objects_in_batch-Pending old e h objects p =
    let left : (e.object_count + 2 ^ 64 - e.packed_objects) % 2 ^ 64 ≡ length objects =
      omega (arith, p.counted, p.few) in
    rw left (batch_size max_object_dumps_in_message objects)

pub All-append :
    (xs ys : List ObjectData)
    → All PackableObject (xs ++ ys)
    → All PackableObject xs × All PackableObject ys
All-append [] ys h = (tt, h)
All-append (x ∷ xs) ys h = let (a, b) = All-append xs ys h.1 in ((h.0, a), b)

module _ ⦃m : Msgpack⦄ where
  open m use {Double}

  abbrev pub objects_calls : List ObjectData → List (Call Double)
  objects_calls [] = []
  objects_calls (d ∷ ds) = object_calls d (objects_calls ds)

  pub object_calls-append :
      (d : ObjectData) (cs : List (Call Double)) → object_calls d [] ++ cs ≡ object_calls d cs
  object_calls-append d cs = simp append_assoc

  pub pack_objects-At :
      (old : Heap) (e : ObjectSpaceDumpEvent) (h : Heap) (front back : List ObjectData)
      → At old e h (front ++ back)
      → All PackableObject front
      → (e' : ObjectSpaceDumpEvent) × (h' : Heap) × (pack_objects (length front) e h
          ≡ ok (objects_calls front, e', h'))
        × At old e' h' back
        × Advanced (length front) e e'
  unfolding pack_objects
  pack_objects-At old e h [] back at p = (
    e,
    h,
    refl,
    at,
    record { packed = omega arith; same_count = refl; same_type = refl; same_correlation = refl },
  )
  pack_objects-At old e h (d ∷ front) back at p =
      let (e₁, h₁, q, at₁, adv₁) = pack_next-At old e h d (front ++ back) at p.0 in
      let (e', h', r, at', adv) = pack_objects-At old e₁ h₁ front back at₁ p.1 in
      (
        e',
        h',
        rw (q, r, object_calls-append d (objects_calls front)),
        at',
        record {
          packed = omega (arith, adv₁.packed, adv.packed);
          same_count = adv.same_count ∙ adv₁.same_count;
          same_type = adv.same_type ∙ adv₁.same_type;
          same_correlation = adv.same_correlation ∙ adv₁.same_correlation;
        },
      )

  pub ParsesItems-objects :
      {d : ℕ} (ds : List ObjectData) (rest : List ℕ)
      → All PackableObject ds
      → ParsesItems
          (suc (suc (suc d)))
          (length ds)
          (wire (objects_calls ds) rest)
          (values (map object_object ds))
          rest
  ParsesItems-objects [] rest h = ParsesItems-done rest
  ParsesItems-objects (d ∷ ds) rest h =
      ParsesItems-item (Parses-object d _ rest h.0) (ParsesItems-objects ds rest h.1)

  abbrev pub dump_calls : Timeval → ℕ → ℕ → List ObjectData → List (Call Double)
  dump_calls tv correlation count ds =
      pack_map 5
      ∷ (pack_event_header tv (code Codes.object_space_dump)
          ++ (key Codes.correlation_id
              ∷ int correlation
              ∷ key Codes.complete_message_count
              ∷ pack_unsigned count
              ∷ key Codes.payload
              ∷ pack_array (length ds)
              ∷ objects_calls ds))

  pub dump_calls-Packs :
      (tv : Timeval) (correlation count : ℕ) (ds : List ObjectData)
      → All PackableObject ds
      → correlation < 2 ^ 31
      → count < 2 ^ 64
      → length ds < 2 ^ 32
      → Packs message_depth
          (dump_calls tv correlation count ds)
          (object_space_dump_frame tv correlation count ds)
  dump_calls-Packs tv correlation count ds h c n l rest =
      Parses-frame tv Codes.object_space_dump _ rest (omega arith) (
        ParsesPairs-entry Codes.correlation_id _ rest (Parses-int _ rest (omega arith)) (
          ParsesPairs-entry Codes.complete_message_count _ rest (Parses-unsigned _ rest n) (
            ParsesPairs-entry Codes.payload _ rest
              (Parses-array _ rest l (ParsesItems-objects ds rest h)) ParsesPairs-end)))
