-- ===== src/Server/Dump/Batches.antt =====
-- The messages that a dump is sent in.
use rbkit.Prelude.{
  ℕ, zero, suc, ◌+◌, ◌^◌, ◌<◌, ◌≤◌, ◌≡◌, refl, ap, ◌∙◌, List, [], ◌∷◌, ◌++◌, length, flatten, take,
  drop, All, arith, take-append-drop, length-drop, length-take,
}
use rbkit.Time.{Timeval}
use rbkit.ObjectGraph.Pages.{ObjectData}
use rbkit.Msgpack.{Msgpack}
use rbkit.Msgpack.Reader.{wire}
use rbkit.Packer.DumpObjects.{PackableObject}
use rbkit.Packer.DumpCalls.{dump_calls, All-append}
use rbkit.Packer.DumpFrames.{dump_calls-reads}
use rbkit.Packer.Frames.{Object, object_space_dump_frame}
use rbkit.Collection.Batch.{Readable, none, more}

-- The objects in batches of `size`; the first number is at least that of the batches.
abbrev pub in_batches : ℕ → ℕ → List ObjectData → List (List ObjectData)
in_batches size zero ds = []
in_batches size (suc n) [] = []
in_batches size (suc n) (d ∷ ds) = take size (d ∷ ds) ∷ in_batches size n (drop size (d ∷ ds))

-- The batches hold every object once, in order.
pub flatten-in_batches :
    (size n : ℕ) (ds : List ObjectData)
    → 0 < size
    → length ds ≤ n
    → flatten (in_batches size n ds) ≡ ds
flatten-in_batches size zero [] pos h = refl
flatten-in_batches size zero (d ∷ ds) pos h = absurd (omega arith)
flatten-in_batches size (suc n) [] pos h = refl
flatten-in_batches size (suc n) (d ∷ ds) pos h =
    ap (◌++◌ (take size (d ∷ ds))) (
      flatten-in_batches size n (drop size (d ∷ ds)) pos (omega (arith, length-drop size (d ∷ ds))))
    ∙ take-append-drop size (d ∷ ds)

-- No batch is larger than `size`.
pub in_batches_small :
    (size n : ℕ) (ds : List ObjectData) → All (λ b. length b ≤ size) (in_batches size n ds)
in_batches_small size zero ds = tt
in_batches_small size (suc n) [] = tt
in_batches_small size (suc n) (d ∷ ds) =
    (omega (arith, length-take size (d ∷ ds)), in_batches_small size n (drop size (d ∷ ds)))

module _ ⦃m : Msgpack⦄ (clock : ℕ → Timeval) (correlation count : ℕ) where
  -- The bytes of the messages for the batches, the first at time `clock k`.
  abbrev pub batch_messages : ℕ → List (List ObjectData) → List (List ℕ)
  batch_messages k [] = []
  batch_messages k (b ∷ bs) =
      wire (dump_calls (clock k) correlation count b) [] ∷ batch_messages (k + 1) bs

  -- The frames that a client reads.
  abbrev pub batch_frames : ℕ → List (List ObjectData) → List Object
  batch_frames k [] = []
  batch_frames k (b ∷ bs) =
      object_space_dump_frame (clock k) correlation count b ∷ batch_frames (k + 1) bs

  pub batch_messages-Readable :
      (size n k : ℕ) (ds : List ObjectData)
      → size < 2 ^ 32
      → All PackableObject ds
      → correlation < 2 ^ 31
      → count < 2 ^ 64
      → Readable (batch_messages k (in_batches size n ds)) (batch_frames k (in_batches size n ds))
  batch_messages-Readable size zero k ds z h c l = none
  batch_messages-Readable size (suc n) k [] z h c l = none
  batch_messages-Readable size (suc n) k (d ∷ ds) z h c l =
      let parts : All PackableObject (take size (d ∷ ds))
          × All PackableObject (drop size (d ∷ ds)) =
        All-append (take size (d ∷ ds)) (drop size (d ∷ ds))
          (rw (take-append-drop size (d ∷ ds)) h) in
      more
        (λ rest.
          dump_calls-reads (clock k) correlation count (take size (d ∷ ds)) rest parts.0 c l
            (omega (arith, length-take size (d ∷ ds))))
        (batch_messages-Readable size n (k + 1) (drop size (d ∷ ds)) z parts.1 c l)
