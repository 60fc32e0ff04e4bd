-- ===== src/Packer/SampleFrames.antt =====
-- `pack_event` on CPU samples.
use rbkit.Prelude.{
  ℕ, suc, ◌^◌, ◌<◌, ◌≡◌, refl, List, [], ◌∷◌, ◌++◌, length, map, ok, arith, All, append_assoc,
}
use rbkit.Time.{Timeval}
use rbkit.Event.{FrameData, CpuSample, sample, new_rbkit_cpu_sample_event}
use rbkit.Event.Codes
use rbkit.Event.Codes.{code}
use rbkit.Msgpack.{Call, Msgpack, pack_unsigned, pack_array, pack_map}
use rbkit.Msgpack.Value.{values}
use rbkit.Msgpack.Reader.{wire}
use rbkit.Msgpack.Parses.{
  Parses, ParsesItems, Parses-int, Parses-unsigned, Parses-array, Parses-map, ParsesPairs-end,
  ParsesItems-done, ParsesItems-item,
}
use rbkit.Packer.{PackerState, pack_event}
use rbkit.Packer.Calls.{int, key, pack_event_header}
use rbkit.Packer.Sample.{pack_frame, pack_frames, pack_cpu_sample_event}
use rbkit.Packer.Frames.{frame_object, cpu_sample_frame}
use rbkit.Packer.Pieces.{
  Packable, ParsesPairs-entry, string_calls, pack_string_lem, Parses-string, Parses-frame,
}
use rbkit.Packer.Messages.{Sends, Sends-calls}

-- A frame that can be packed: strings whose length fits an int, numbers of 64 and 31 bits.
pub record PackableFrame (f : FrameData) : Type 0 where
  pub name_fits : Packable f.method_name
  pub label_fits : Packable f.label
  pub file_fits : Packable f.file
  pub line_fits : f.line < 2 ^ 64
  pub singleton_fits : f.is_singleton_method < 2 ^ 31
  pub thread_fits : f.thread_id < 2 ^ 64

module _ ⦃m : Msgpack⦄ where
  open m use {Double}

  -- The calls for a frame, and then `cs`.
  abbrev frame_calls : FrameData → List (Call Double) → List (Call Double)
  frame_calls f cs =
      pack_map 6
      ∷ key Codes.method_name
      ∷ (string_calls f.method_name
          ++ (key Codes.label
              ∷ (string_calls f.label
                  ++ (key Codes.file
                      ∷ (string_calls f.file
                          ++ (key Codes.line
                              ∷ pack_unsigned f.line
                              ∷ key Codes.singleton_method
                              ∷ int f.is_singleton_method
                              ∷ key Codes.thread_id
                              ∷ pack_unsigned f.thread_id
                              ∷ cs))))))

  abbrev frames_calls : List FrameData → List (Call Double)
  frames_calls [] = []
  frames_calls (f ∷ fs) = frame_calls f (frames_calls fs)

  pack_frames_lem :
      (fs : List FrameData)
      → All PackableFrame fs
      → pack_frames (length fs) fs ≡ ok (frames_calls fs)
  unfolding pack_frames pack_frame
  pack_frames_lem [] h = refl
  pack_frames_lem (f ∷ fs) h =
      rw
        (
          pack_string_lem f.method_name h.0.name_fits,
          pack_string_lem f.label h.0.label_fits,
          pack_string_lem f.file h.0.file_fits,
          pack_frames_lem fs h.1,
        )
        (simp append_assoc)

  Parses-frame_object :
      {d : ℕ} (f : FrameData) (cs : List (Call Double)) (rest : List ℕ)
      → PackableFrame f
      → Parses (suc (suc d)) (wire (frame_calls f cs) rest) (frame_object f) (wire cs rest)
  Parses-frame_object f cs rest h = Parses-map _ rest (omega arith) (
      ParsesPairs-entry Codes.method_name _ rest (Parses-string f.method_name _ rest h.name_fits) (
        ParsesPairs-entry Codes.label _ rest (Parses-string f.label _ rest h.label_fits) (
          ParsesPairs-entry Codes.file _ rest (Parses-string f.file _ rest h.file_fits) (
            ParsesPairs-entry Codes.line _ rest (Parses-unsigned _ rest h.line_fits) (
              ParsesPairs-entry Codes.singleton_method _ rest
                (Parses-int _ rest (omega (arith, h.singleton_fits)))
                (ParsesPairs-entry Codes.thread_id _ rest (Parses-unsigned _ rest h.thread_fits)
                  ParsesPairs-end))))))

  ParsesItems-frames :
      {d : ℕ} (fs : List FrameData) (rest : List ℕ)
      → All PackableFrame fs
      → ParsesItems
          (suc (suc d))
          (length fs)
          (wire (frames_calls fs) rest)
          (values (map frame_object fs))
          rest
  ParsesItems-frames [] rest h = ParsesItems-done rest
  ParsesItems-frames (f ∷ fs) rest h =
      ParsesItems-item (Parses-frame_object f _ rest h.0) (ParsesItems-frames fs rest h.1)

  abbrev sample_calls : Timeval → List FrameData → List (Call Double)
  sample_calls tv fs =
      pack_map 3
      ∷ (pack_event_header tv (code Codes.cpu_sample)
          ++ (key Codes.payload ∷ pack_array (length fs) ∷ frames_calls fs))

  -- A sample of packable frames, fewer than 2 ^ 32, is sent as a cpu_sample frame whose payload
  -- has one map for each frame of the call stack, in the stack's order.
  pub pack_event-cpu_sample :
      (tv : Timeval) (fs : List FrameData) (s : PackerState)
      → All PackableFrame fs
      → length fs < 2 ^ 32
      → let taken : CpuSample = record { frame_count = length fs; frames = fs } in
        Sends
          (pack_event tv (sample (new_rbkit_cpu_sample_event taken)) s)
          (cpu_sample_frame tv fs)
          s
  unfolding pack_event pack_cpu_sample_event new_rbkit_cpu_sample_event
  pack_event-cpu_sample tv fs s h small =
      let taken : CpuSample = record { frame_count = length fs; frames = fs } in
      Sends-calls (sample_calls tv fs) (sample (new_rbkit_cpu_sample_event taken)) _
        (rw (pack_frames_lem fs h))
        (λ rest. Parses-frame tv Codes.cpu_sample _ rest (omega arith) (
          ParsesPairs-entry Codes.payload _ rest
            (Parses-array _ rest small (ParsesItems-frames fs rest h)) ParsesPairs-end))
