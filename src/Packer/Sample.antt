-- ===== src/Packer/Sample.antt =====
-- pack_cpu_sample_event of ext/rbkit_event_packer.c.
use rbkit.Prelude.{ℕ, zero, suc, List, [], ◌∷◌, ◌++◌, Outcome, ok, fault, ◌>>=◌}
use rbkit.Time.{Timeval}
use rbkit.Event.{FrameData, CpuSampleEvent}
use rbkit.Event.Codes.{payload, method_name, label, file, line, singleton_method, thread_id}
use rbkit.Msgpack.{Call, Msgpack, pack_unsigned, pack_array, pack_map}
use rbkit.Packer.Calls.{int, key, pack_string, pack_event_header}

module _ {D : Type 0} where
  -- the body of the loop over the frames
  unfoldable pub pack_frame : FrameData → Outcome (List (Call D))
  pack_frame f = do
    name ← pack_string f.method_name
    full_label ← pack_string f.label
    path ← pack_string f.file
    ok (
        pack_map 6
        ∷ key method_name
        ∷ (name
            ++ (key label
                ∷ (full_label
                    ++ (key file
                        ∷ (path
                            ++ (key line
                                ∷ pack_unsigned f.line
                                ∷ key singleton_method
                                ∷ int f.is_singleton_method
                                ∷ key thread_id
                                ∷ pack_unsigned f.thread_id
                                ∷ [])))))))

  -- for(count = 0; count != sample->frame_count; count++): the first number is the rounds left
  unfoldable pub pack_frames : ℕ → List FrameData → Outcome (List (Call D))
  unfolding pack_frame
  pack_frames zero frames = ok []
  pack_frames (suc n) [] = fault
  pack_frames (suc n) (f ∷ frames) = do
    cs ← pack_frame f
    rest ← pack_frames n frames
    ok (cs ++ rest)

module _ ⦃m : Msgpack⦄ where
  open m use {Double}

  unfoldable pub pack_cpu_sample_event : Timeval → CpuSampleEvent → Outcome (List (Call Double))
  unfolding pack_event_header pack_frames
  pack_cpu_sample_event tv e = do
    frames ← pack_frames e.sample.frame_count e.sample.frames
    ok (
        pack_map 3
        ∷ (pack_event_header tv e.event_type
            ++ (key payload ∷ pack_array e.sample.frame_count ∷ frames)))
