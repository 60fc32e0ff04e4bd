-- ===== src/Sampling/Sample.antt =====
-- What a sample holds.
use rbkit.Prelude.{
  ℕ, ◌^◌, ◌≤◌, ◌<◌, ◌≡◌, refl, true, false, Option, none, some, List, [], ◌∷◌, length, map, All,
  if◌then◌else◌, ok, arith,
}
use rbkit.Time.{Timeval}
use rbkit.Event.{FrameData, CpuSample, sample, new_rbkit_cpu_sample_event}
use rbkit.Aggregator.Grow.{Represents}
use rbkit.Msgpack.{Msgpack}
use rbkit.Packer.Hash.{has_zero}
use rbkit.Packer.Frames.{cpu_sample_frame}
use rbkit.Packer.SampleFrames.{PackableFrame}
use rbkit.Sampling.{Sampler}
use rbkit.Sampling.Frames.{
  buf_size, ProfileFrame, string_value_cstr, frame_method_name, frame_file, collect_frame,
  collect_frames, sampling_job_handler,
}
use rbkit.Server.{Server}
use rbkit.Server.Hooks.{Fits, Delivered, queue_cpu_sample_for_sending-Delivered}

-- The absolute path of a frame's file, or else its path.
abbrev pub file_seen : Option (List ℕ) → Option (List ℕ) → Option (List ℕ)
file_seen none path = path
file_seen (some s) path = some s

-- A frame as the client is to see it.
abbrev pub seen : ℕ → ProfileFrame → FrameData
seen thread f = record {
  method_name = f.method_name;
  label = f.full_label;
  file = file_seen f.absolute_path f.path;
  line = f.first_lineno;
  is_singleton_method = if f.singleton_method then 1 else 0;
  thread_id = thread;
}

abbrev pub IsText : Option (List ℕ) → Type 0
IsText none = ⊥
IsText (some s) = has_zero s ≡ false

abbrev pub IsName : Option (List ℕ) → Type 0
IsName none = Unit
IsName (some s) = has_zero s ≡ false

-- The label and the file are known, and no string has a zero byte.
pub record Sampled (f : ProfileFrame) : Type 0 where
  pub name_text : IsName f.method_name
  pub label_text : IsText f.full_label
  pub file_text : IsText (file_seen f.absolute_path f.path)

frame_method_name-IsName : (o : Option (List ℕ)) → IsName o → frame_method_name o ≡ ok o
unfolding frame_method_name string_value_cstr
frame_method_name-IsName none h = refl
frame_method_name-IsName (some s) h = rw h refl

file_seen_lem : (f : ProfileFrame) → frame_file f ≡ file_seen f.absolute_path f.path
unfolding frame_file
file_seen_lem f = ground arith

text-IsText :
    (o : Option (List ℕ)) → IsText o → (s : List ℕ) × (o ≡ some s) × (string_value_cstr o ≡ ok s)
unfolding string_value_cstr
text-IsText none h = absurd h
text-IsText (some s) h = (s, refl, rw h refl)

collect_frame-Sampled :
    (thread : ℕ) (f : ProfileFrame) → Sampled f → collect_frame thread f ≡ ok (seen thread f)
unfolding collect_frame
collect_frame-Sampled thread f h =
    let (label, e, q) = text-IsText f.full_label h.label_text in
    let (file, e', q') = text-IsText (file_seen f.absolute_path f.path) h.file_text in
    rw (frame_method_name-IsName f.method_name h.name_text, q, file_seen_lem f, q', e, e') refl

collect_frames-Sampled :
    (thread : ℕ) (fs : List ProfileFrame)
    → All Sampled fs
    → collect_frames thread fs ≡ ok (map (seen thread) fs)
unfolding collect_frames
collect_frames-Sampled thread [] h = refl
collect_frames-Sampled thread (f ∷ fs) (h, hs) =
    rw (collect_frame-Sampled thread f h, collect_frames-Sampled thread fs hs) refl

length-map_seen : (thread : ℕ) (fs : List ProfileFrame) → length (map (seen thread) fs) ≡ length fs
length-map_seen thread [] = refl
length-map_seen thread (f ∷ fs) = omega (arith, length-map_seen thread fs)

module _ ⦃m : Msgpack⦄ (rb_profile_frames : ℕ → ℕ → List ProfileFrame)
    (within_limit : (start limit : ℕ) → length (rb_profile_frames start limit) ≤ limit) where
  abbrev stack : List ProfileFrame
  stack = rb_profile_frames 0 buf_size

  -- Once the profiler was installed, and if rb_profile_frames keeps to its limit and gives only
  -- frames with a label and a file, without zero bytes and packable, a sample of these frames is
  -- queued behind the other messages as one cpu_sample frame, each frame with the thread's id and
  -- the absolute path of its file or else its path, if at most 2 ^ 62 bytes and messages are queued
  -- then.
  pub sampling_job_handler-Delivered :
      (tv : Timeval) (thread : ℕ) (c : Sampler) (s : Server) (messages : List (List ℕ))
      → Represents s.messages messages
      → length messages < 2 ^ 62
      → c.has_queue_func ≡ true
      → All Sampled stack
      → All PackableFrame (map (seen thread) stack)
      → let taken : CpuSample = record {
        frame_count = length (map (seen thread) stack);
        frames = map (seen thread) stack;
      } in
        Fits tv (sample (new_rbkit_cpu_sample_event taken)) s messages
        → (s' : Server) × (sampling_job_handler rb_profile_frames tv thread c s ≡ ok s')
          × Delivered s messages (cpu_sample_frame tv (map (seen thread) stack)) s'
  unfolding sampling_job_handler
  sampling_job_handler-Delivered tv thread c s messages r few set h h' fits =
      let count = length-map_seen thread stack in
      let (s', q, d) =
        queue_cpu_sample_for_sending-Delivered tv s messages r few (map (seen thread) stack) h'
          (omega (arith, count, within_limit 0 buf_size)) fits in
      (s', rw (collect_frames-Sampled thread stack h, set, ← count) q, d)
