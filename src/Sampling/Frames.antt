-- ===== src/Sampling/Frames.antt =====
-- sampling_job_handler of ext/rbkit_sampling_profiler.c.
use rbkit.Prelude.{
  ℕ, Bool, Option, none, some, List, [], ◌∷◌, length, if◌then◌else◌, Outcome, ok, raised, fault,
  argument_error, type_error, ◌>>=◌,
}
use rbkit.Time.{Timeval}
use rbkit.Event.{CString, FrameData, CpuSample}
use rbkit.Msgpack.{Msgpack}
use rbkit.Packer.Hash.{has_zero}
use rbkit.Sampling.{Sampler}
use rbkit.Server.{Server, queue_cpu_sample_for_sending}

abbrev pub buf_size : ℕ
buf_size = 2048

-- What Ruby says of a frame; a string is none for nil.
pub record ProfileFrame : Type 0 where
  pub method_name : Option (List ℕ)
  pub full_label : Option (List ℕ)
  pub absolute_path : Option (List ℕ)
  pub path : Option (List ℕ)
  pub first_lineno : ℕ
  pub singleton_method : Bool

-- StringValueCStr, which raises for nil and for a string with a zero byte.
unfoldable pub string_value_cstr : Option (List ℕ) → Outcome CString
string_value_cstr none = raised type_error
string_value_cstr (some s) = if has_zero s then raised argument_error else ok s

-- NULL for nil
unfoldable pub frame_method_name : Option (List ℕ) → Outcome (Option CString)
unfolding string_value_cstr
frame_method_name none = ok none
frame_method_name (some s) = do name ← string_value_cstr (some s); ok (some name)

unfoldable pub frame_file : ProfileFrame → Option (List ℕ)
frame_file f = elim f.absolute_path [ none ↦ f.path | some s ↦ some s ]

unfoldable pub collect_frame : ℕ → ProfileFrame → Outcome FrameData
unfolding string_value_cstr frame_method_name frame_file
collect_frame thread f = do
  name ← frame_method_name f.method_name
  label ← string_value_cstr f.full_label
  file ← string_value_cstr (frame_file f)
  ok (record {
    method_name = name;
    label = some label;
    file = some file;
    line = f.first_lineno;
    is_singleton_method = if f.singleton_method then 1 else 0;
    thread_id = thread;
  })

unfoldable pub collect_frames : ℕ → List ProfileFrame → Outcome (List FrameData)
unfolding collect_frame
collect_frames thread [] = ok []
collect_frames thread (f ∷ fs) = do
  d ← collect_frame thread f
  ds ← collect_frames thread fs
  ok (d ∷ ds)

module _ ⦃m : Msgpack⦄ (rb_profile_frames : ℕ → ℕ → List ProfileFrame) where
  -- `rb_profile_frames` gives the frames from a first one on, up to a limit.
  unfoldable pub sampling_job_handler : Timeval → ℕ → Sampler → Server → Outcome Server
  unfolding collect_frames
  sampling_job_handler tv thread c s = do
    ds ← collect_frames thread (rb_profile_frames 0 buf_size)
    let sample : CpuSample = record {
      frame_count = length (rb_profile_frames 0 buf_size);
      frames = ds;
    }
    if c.has_queue_func then queue_cpu_sample_for_sending tv sample s else fault
