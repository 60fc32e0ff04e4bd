-- ===== src/Examples/Sampling.antt =====
-- A sample of one frame, taken when Ruby runs the job.
use rbkit.Prelude.{
  ℕ, ◌≤◌, ltb, ◌&&◌, ◌==◌, if◌then◌else◌, ◌≡◌, refl, ap, true, none, some, List, [], ◌∷◌, length,
  All, ok, arith,
}
use rbkit.Event.{CpuSample, sample, new_rbkit_cpu_sample_event, event_type_of}
use rbkit.Event.Codes.{code}
use rbkit.Aggregator.{unset}
use rbkit.Aggregator.Refine.{message_list_new-Represents}
use rbkit.Msgpack.Reader.{wire}
use rbkit.Msgpack.Wire.{message_pack, encode, big_endian, twos_complement}
use rbkit.Packer.{pack_event}
use rbkit.Packer.Calls.{pack_event_header, pack_string, int_as_size}
use rbkit.Packer.Sample.{pack_cpu_sample_event, pack_frames, pack_frame}
use rbkit.Packer.Frames.{cpu_sample_frame}
use rbkit.Packer.SampleFrames.{PackableFrame}
use rbkit.Server.{Server}
use rbkit.Server.Hooks.{Fits, Delivered}
use rbkit.Sampling.{Sampler}
use rbkit.Sampling.Signals.{sigprof, itimer_prof}
use rbkit.Sampling.Frames.{ProfileFrame, sampling_job_handler}
use rbkit.Sampling.Sample.{Sampled, seen, sampling_job_handler-Delivered}
use rbkit.Examples.Sending.{midnight, new_server, packed_bytes}

-- A method "a" of a file that is known by its path only.
abbrev top_frame : ProfileFrame
top_frame = record {
  method_name = some (97 ∷ []);
  full_label = some (65 ∷ 35 ∷ 97 ∷ []);
  absolute_path = none;
  path = some (102 ∷ []);
  first_lineno = 3;
  singleton_method = true;
}

-- A stack of that frame.
abbrev one_deep : ℕ → ℕ → List ProfileFrame
one_deep start limit = if ltb 0 limit && (start == 0) then top_frame ∷ [] else []

one_deep_limit : (start limit : ℕ) → length (one_deep start limit) ≤ limit
one_deep_limit start limit = ground arith

abbrev installed : Sampler
installed = record {
  signal_type = sigprof;
  clock_type = itimer_prof;
  has_queue_func = true;
  sampling_jobs = 1;
}

top_frame-Sampled : All Sampled (top_frame ∷ [])
top_frame-Sampled = (record { name_text = refl; label_text = refl; file_text = refl }, tt)

top_frame_packable : All PackableFrame (seen 70 top_frame ∷ [])
top_frame_packable = (
  record {
    name_fits = omega arith;
    label_fits = omega arith;
    file_fits = omega arith;
    line_fits = omega arith;
    singleton_fits = omega arith;
    thread_fits = omega arith;
  },
  tt,
)

abbrev top_sample : CpuSample
top_sample = record { frame_count = 1; frames = seen 70 top_frame ∷ [] }

top_sample-Fits : Fits midnight (sample (new_rbkit_cpu_sample_event top_sample)) new_server []
unfolding pack_event pack_cpu_sample_event pack_frames pack_frame pack_string int_as_size
    pack_event_header wire message_pack encode big_endian twos_complement event_type_of code
    new_rbkit_cpu_sample_event
top_sample-Fits p e = omega (arith, ap packed_bytes e)

sampling_job_handler-Delivered_example :
    (s' : Server) × (sampling_job_handler one_deep midnight 70 installed new_server ≡ ok s')
    × Delivered new_server [] (cpu_sample_frame midnight (seen 70 top_frame ∷ [])) s'
sampling_job_handler-Delivered_example =
    sampling_job_handler-Delivered one_deep one_deep_limit midnight 70 installed new_server []
      (message_list_new-Represents unset) (omega arith) refl top_frame-Sampled top_frame_packable
      top_sample-Fits
