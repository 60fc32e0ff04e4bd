-- ===== src/Examples/Sending.antt =====
-- Single events sent at concrete inputs.
use rbkit.Prelude.{
  ℕ, ◌≡◌, refl, ap, true, false, none, some, List, [], ◌∷◌, length, All, pos, Outcome, ok, raised,
  fault, out_of_fuel, arith,
}
use rbkit.Time.{Timeval}
use rbkit.Event.{
  RubyValue, fixnum, other, FrameData, CpuSample, header, hash, sample, new_rbkit_hash_event,
  new_rbkit_cpu_sample_event, event_type_of,
}
use rbkit.Event.Codes
use rbkit.Event.Codes.{EventType, code}
use rbkit.Aggregator.{unset, message_list_new}
use rbkit.Aggregator.Refine.{message_list_new-Represents}
use rbkit.Msgpack.Value.{no_pairs}
use rbkit.Msgpack.Reader.{wire}
use rbkit.Msgpack.Wire.{message_pack, encode, big_endian, twos_complement}
use rbkit.Packer.{Packed, contents, pack_event, pack_event_header_only}
use rbkit.Packer.Calls.{pack_event_header, pack_string, int_as_size}
use rbkit.Packer.Hash.{pack_hash_event, pack_pairs, hash_pack_iterator, pack_value_object}
use rbkit.Packer.Sample.{pack_cpu_sample_event, pack_frames, pack_frame}
use rbkit.Packer.Frames.{frame, hash_frame, cpu_sample_frame}
use rbkit.Packer.Messages.{IsGcType}
use rbkit.Packer.HashFrames.{PackablePair}
use rbkit.Packer.SampleFrames.{PackableFrame}
use rbkit.Examples.Sockets.{both_sockets}
use rbkit.Server.{
  Server, gc_start_i, gc_end_mark_i, gc_end_sweep_i, queue_cpu_sample_for_sending,
  send_hash_as_event,
}
use rbkit.Server.Hooks.{
  Fits, Delivered, gc_hooks-Delivered, queue_cpu_sample_for_sending-Delivered,
  send_hash_as_event-Delivered,
}

abbrev pub midnight : Timeval
midnight = record { tv_sec = 1427328000; tv_usec = 1000 }

abbrev pub new_server : Server
new_server = record {
  has_logger = true;
  messages = message_list_new unset;
  packer = record { counter = 0; heap = record { fresh = 1; page_at = λ a. none } };
  last_correlation_id = 0;
  test_mode_enabled = false;
  registered_jobs = 0;
  channels = both_sockets;
}

abbrev pub packed_bytes : Outcome Packed → ℕ
packed_bytes (ok p) = length (contents p)
packed_bytes (raised e) = 0
packed_bytes fault = 0
packed_bytes out_of_fuel = 0

gc_message-Fits : (t : EventType) → IsGcType t → Fits midnight (header (code t)) new_server []
unfolding pack_event pack_event_header_only pack_event_header wire message_pack encode big_endian
    twos_complement event_type_of code
gc_message-Fits Codes.gc_start h p e = omega (arith, ap packed_bytes e)
gc_message-Fits Codes.gc_end_m h p e = omega (arith, ap packed_bytes e)
gc_message-Fits Codes.gc_end_s h p e = omega (arith, ap packed_bytes e)
gc_message-Fits _ h p e = absurd h

gc_hooks-Delivered_example :
    ((s' : Server) × (gc_start_i midnight new_server ≡ ok s')
      × Delivered new_server [] (frame midnight Codes.gc_start no_pairs) s')
    × ((s' : Server) × (gc_end_mark_i midnight new_server ≡ ok s')
        × Delivered new_server [] (frame midnight Codes.gc_end_m no_pairs) s')
    × ((s' : Server) × (gc_end_sweep_i midnight new_server ≡ ok s')
        × Delivered new_server [] (frame midnight Codes.gc_end_s no_pairs) s')
gc_hooks-Delivered_example =
    gc_hooks-Delivered midnight new_server [] (message_list_new-Represents unset) (omega arith)
      gc_message-Fits

abbrev gc_numbers : List (RubyValue message_pack.Double × RubyValue message_pack.Double)
gc_numbers = (other (99 ∷ []), fixnum (pos 3)) ∷ []

gc_numbers_packable : All PackablePair gc_numbers
gc_numbers_packable = (((omega arith, refl), omega arith), tt)

gc_numbers-Fits :
    Fits midnight (hash (new_rbkit_hash_event (code Codes.gc_stats) gc_numbers)) new_server []
unfolding pack_event pack_hash_event pack_pairs hash_pack_iterator pack_value_object pack_string
    int_as_size pack_event_header wire message_pack encode big_endian twos_complement event_type_of
    code new_rbkit_hash_event
gc_numbers-Fits p e = omega (arith, ap packed_bytes e)

send_hash_as_event-Delivered_example :
    (s' : Server) × (send_hash_as_event midnight gc_numbers (code Codes.gc_stats) new_server
      ≡ ok (true, s'))
    × Delivered new_server [] (hash_frame midnight Codes.gc_stats gc_numbers) s'
send_hash_as_event-Delivered_example =
    send_hash_as_event-Delivered midnight new_server [] (message_list_new-Represents unset)
      (omega arith) Codes.gc_stats gc_numbers refl tt gc_numbers_packable (omega arith)
      gc_numbers-Fits

abbrev only_frame : FrameData
only_frame = record {
  method_name = some (97 ∷ []);
  label = some (98 ∷ []);
  file = none;
  line = 5;
  is_singleton_method = 1;
  thread_id = 70;
}

only_frame_packable : All PackableFrame (only_frame ∷ [])
only_frame_packable = (
  record {
    name_fits = omega arith;
    label_fits = omega arith;
    file_fits = tt;
    line_fits = omega arith;
    singleton_fits = omega arith;
    thread_fits = omega arith;
  },
  tt,
)

abbrev one_frame : CpuSample
one_frame = record { frame_count = 1; frames = only_frame ∷ [] }

one_frame-Fits : Fits midnight (sample (new_rbkit_cpu_sample_event one_frame)) new_server []
unfolding pack_event pack_cpu_sample_event pack_frames pack_frame pack_string int_as_size
    pack_event_header wire message_pack encode big_endian twos_complement event_type_of code
    new_rbkit_cpu_sample_event
one_frame-Fits p e = omega (arith, ap packed_bytes e)

queue_cpu_sample_for_sending-Delivered_example :
    (s' : Server) × (queue_cpu_sample_for_sending midnight one_frame new_server ≡ ok s')
    × Delivered new_server [] (cpu_sample_frame midnight (only_frame ∷ [])) s'
queue_cpu_sample_for_sending-Delivered_example =
    queue_cpu_sample_for_sending-Delivered midnight new_server []
      (message_list_new-Represents unset) (omega arith) (only_frame ∷ []) only_frame_packable
      (omega arith) one_frame-Fits
