-- ===== src/Library/Names.antt =====
-- Symbols and texts that lib/rbkit/server.rb is given: the requests of a client, and the names of
-- clocks and modes.
use rbkit.Prelude.{Bool, false, ascii, if◌then◌else◌, Option, none, some}
use rbkit.Event.{CString}
use rbkit.Allocation.Tables.{same_bytes}

-- A Ruby object where a symbol is expected, with what its `to_s` returns.
pub data Name : Type 0 where
  symbol : CString → Name
  no_symbol : CString → Name

abbrev pub bytes_of : Name → CString
bytes_of (symbol s) = s
bytes_of (no_symbol s) = s

-- mode == :sampling
unfoldable pub is_sampling : Name → Bool
is_sampling (symbol s) = same_bytes s (ascii "sampling")
is_sampling (no_symbol s) = false

-- SYMBOL_P(clock_type) and clock_type == ID2SYM(rb_intern("wall"))
unfoldable pub clock_type_of : Name → Option Bool
clock_type_of (symbol s) = some (same_bytes s (ascii "wall"))
clock_type_of (no_symbol s) = none

-- The cases of `process_incoming_request`; every other text has none.
pub data Request : Type 0 where
  start_memory_profile stop_memory_profile trigger_gc objectspace_snapshot : Request
  handshake use_cpu_time use_wall_time start_cpu_profiling stop_cpu_profiling : Request
  unknown : Request

unfoldable pub request_of : CString → Request
request_of text =
    if same_bytes text (ascii "start_memory_profile")
    then Request.start_memory_profile
    else if same_bytes text (ascii "stop_memory_profile")
    then Request.stop_memory_profile
    else if same_bytes text (ascii "trigger_gc")
    then Request.trigger_gc
    else if same_bytes text (ascii "objectspace_snapshot")
    then Request.objectspace_snapshot
    else if same_bytes text (ascii "handshake")
    then Request.handshake
    else if same_bytes text (ascii "use_cpu_time")
    then Request.use_cpu_time
    else if same_bytes text (ascii "use_wall_time")
    then Request.use_wall_time
    else if same_bytes text (ascii "start_cpu_profiling")
    then Request.start_cpu_profiling
    else if same_bytes text (ascii "stop_cpu_profiling")
    then Request.stop_cpu_profiling
    else Request.unknown
