-- ===== src/Lib.antt =====
-- rbkit: the C extension of a Ruby profiler, from the events of a traced process to the messages
-- that a client receives.
--
-- The program. Hooks of the Ruby VM build event structures (ext/rbkit_event.c); `pack_event`
-- (ext/rbkit_event_packer.c) packs an event into a buffer as one MessagePack message; the server
-- (ext/rbkit_server.c) appends each message to a growing array (ext/rbkit_message_aggregator.c),
-- and a job that is registered when 400 messages are queued, or by a timer, publishes the array as
-- the payload of one event_collection message. An object space dump walks the Ruby heap into a
-- linked list of pages (ext/rbkit_object_graph.c), and is then packed 1000 objects at a time,
-- which frees the pages. The protocol is described in docs/protocol.md. The server itself is Ruby
-- code (lib/rbkit/server.rb): a thread polls for the requests of a client, answers each, and
-- publishes what is queued when a timer says so; a Ruby program starts and stops it
-- (lib/rbkit.rb).
--
-- The files. `Prelude` has lists, tests and the outcome of a C function: a value, a Ruby
-- exception, a fault (undefined behaviour: a bad access, an indeterminate value, an overflow of a
-- signed int), or fuel used up; `Prelude/Fixnums` is FIX2INT. `Memory` has blocks with `malloc`,
-- `realloc` and `memcpy`. `Aggregator` models ext/rbkit_message_aggregator.c: a record of its
-- static variables and a function for each of its functions; `Aggregator/Grow`, `Refine` and
-- `History` relate it to a list of messages. `Event`, `Event/Codes` and `Time` have the
-- structures, codes and clocks. `ObjectGraph` models ext/rbkit_object_graph.c on a heap of pages
-- (`ObjectGraph/Pages`), with proofs in `Shape`, `Build` and `Collect`. `Packer` and the files
-- `Packer/Calls`, `Hash`, `Sample` and `Dump` model ext/rbkit_event_packer.c: an event is packed
-- into the list of its calls on the msgpack packer. `Packer/Frames` states the frames of
-- docs/protocol.md, and `Pieces`, `Messages`, `HashFrames`, `SampleFrames`, `DumpObjects`,
-- `Cursor`, `Walk`, `DumpCalls`, `DumpFrames` and `Errors` prove what is packed. `Collection` is
-- `get_event_collection_message`. `Server` models sending and publishing, with the hooks of the
-- garbage collector, CPU samples and hashes (proofs in `Server/Publish` and `Server/Hooks`), and
-- `Server/Dump` models `send_objectspace_dump`. `Tracing` models how the server, the tracing and
-- the profiler are started and stopped, as steps on the logger's flags and tables
-- (`Tracing/Steps`), with what holds of every reachable state in `Tracing/Consistent` and
-- `Tracing/Reach`. `Allocation` models ext/rbkit_allocation_info.c: the infos of `Allocation` hold
-- addresses of strings that `Allocation/Strings` shares and counts; `Strings/Pool`,
-- `Strings/Change` and `Strings/Unique` keep the counts exact, `Release`, `Counts`, `Created` and
-- `Removed` relate the tables to what is known of each object, `History` runs them, `Clear` frees
-- them, and `Dumped` joins them to the dump of the object space. `Server/Objects` has the hooks
-- for new and freed objects, `Server/Outlets` the sockets and callbacks, `Server/Requests` what a
-- client is answered, with the test helper of ext/rbkit_test_helper.c (proofs in
-- `Server/Responses`), and `Server/Rounds` sends many messages. `Sampling` models
-- ext/rbkit_sampling_profiler.c: the signal and its timer, and the job that collects the frames
-- (`Sampling/Frames`, proof in `Sampling/Sample`); `Tracing/Profiler` turns it on and off.
-- `Tracing/Sockets` binds the sockets of a server that starts, with proofs in `Tracing/Endpoints`,
-- `Tracing/Returns` and `Tracing/Binding`.
--
-- `Library` is the Ruby library. `Library/State` joins the statics of the extension to the
-- instance variables of Rbkit::Server, and gives each function of the extension the part that it
-- touches; `Library/Methods` has the methods that start and stop, `Library/Answers` the requests,
-- `Library/Dispatch` a round of the dispatch loop, with `Library/Timers` (lib/rbkit/timer.rb) and
-- `Library/GcStats` (lib/rbkit/rbkit_gc.rb), and `Library/Api` the functions of lib/rbkit.rb.
-- `Library/Life` has the calls, the rounds and the events of the Ruby VM as steps; the files
-- `Library/Sound` to `Library/SoundStop` prove what each step keeps, and `Library/Invariant` joins
-- them. `Library/Views` states what a client sees, proved in `Switches`, `Outlets`, `Carried`,
-- `CarryOut` and `Replies`, and `Snapshot` follows a dump to its publication; `StatsKeys` and
-- `StatsSent` are about the statistics, `QuietRounds` and `Rounds` about the loop, `OtherMode`
-- about a mode that is not stopped, and `Configure`, `Starting` and `Restart` about starting and
-- stopping. `Examples` has runs at concrete inputs.
--
-- The msgpack library is the record `Msgpack`: the bytes of each packer call, an unpacker of one
-- item, and the law that the unpacker reads back each item that the format can hold.
-- `Msgpack/Reader` reads whole objects, and `Msgpack/Wire` meets the laws with MessagePack's
-- widest forms.
--
-- Ruby's hash tables (`st_table`) are the record `StTable` of `Allocation/Table`: lookup,
-- insertion, deletion and the entries, with their documented laws. `Allocation/Assoc` and
-- `Allocation/Tables` meet the laws with lists of entries.
--
-- Signals and timers are the record `Posix` of `Sampling/Signals`, with the documented laws of
-- sigaction and setitimer, met by `Sampling/Process`. What Ruby reports of an object, a frame or
-- the process, and what ZeroMQ reports of a socket, is an argument.
--
-- A port is a Ruby integer that is not negative. The tracepoints that a start takes the place of
-- are kept in a list, since Ruby goes on running those that were enabled. A socket pointer that
-- was closed is kept as such, and closing it again is a fault.
--
-- Machine numbers. `size_t` and `unsigned long` wrap at 2 ^ 64 and `int` at 2 ^ 32, written out;
-- the theorems' bounds of 2 ^ 62 queued bytes and messages lie beyond any memory. The array's loop
-- gets fuel 64: 64 doublings bring every 64-bit capacity that is not 0 past every size. The loop
-- of a dump gets fuel for one message an object. The depths of 5 and 7 given to the reader are
-- those of the frames.
--
-- Not modelled: failing allocation; the working of the sockets; threads, and a signal that comes
-- while other code runs; what RBKIT_DEV measures, with the CPU clock; the registration of methods
-- and constants with Ruby; the sleep of the dispatch loop, at_exit and messages on stderr; the
-- state that a call leaves when it raises. The branches for msgpack below version 1 and for Ruby
-- below 2.3 are left out. Strings are their bytes before the terminating zero, and stay alive
-- while they are used. Freeing the event structures themselves is left out, and so is an event
-- whose structure is not that of its type, which only a caller of send_hash_as_event outside the
-- library can make; it comes out as a fault. What ZeroMQ does with a message for a socket that was
-- closed is not modelled.
pub mod Prelude
pub mod Memory
pub mod Aggregator
pub mod Msgpack
pub mod Event
pub mod Time
pub mod ObjectGraph
pub mod Packer
pub mod Collection
pub mod Allocation
pub mod Server
pub mod Sampling
pub mod Tracing
pub mod Library
pub mod Examples
