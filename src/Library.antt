-- ===== src/Library.antt =====
-- The Ruby library, lib/rbkit.rb and lib/rbkit, over the functions of ext/rbkit_server.c.
pub mod Names
pub mod Timers
pub mod State
pub mod Methods
pub mod Answers
pub mod GcStats
pub mod StatsKeys
pub mod Dispatch
pub mod Api
pub mod Life
pub mod Sound
pub mod SoundHooks
pub mod SoundRequests
pub mod SoundStart
pub mod SoundRounds
pub mod SoundQuiet
pub mod SoundStop
pub mod Invariant
pub mod OtherMode
pub mod Switches
pub mod Views
pub mod Outlets
pub mod Carried
pub mod CarryOut
pub mod Replies
pub mod Snapshot
pub mod StatsSent
pub mod QuietRounds
pub mod Rounds
pub mod Configure
pub mod Starting
pub mod Restart
