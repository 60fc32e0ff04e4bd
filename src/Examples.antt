-- ===== src/Examples.antt =====
-- Runs of the model at concrete inputs, with the MessagePack format of rbkit.Msgpack.Wire.
mod Sockets
mod Queueing
mod Dumping
mod Sending
mod Starting
mod Allocating
mod Tracing
mod Sampling
mod Answering
mod Serving
mod Restarting
mod Rounds
mod Snapshots
