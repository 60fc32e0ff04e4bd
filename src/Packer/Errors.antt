-- ===== src/Packer/Errors.antt =====
-- What `pack_event` does with an event whose type is unknown.
use rbkit.Prelude.{◌≤◌, ◌≡◌, raised, not_implemented, arith}
use rbkit.Time.{Timeval}
use rbkit.Event.{Event, event_type_of}
use rbkit.Msgpack.{Msgpack}
use rbkit.Packer.{PackerState, pack_event}

module _ ⦃m : Msgpack⦄ where
  open m use {Double}

  -- An event whose type is none of the ten is refused with NotImplementedError, whatever its
  -- structure.
  pack_event-not_implemented :
      (tv : Timeval) (e : Event Double) (s : PackerState)
      → 10 ≤ event_type_of e
      → pack_event tv e s ≡ raised not_implemented
  unfolding pack_event
  pack_event-not_implemented tv e s h = ground arith
