-- ===== src/Server/Dump.antt =====
-- send_objectspace_dump of ext/rbkit_server.c, and new_rbkit_object_space_dump_event of ext/rbkit_event.c.
pub mod Start
pub mod Batches
pub mod Loop
pub mod Whole
use rbkit.Prelude.{
  ℕ, zero, suc, ◌+◌, ◌-◌, ◌^◌, Option, none, some, List, ltb, leb, if◌then◌else◌, Outcome, ok,
  fault, out_of_fuel, ◌>>=◌,
}
use rbkit.Time.{Timeval}
use rbkit.Event.{AllocationInfo, ObjectSpaceDumpEvent, dump}
use rbkit.Event.Codes.{code, object_space_dump}
use rbkit.ObjectGraph.Pages.{Heap, free}
use rbkit.ObjectGraph.{ObjectDump, RubyObject, get_object_dump}
use rbkit.Msgpack.{Msgpack}
use rbkit.Packer.{contents, pack_event, as_dump}
use rbkit.Server.{Server, send_message}

-- A count that was never set is read: a fault.
unfoldable pub read_count : Option ℕ → Outcome ℕ
read_count none = fault
read_count (some n) = ok n

-- The first number is the static `correlation_id`, an int, and so is the one returned.
unfoldable pub new_rbkit_object_space_dump_event :
    ℕ → ObjectDump → Outcome (ObjectSpaceDumpEvent × ℕ)
unfolding read_count
new_rbkit_object_space_dump_event correlation d = do
  count ← read_count d.object_count
  let e : ObjectSpaceDumpEvent = record {
    event_type = code object_space_dump;
    packed_objects = 0;
    object_count = count;
    current_page = d.first;
    current_page_index = 0;
    correlation_id = correlation + 1;
  }
  if ltb (correlation + 1) (2 ^ 31) then ok (e, correlation + 1) else fault

module _ ⦃m : Msgpack⦄ where
  open m use {Double}

  -- The body of the loop.
  unfoldable pub send_batch :
      Timeval → ObjectSpaceDumpEvent → Server → Outcome (ObjectSpaceDumpEvent × Server)
  unfolding send_message
  send_batch tv e s = do
    p ← pack_event tv (dump e) s.packer
    e' ← as_dump p.event
    s' ← send_message (contents p) (record s { packer = p.state })
    ok (e', s')

  -- while(event->packed_objects < event->object_count), where `clock` is the time at each round
  unfoldable pub send_batches :
      ℕ
      → (ℕ → Timeval)
      → ℕ
      → ObjectSpaceDumpEvent
      → Server
      → Outcome (ObjectSpaceDumpEvent × Server)
  unfolding send_batch
  send_batches zero clock k e s =
      if ltb e.packed_objects e.object_count then out_of_fuel else ok (e, s)
  send_batches (suc fuel) clock k e s =
      let next = (do (e', s') ← send_batch (clock k) e s; send_batches fuel clock (k + 1) e' s') in
      if ltb e.packed_objects e.object_count then next else ok (e, s)

  -- Each round packs an object at least.
  unfoldable pub send_objectspace_dump :
      (ℕ → Timeval) → (ℕ → Option AllocationInfo) → List (List RubyObject) → Server → Outcome Server
  unfolding new_rbkit_object_space_dump_event send_batches
  send_objectspace_dump clock table ranges s = do
    (d, heap') ← get_object_dump table ranges s.packer.heap
    (e, correlation) ← new_rbkit_object_space_dump_event s.last_correlation_id d
    let s₁ : Server = record s {
      last_correlation_id = correlation;
      packer = record s.packer { heap = heap' };
    }
    (e', s₂) ← send_batches e.object_count clock 0 e s₁
    h ← free s₂.packer.heap e'.current_page
    ok (record s₂ { packer = record s₂.packer { heap = h } })
