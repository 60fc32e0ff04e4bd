-- ===== src/Server/Objects.antt =====
-- newobj_i and freeobj_i of ext/rbkit_server.c: the allocation tables change, and a message is sent.
use rbkit.Prelude.{
  ℕ, ◌^◌, ◌<◌, ◌≡◌, refl, inl, inr, Bool, Bool-cases, not, ◌&&◌, Option, none, some, List, length,
  if◌then◌else◌, Outcome, ok, ◌>>=◌,
}
use rbkit.Time.{Timeval}
use rbkit.Event.{
  CString, AllocationInfo, created, destroyed, new_rbkit_obj_created_event,
  new_rbkit_obj_destroyed_event,
}
use rbkit.Aggregator.Grow.{Represents}
use rbkit.Allocation.{
  Info, info_text, TraceArg, Allocations, new_rbkit_allocation_info, delete_rbkit_allocation_info,
}
use rbkit.Allocation.Table.{StTable}
use rbkit.Allocation.Strings.{Shared}
use rbkit.Allocation.Counts.{IsValid}
use rbkit.Allocation.Created.{Recorded, new_rbkit_allocation_info-Recorded}
use rbkit.Allocation.Removed.{Forgotten, delete_rbkit_allocation_info-Forgotten}
use rbkit.ObjectGraph.{BuiltinType, t_none, t_zombie, t_iclass, t_imemo, t_other, is_dumped_type}
use rbkit.Msgpack.{Msgpack}
use rbkit.Packer.Pieces.{Packable}
use rbkit.Packer.Frames.{obj_created_frame, obj_destroyed_frame}
use rbkit.Packer.Messages.{pack_event-obj_created, pack_event-obj_destroyed}
use rbkit.Server.{Server, send_event}
use rbkit.Server.Hooks.{Fits, Delivered, send_event-Sends}

-- What the Ruby VM says of a new object.
pub record NewObject : Type 0 where
  pub trace : TraceArg
  pub object_id : ℕ
  pub klass_nil : Bool
  pub builtin_type : BuiltinType
  pub klass_name : CString

-- new_class_name, on Ruby 2.3 and above
unfoldable pub new_class_name : NewObject → Option CString
new_class_name o =
    if not o.klass_nil && is_dumped_type o.builtin_type then some o.klass_name else none

-- The name that a client is to see: none for an object without a class, or of an internal type.
abbrev pub name_seen : NewObject → Option CString
name_seen o =
    if o.klass_nil then none else elim o.builtin_type [ t_other ↦ some o.klass_name | _ ↦ none ]

new_class_name_lem : (o : NewObject) → new_class_name o ≡ name_seen o
unfolding new_class_name
new_class_name_lem o = elim (Bool-cases o.klass_nil) [
  | inl e ↦ rw e refl
  | inr n ↦ rw n (by_type o.builtin_type o.klass_name)
]
  where
    by_type :
        (t : BuiltinType) (name : CString)
        → (if is_dumped_type t then some name else none)
          ≡ (elim t [ t_other ↦ some name | _ ↦ none ])
    by_type t_none name = refl
    by_type t_zombie name = refl
    by_type t_iclass name = refl
    by_type t_imemo name = refl
    by_type t_other name = refl

module _ ⦃m : Msgpack⦄ ⦃strings : StTable CString Shared⦄ ⦃objects : StTable ℕ Info⦄ where
  unfoldable pub newobj_i :
      Timeval → NewObject → Server → Allocations → Outcome (Server × Allocations)
  unfolding new_class_name
  newobj_i tv o s a = do
    (info, a') ← new_rbkit_allocation_info o.trace a
    let event =
        new_rbkit_obj_created_event o.object_id (new_class_name o)
          (info_text a'.str_table.heap info)
    s' ← send_event tv (created event) s
    ok (s', a')

  unfoldable pub freeobj_i : Timeval → ℕ → ℕ → Server → Allocations → Outcome (Server × Allocations)
  freeobj_i tv obj object_id s a = do
    a' ← delete_rbkit_allocation_info obj a
    s' ← send_event tv (destroyed (new_rbkit_obj_destroyed_event object_id)) s
    ok (s', a')

  module _ (tv : Timeval) (s : Server) (messages : List (List ℕ))
      (r : Represents s.messages messages) (few : length messages < 2 ^ 62) (a : Allocations)
      (v : IsValid a) (fits : length (objects.entries a.object_table) < 2 ^ 62) where
    -- A new object with a 64-bit id, a line that fits an int and a packable class name: its
    -- allocation is recorded as Ruby reported it, and an obj_created message with its id and class
    -- name is queued behind the others, if the counts of the strings are exact and if fewer than
    -- 2 ^ 62 objects, messages and bytes are kept then.
    pub newobj_i-Delivered :
        (o : NewObject)
        → o.trace.line < 2 ^ 31
        → o.object_id < 2 ^ 64
        → Packable (name_seen o)
        → ((info : AllocationInfo)
            → Fits tv
                (created (new_rbkit_obj_created_event o.object_id (name_seen o) info))
                s
                messages)
        → (info : Info) × (s' : Server) × (a' : Allocations) × (newobj_i tv o s a ≡ ok (s', a'))
          × Recorded o.trace a info a'
          × Delivered s messages (obj_created_frame tv o.object_id (name_seen o)) s'
    unfolding newobj_i
    newobj_i-Delivered o small id name room =
        let (info, a', q, rec) = new_rbkit_allocation_info-Recorded o.trace a v fits small in
        let text = info_text a'.str_table.heap info in
        let (s', q', d) =
          send_event-Sends tv s messages r few _ _
            (pack_event-obj_created tv o.object_id (name_seen o) text s.packer id name)
            (room text) in
        (info, s', a', rw (q, new_class_name_lem o, q') refl, rec, d)

    -- A freed object with a 64-bit id: nothing is known of its allocation any more, and an
    -- obj_destroyed message with its id is queued behind the others, if the counts of the strings
    -- are exact and if fewer than 2 ^ 62 objects, messages and bytes are kept then.
    pub freeobj_i-Delivered :
        (obj object_id : ℕ)
        → object_id < 2 ^ 64
        → Fits tv (destroyed (new_rbkit_obj_destroyed_event object_id)) s messages
        → (s' : Server) × (a' : Allocations) × (freeobj_i tv obj object_id s a ≡ ok (s', a'))
          × Forgotten obj a a'
          × Delivered s messages (obj_destroyed_frame tv object_id) s'
    unfolding freeobj_i
    freeobj_i-Delivered obj object_id id room =
        let (a', q, f) = delete_rbkit_allocation_info-Forgotten obj a v fits in
        let (s', q', d) =
          send_event-Sends tv s messages r few _ _
            (pack_event-obj_destroyed tv object_id s.packer id) room in
        (s', a', rw (q, q') refl, f, d)
