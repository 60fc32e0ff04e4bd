-- ===== src/Event.antt =====
-- ext/rbkit_event.h, ext/rbkit_event.c and the structures of the other headers that events hold.
-- A C string is the list of its bytes before the terminating zero; `none` is a NULL pointer.
pub mod Codes
use rbkit.Prelude.{ℕ, ◌+◌, ◌-◌, ◌^◌, Option, none, List, ℤ, Outcome, ok, fault, ◌==◌, if◌then◌else◌}
use rbkit.Memory.{Pointer}
use Codes.{
  EventType, code, obj_created, obj_destroyed, object_space_dump, event_collection, cpu_sample,
}

abbrev pub CString : Type 0
CString = List ℕ

-- rbkit_allocation_info
pub record AllocationInfo : Type 0 where
  pub path : Option CString
  pub line : ℕ
  pub class_path : Option CString
  pub method_id : ℕ
  pub generation : ℕ

-- A Ruby value as `pack_value_object` tells them apart: `other` holds the bytes that `to_s` returns.
pub data RubyValue (D : Type 0) : Type 0 where
  fixnum : ℤ → RubyValue D
  float : D → RubyValue D
  other : List ℕ → RubyValue D

-- rbkit_frame_data
pub record FrameData : Type 0 where
  pub method_name : Option CString
  pub label : Option CString
  pub file : Option CString
  pub line : ℕ
  pub is_singleton_method : ℕ
  pub thread_id : ℕ

-- rbkit_cpu_sample; `frames` are the elements of the array, and reading past them is a fault
pub record CpuSample : Type 0 where
  pub frame_count : ℕ
  pub frames : List FrameData

pub record ObjCreatedEvent : Type 0 where
  pub event_type : ℕ
  pub object_id : ℕ
  pub klass : Option CString
  pub allocation_info : AllocationInfo

pub record ObjDestroyedEvent : Type 0 where
  pub event_type : ℕ
  pub object_id : ℕ

pub record HashEvent (D : Type 0) : Type 0 where
  pub event_type : ℕ
  pub hash : List (RubyValue D × RubyValue D)

-- `current_page` is the address of a page, 0 for NULL.
pub record ObjectSpaceDumpEvent : Type 0 where
  pub event_type : ℕ
  pub packed_objects : ℕ
  pub object_count : ℕ
  pub current_page : ℕ
  pub current_page_index : ℕ
  pub correlation_id : ℕ

pub record CpuSampleEvent : Type 0 where
  pub event_type : ℕ
  pub sample : CpuSample

pub record EventCollectionEvent : Type 0 where
  pub event_type : ℕ
  pub buffer : Pointer
  pub buffer_size : ℕ
  pub message_count : ℕ

-- What an `rbkit_event_header *` may point to.
pub data Event (D : Type 0) : Type 0 where
  header : ℕ → Event D
  created : ObjCreatedEvent → Event D
  destroyed : ObjDestroyedEvent → Event D
  hash : HashEvent D → Event D
  dump : ObjectSpaceDumpEvent → Event D
  sample : CpuSampleEvent → Event D
  collection : EventCollectionEvent → Event D

-- event_header->event_type
unfoldable pub event_type_of : {D : Type 0} → Event D → ℕ
event_type_of (header t) = t
event_type_of (created e) = e.event_type
event_type_of (destroyed e) = e.event_type
event_type_of (hash e) = e.event_type
event_type_of (dump e) = e.event_type
event_type_of (sample e) = e.event_type
event_type_of (collection e) = e.event_type

unfoldable pub new_rbkit_obj_created_event : ℕ → Option CString → AllocationInfo → ObjCreatedEvent
new_rbkit_obj_created_event id klass info = record {
  event_type = code obj_created;
  object_id = id;
  klass = klass;
  allocation_info = info;
}

unfoldable pub new_rbkit_obj_destroyed_event : ℕ → ObjDestroyedEvent
new_rbkit_obj_destroyed_event id = record { event_type = code obj_destroyed; object_id = id }

unfoldable pub new_rbkit_hash_event :
    {D : Type 0} → ℕ → List (RubyValue D × RubyValue D) → HashEvent D
new_rbkit_hash_event t h = record { event_type = t; hash = h }

unfoldable pub new_rbkit_cpu_sample_event : CpuSample → CpuSampleEvent
new_rbkit_cpu_sample_event s = record { event_type = code cpu_sample; sample = s }

unfoldable pub new_rbkit_event_collection_event : Pointer → ℕ → ℕ → EventCollectionEvent
new_rbkit_event_collection_event buffer buffer_size message_count = record {
  event_type = code event_collection;
  buffer = buffer;
  buffer_size = buffer_size;
  message_count = message_count;
}
