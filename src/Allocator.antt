-- ===== src/Allocator.antt =====
-- `ActivationAllocator` of python/tensortorrent/runtime/allocation_pool.py: one growable buffer for
-- each slot of the plan. Of a torch tensor the model has its address, its length in bytes and its
-- device. The address that `torch.empty` gives is a parameter, `empty`. What is copied into the view
-- is not modelled. A slot's dict of an event is a constructor.
pub mod Acquire
pub mod Invariant
pub mod Histories
pub mod Storage
mod Tests
use tensor_torrent.Base.{
  ℕ, suc, max, Bool, true, false, not, ◌||◌, List, [], ◌∷◌, ◌++◌, Option, none, some, ltb, ◌==◌,
  if◌then◌else◌, Result, ok, err, runtime_plan_error,
}
use tensor_torrent.Base.Dict.{Dict, get, set}

pub record Buffer : Type 0 where
  pub data_ptr : ℕ
  pub numel : ℕ
  pub device : ℕ

pub data AllocationEvent : Type 0 where
  allocate : (slot_id tensor_id capacity_bytes device : ℕ) → AllocationEvent
  reuse : (slot_id tensor_id : ℕ) → AllocationEvent
  release_of : (slot_id : ℕ) (tensor_id : Option ℕ) → AllocationEvent

pub record AllocationRecord : Type 0 where
  pub allocation_id : ℕ
  pub capacity_bytes : ℕ
  pub current_tensor_id : Option ℕ
  pub reuse_history : List ℕ
  pub events : List AllocationEvent
  pub device : ℕ

pub record ActivationAllocator : Type 0 where
  pub buffers : Dict Buffer
  pub records : Dict AllocationRecord

unfoldable pub new_allocator : ActivationAllocator
new_allocator = record { buffers = []; records = [] }

-- The address that `torch.empty` gives, by the allocator when it is called, the size and the device.
-- The records have every event of the past, so it may differ from one call to the next, and an address
-- may come again.
abbrev pub Empty : Type 0
Empty = ActivationAllocator → (nbytes device : ℕ) → ℕ

-- The record of the slot, or a new one.
pub record_of : ActivationAllocator → ℕ → ℕ → AllocationRecord
record_of a slot_id device = elim (get slot_id a.records) [
  | none ↦ record {
    allocation_id = slot_id;
    capacity_bytes = 0;
    current_tensor_id = none;
    reuse_history = [];
    events = [];
    device = device;
  }
  | some known ↦ known
]

pub needs_alloc : Option Buffer → AllocationRecord → ℕ → ℕ → Bool
needs_alloc none entry nbytes device = true
needs_alloc (some buf) entry nbytes device =
    ltb buf.numel nbytes || (not (buf.device == device) || not (entry.device == device))

-- The end of `acquire`: the tensor is entered in the slot's record.
use_slot : ActivationAllocator → ℕ → ℕ → AllocationRecord → ActivationAllocator
use_slot a slot_id tensor_id entry = record a {
  records =
      set slot_id
        (record entry {
          reuse_history = entry.reuse_history ++ tensor_id ∷ [];
          current_tensor_id = some tensor_id;
        })
        a.records;
}

pub new_buffer : Empty → ActivationAllocator → ℕ → ℕ → Buffer
new_buffer empty a nbytes device = record {
  data_ptr = empty a (max nbytes 1) device;
  numel = max nbytes 1;
  device = device;
}

-- The branch that allocates.
pub allocated : ActivationAllocator → ℕ → ℕ → Buffer → AllocationRecord → ActivationAllocator
unfolding use_slot
allocated a slot_id tensor_id buf entry =
    use_slot (record a { buffers = set slot_id buf a.buffers }) slot_id tensor_id
      (record entry {
        capacity_bytes = buf.numel;
        device = buf.device;
        events = entry.events ++ allocate slot_id tensor_id buf.numel buf.device ∷ [];
      })

-- The branch that reuses the buffer.
pub reused : ActivationAllocator → ℕ → ℕ → AllocationRecord → ActivationAllocator
unfolding use_slot
reused a slot_id tensor_id entry =
    use_slot a slot_id tensor_id
      (record entry { events = entry.events ++ reuse slot_id tensor_id ∷ [] })

-- The view is the first `nbytes` bytes of the slot's buffer, so it is left out.
pub acquire_slot : Empty → ActivationAllocator → ℕ → ℕ → ℕ → ℕ → ActivationAllocator
unfolding needs_alloc new_buffer allocated reused
acquire_slot empty a slot_id tensor_id nbytes device =
    let entry = record_of a slot_id device in
    if needs_alloc (get slot_id a.buffers) entry nbytes device
    then allocated a slot_id tensor_id (new_buffer empty a nbytes device) entry
    else reused a slot_id tensor_id entry

pub release_slot_of : ActivationAllocator → ℕ → ActivationAllocator
release_slot_of a slot_id = elim (get slot_id a.records) [
  | none ↦ a
  | some entry ↦ record a {
    records =
        set slot_id
          (record entry {
            events = entry.events ++ release_of slot_id entry.current_tensor_id ∷ [];
            current_tensor_id = none;
          })
          a.records;
  }
]

pub storage_ptr : ActivationAllocator → ℕ → Result ℕ
storage_ptr a slot_id = elim (get slot_id a.buffers) [
  | none ↦ err runtime_plan_error
  | some buf ↦ ok buf.data_ptr
]
