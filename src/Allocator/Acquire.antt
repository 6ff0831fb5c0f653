-- ===== src/Allocator/Acquire.antt =====
-- One acquisition: the buffer that the slot has afterwards.
use tensor_torrent.Base.{
  ℕ, ◌≤◌, ◌≡◌, refl, inl, inr, true, false, some, arith, ==_iff, Bool-cases, Option-cases,
}
use tensor_torrent.Base.Dict.{Dict, get, set, get-set}
use tensor_torrent.Allocator.{
  Buffer, AllocationRecord, ActivationAllocator, Empty, record_of, needs_alloc, use_slot,
  new_buffer, allocated, reused, acquire_slot,
}

-- The slot's buffer has the room and the device, and the slot's record names the tensor.
pub record Holds (a : ActivationAllocator) (slot_id tensor_id nbytes device : ℕ) : Type 0 where
  pub buf : Buffer
  pub entry : AllocationRecord
  pub buffered : get slot_id a.buffers ≡ some buf
  pub recorded : get slot_id a.records ≡ some entry
  pub roomy : nbytes ≤ buf.numel
  pub placed : buf.device ≡ device
  pub named : entry.current_tensor_id ≡ some tensor_id

pub get-set_self {ℓ} : {V : Type ℓ} (k : ℕ) (v : V) (d : Dict V) → get k (set k v d) ≡ some v
get-set_self k v d = rw (get-set k k v d, (==_iff k k).1 refl) refl

module _ (empty : Empty) (a : ActivationAllocator) (slot_id tensor_id nbytes device : ℕ) where
  pub acquire_slot-allocates :
      needs_alloc (get slot_id a.buffers) (record_of a slot_id device) nbytes device ≡ true
      → acquire_slot empty a slot_id tensor_id nbytes device
        ≡ allocated a slot_id tensor_id
            (new_buffer empty a nbytes device)
            (record_of a slot_id device)
  unfolding acquire_slot
  acquire_slot-allocates h = rw h refl

  pub acquire_slot-reuses :
      needs_alloc (get slot_id a.buffers) (record_of a slot_id device) nbytes device ≡ false
      → acquire_slot empty a slot_id tensor_id nbytes device
        ≡ reused a slot_id tensor_id (record_of a slot_id device)
  unfolding acquire_slot
  acquire_slot-reuses h = rw h refl

  -- What is reused is there, roomy, on the device, and recorded so.
  pub reusable :
      needs_alloc (get slot_id a.buffers) (record_of a slot_id device) nbytes device ≡ false
      → (buf : Buffer) × (get slot_id a.buffers ≡ some buf)
        × (nbytes ≤ buf.numel)
        × (buf.device ≡ device)
        × ((record_of a slot_id device).device ≡ device)
  unfolding needs_alloc
  reusable h = elim (Option-cases (get slot_id a.buffers)) [
    | inl absent ↦ ground arith
    | inr (buf, found) ↦ (
      buf,
      found,
      ground arith,
      ground (arith, ==_iff buf.device device),
      ground (arith, ==_iff (record_of a slot_id device).device device),
    )
  ]

  allocated-Holds :
      Holds
        (allocated a slot_id tensor_id
          (new_buffer empty a nbytes device)
          (record_of a slot_id device))
        slot_id
        tensor_id
        nbytes
        device
  unfolding allocated use_slot new_buffer
  allocated-Holds = record {
    buf = new_buffer empty a nbytes device;
    entry = _;
    buffered = get-set_self slot_id _ a.buffers;
    recorded = get-set_self slot_id _ a.records;
    roomy = omega arith;
    placed = refl;
    named = refl;
  }

  reused-Holds :
      needs_alloc (get slot_id a.buffers) (record_of a slot_id device) nbytes device ≡ false
      → Holds
          (reused a slot_id tensor_id (record_of a slot_id device))
          slot_id
          tensor_id
          nbytes
          device
  unfolding reused use_slot
  reused-Holds kept =
      let (buf, found, roomy, placed, recorded) = reusable kept in
      record {
        buf = buf;
        entry = _;
        buffered = found;
        recorded = get-set_self slot_id _ a.records;
        roomy = roomy;
        placed = placed;
        named = refl;
      }

  -- Afterwards the slot's buffer has the room for the tensor, on its device, and the slot's record
  -- names the tensor, whether the buffer is new or reused.
  pub acquire_slot-Holds :
      Holds (acquire_slot empty a slot_id tensor_id nbytes device) slot_id tensor_id nbytes device
  acquire_slot-Holds =
      elim (Bool-cases
        (needs_alloc (get slot_id a.buffers) (record_of a slot_id device) nbytes device)) [
          | inl new ↦ rw (acquire_slot-allocates new) (allocated-Holds)
          | inr kept ↦ rw (acquire_slot-reuses kept) (reused-Holds kept)
        ]
