-- ===== src/Allocator/Histories.antt =====
-- Acquisitions and releases in any order, from the empty allocator.
use tensor_torrent.Base.{ℕ, ◌≤◌, ◌≡◌, refl, sym, subst, inl, inr, List, some, arith, Option-cases}
use tensor_torrent.Base.Dict.{get}
use tensor_torrent.Allocator.{
  Buffer, AllocationRecord, Empty, new_allocator, use_slot, reused, acquire_slot, storage_ptr,
}
use tensor_torrent.Allocator.Acquire.{acquire_slot-reuses}
use tensor_torrent.Allocator.Invariant.{Call, run, Matched, kept_of, run-Inv, new_allocator-Inv}

-- After any acquisitions and releases in any order, a slot's record has the size and the device of
-- the slot's buffer.
pub record-run :
    (empty : Empty) (calls : List Call) (x : ℕ) {entry : AllocationRecord}
    → get x (run empty new_allocator calls).records ≡ some entry
    → (buf : Buffer) × (get x (run empty new_allocator calls).buffers ≡ some buf)
      × (entry.capacity_bytes ≡ buf.numel)
      × (entry.device ≡ buf.device)
record-run empty calls x {entry} known =
    let a = run empty new_allocator calls in
    let v = run-Inv empty new_allocator new_allocator-Inv calls in
    let matched : Matched (get x a.buffers) (some entry) =
      subst (Matched (get x a.buffers)) known (v.matched x) in
    elim (Option-cases (get x a.buffers)) [
      | inl absent ↦ absurd (subst (λ b. Matched b (some entry)) absent matched)
      | inr (buf, found) ↦
          let both = subst (λ b. Matched b (some entry)) found matched in
          (buf, found, both.0, both.1)
    ]

-- After any acquisitions and releases in any order, an acquisition that fits the recorded capacity
-- of its slot, on the recorded device, leaves every slot's storage where it is.
pub storage_ptr-acquire_slot :
    (empty : Empty) (calls : List Call) (x tensor_id nbytes : ℕ) {entry : AllocationRecord}
    → get x (run empty new_allocator calls).records ≡ some entry
    → nbytes ≤ entry.capacity_bytes
    → (y : ℕ)
    → storage_ptr
        (acquire_slot empty (run empty new_allocator calls) x tensor_id nbytes entry.device)
        y
      ≡ storage_ptr (run empty new_allocator calls) y
unfolding storage_ptr reused use_slot
storage_ptr-acquire_slot empty calls x tensor_id nbytes {entry} known fits y =
    let a = run empty new_allocator calls in
    let (buf, found, capacity, device) = record-run empty calls x known in
    rw
      (acquire_slot-reuses empty a x tensor_id nbytes entry.device
        (kept_of a x nbytes entry buf known found (omega (arith, capacity, fits)) (sym device)))
      refl
