-- ===== src/Allocator/Tests.antt =====
-- Slot 0 holds a tensor of 8 bytes, then one of 6; slot 1 holds one of 4. A new address is above those
-- of the live buffers.
use tensor_torrent.Base.{suc, max, ℕ, ◌<◌, ◌≡◌, ◌≢◌, refl, List, [], ◌∷◌, some, arith, ok}
use tensor_torrent.Base.Dict.{Dict, get, set}
use tensor_torrent.Allocator.{
  Buffer, Empty, AllocationRecord, new_allocator, acquire_slot, release_slot_of, storage_ptr,
  record_of, allocate, reuse, release_of,
}
use tensor_torrent.Allocator.Acquire.{Holds, acquire_slot-Holds}
use tensor_torrent.Allocator.Histories.{storage_ptr-acquire_slot}
use tensor_torrent.Allocator.Storage.{IsFresh, in_use, after, in_use-storage_ptr}
use tensor_torrent.Allocator.Invariant.{Call, acquires, releases, step, run}

top : Dict Buffer → ℕ
top [] = 0
top ((slot_id, buf) ∷ buffers) = max (suc buf.data_ptr) (top buffers)

empty : Empty
unfolding top
empty a nbytes device = top a.buffers

below_top :
    (buffers : Dict Buffer) (x : ℕ) {buf : Buffer}
    → get x buffers ≡ some buf
    → buf.data_ptr < top buffers
unfolding get top
below_top [] x h = cc
below_top ((slot_id, b) ∷ buffers) x {buf} h = ground (arith, below_top buffers x {buf = buf})

empty-IsFresh : IsFresh empty
unfolding empty
empty-IsFresh a nbytes device x buf found same e = omega (arith, below_top a.buffers x found, e)

abbrev calls : List Call
calls = acquires 0 10 8 0 ∷ acquires 1 11 4 0 ∷ releases 0 ∷ acquires 0 12 6 0 ∷ []

abbrev entry : AllocationRecord
entry = record {
  allocation_id = 0;
  capacity_bytes = 8;
  current_tensor_id = some 12;
  reuse_history = 10 ∷ 12 ∷ [];
  events = allocate 0 10 8 0 ∷ release_of 0 (some 10) ∷ reuse 0 12 ∷ [];
  device = 0;
}

calls-record : get 0 (run empty new_allocator calls).records ≡ some entry
unfolding run step acquire_slot release_slot_of get set new_allocator record_of empty
calls-record = refl

in_use-storage_ptr_example :
    Holds (run empty new_allocator calls) 0 12 6 0
    × ((y : ℕ) (c : Buffer)
        → 0 ≢ y
        → get y (run empty new_allocator calls).buffers ≡ some c
        → c.device ≡ 0
        → storage_ptr (run empty new_allocator calls) 0 ≢ ok c.data_ptr)
unfolding in_use after
in_use-storage_ptr_example = in_use-storage_ptr empty empty-IsFresh calls 0 12 6 0 refl

storage_ptr-acquire_slot_example :
    storage_ptr (acquire_slot empty (run empty new_allocator calls) 0 13 7 0) 1
    ≡ storage_ptr (run empty new_allocator calls) 1
storage_ptr-acquire_slot_example =
    storage_ptr-acquire_slot empty calls 0 13 7 calls-record (omega arith) 1

acquire_slot-Holds_example : Holds (acquire_slot empty new_allocator 0 10 8 0) 0 10 8 0
acquire_slot-Holds_example = acquire_slot-Holds empty new_allocator 0 10 8 0
