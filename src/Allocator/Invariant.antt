-- ===== src/Allocator/Invariant.antt =====
-- What each acquisition and release keeps: a slot's buffer and its record come and go together.
use tensor_torrent.Base.{
  ℕ, ◌≤◌, ◌≡◌, refl, ◌∙◌, subst, inl, inr, false, List, [], ◌∷◌, Option, none, some, arith, ◌==◌,
  ==_iff, Bool-cases, Option-cases,
}
use tensor_torrent.Base.Dict.{get, set, get-set}
use tensor_torrent.Allocator.{
  Buffer, AllocationRecord, ActivationAllocator, Empty, new_allocator, record_of, needs_alloc,
  use_slot, new_buffer, allocated, reused, acquire_slot, release_slot_of,
}
use tensor_torrent.Allocator.Acquire.{reusable, acquire_slot-allocates, acquire_slot-reuses}

pub data Call : Type 0 where
  acquires : (slot_id tensor_id nbytes device : ℕ) → Call
  releases : (slot_id : ℕ) → Call

unfoldable pub step : Empty → ActivationAllocator → Call → ActivationAllocator
step empty a (acquires slot_id tensor_id nbytes device) =
    acquire_slot empty a slot_id tensor_id nbytes device
step empty a (releases slot_id) = release_slot_of a slot_id

unfoldable pub run : Empty → ActivationAllocator → List Call → ActivationAllocator
run empty a [] = a
run empty a (call ∷ calls) = run empty (step empty a call) calls

-- A slot's buffer and its record, which come and go together.
abbrev pub Matched : Option Buffer → Option AllocationRecord → Type 0
Matched none none = Unit {0}
Matched none (some entry) = ⊥
Matched (some buf) none = ⊥
Matched (some buf) (some entry) = (entry.capacity_bytes ≡ buf.numel) × (entry.device ≡ buf.device)

pub record Inv (a : ActivationAllocator) : Type 0 where
  pub matched : (x : ℕ) → Matched (get x a.buffers) (get x a.records)

Matched-same :
    (entry new : AllocationRecord) (b : Option Buffer)
    → Matched b (some entry)
    → new.capacity_bytes ≡ entry.capacity_bytes
    → new.device ≡ entry.device
    → Matched b (some new)
Matched-same entry new none h capacity device = h
Matched-same entry new (some b) h capacity device = (capacity ∙ h.0, device ∙ h.1)

record_of-found :
    (a : ActivationAllocator) (x device : ℕ) {entry : AllocationRecord}
    → get x a.records ≡ some entry
    → record_of a x device ≡ entry
unfolding record_of
record_of-found a x device known = ground arith

-- A buffer with the room and the device is kept.
pub kept_of :
    (a : ActivationAllocator) (x nbytes : ℕ) (entry : AllocationRecord) (buf : Buffer)
    → get x a.records ≡ some entry
    → get x a.buffers ≡ some buf
    → nbytes ≤ buf.numel
    → buf.device ≡ entry.device
    → needs_alloc (get x a.buffers) (record_of a x entry.device) nbytes entry.device ≡ false
unfolding needs_alloc
kept_of a x nbytes entry buf known found fits device =
    rw (found, record_of-found a x entry.device known)
      (ground (
        arith,
        (==_iff buf.device entry.device).1 device,
        (==_iff entry.device entry.device).1 refl,
      ))

-- Where there is a buffer there is a record.
pub recorded_of :
    (buf : Buffer) (r : Option AllocationRecord)
    → Matched (some buf) r
    → (entry : AllocationRecord) × (r ≡ some entry)
recorded_of buf none h = absurd h
recorded_of buf (some entry) h = (entry, refl)

allocated-Inv :
    (empty : Empty) (a : ActivationAllocator)
    → Inv a
    → (slot_id tensor_id nbytes device : ℕ) (entry : AllocationRecord)
    → Inv (allocated a slot_id tensor_id (new_buffer empty a nbytes device) entry)
unfolding allocated use_slot
allocated-Inv empty a v slot_id tensor_id nbytes device entry = record {
  matched = λ x.
      let buf = new_buffer empty a nbytes device in
      elim (Bool-cases (slot_id == x)) [
        | inl same ↦
            rw (get-set slot_id x buf a.buffers, get-set slot_id x _ a.records, same) (refl, refl)
        | inr other ↦
            rw (get-set slot_id x buf a.buffers, get-set slot_id x _ a.records, other) (v.matched x)
      ];
}

-- The record of one slot is written, with its capacity and its device as they were.
module _ (a : ActivationAllocator) (v : Inv a) (slot_id : ℕ) (entry new : AllocationRecord) where
  recorded-Inv :
      get slot_id a.records ≡ some entry
      → new.capacity_bytes ≡ entry.capacity_bytes
      → new.device ≡ entry.device
      → Inv (record a { records = set slot_id new a.records })
  recorded-Inv found capacity device = record {
    matched = λ x. elim (Bool-cases (slot_id == x)) [
      | inl same ↦
          let known : get x a.records ≡ some entry =
            subst (λ y. get y a.records ≡ some entry) ((==_iff slot_id x).0 same) found in
          rw (get-set slot_id x new a.records, same)
            (Matched-same entry new _ (subst (Matched (get x a.buffers)) known (v.matched x))
              capacity device)
      | inr other ↦ rw (get-set slot_id x new a.records, other) (v.matched x)
    ];
  }

reused-Inv :
    (empty : Empty) (a : ActivationAllocator)
    → Inv a
    → (slot_id tensor_id nbytes device : ℕ)
    → needs_alloc (get slot_id a.buffers) (record_of a slot_id device) nbytes device ≡ false
    → Inv (reused a slot_id tensor_id (record_of a slot_id device))
unfolding reused use_slot
reused-Inv empty a v slot_id tensor_id nbytes device kept =
    let (buf, found, roomy, placed, same) = reusable empty a slot_id tensor_id nbytes device kept in
    let (entry, known) =
      recorded_of buf (get slot_id a.records)
        (subst (λ b. Matched b (get slot_id a.records)) found (v.matched slot_id)) in
    rw (record_of-found a slot_id device known) (recorded-Inv a v slot_id entry _ known refl refl)

releases-Inv : (a : ActivationAllocator) → Inv a → (slot_id : ℕ) → Inv (release_slot_of a slot_id)
unfolding release_slot_of
releases-Inv a v slot_id = elim (Option-cases (get slot_id a.records)) [
  | inl absent ↦ rw (release_slot_of, absent) v
  | inr (entry, known) ↦
      rw (release_slot_of, known) (recorded-Inv a v slot_id entry _ known refl refl)
]

module _ (empty : Empty) where
  pub step-Inv : (a : ActivationAllocator) → Inv a → (call : Call) → Inv (step empty a call)
  unfolding step
  step-Inv a v (releases slot_id) = releases-Inv a v slot_id
  step-Inv a v (acquires slot_id tensor_id nbytes device) =
      elim (Bool-cases
        (needs_alloc (get slot_id a.buffers) (record_of a slot_id device) nbytes device)) [
          | inl new ↦
              rw (acquire_slot-allocates empty a slot_id tensor_id nbytes device new) (
                allocated-Inv empty a v slot_id tensor_id nbytes device
                  (record_of a slot_id device))
          | inr kept ↦
              rw (acquire_slot-reuses empty a slot_id tensor_id nbytes device kept)
                (reused-Inv empty a v slot_id tensor_id nbytes device kept)
        ]

  pub run-Inv : (a : ActivationAllocator) → Inv a → (calls : List Call) → Inv (run empty a calls)
  unfolding run
  run-Inv a v [] = v
  run-Inv a v (call ∷ calls) = run-Inv (step empty a call) (step-Inv a v call) calls

pub new_allocator-Inv : Inv new_allocator
unfolding new_allocator get
new_allocator-Inv = record { matched = λ x. tt }
