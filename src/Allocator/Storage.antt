-- ===== src/Allocator/Storage.antt =====
-- Who has which storage of python/tensortorrent/runtime/allocation_pool.py: after any acquisitions and
-- releases, a tensor that is in use has a storage of its own.
use tensor_torrent.Base.{
  ℕ, max, ◌≡◌, ◌≢◌, refl, sym, subst, ◌∙◌, ap, inl, inr, false, List, [], ◌∷◌, Option, none, some,
  arith, ◌==◌, if◌then◌else◌, ==_iff, Bool-cases, Option-cases, ok,
}
use tensor_torrent.Base.Dict.{get, get-set}
use tensor_torrent.Allocator.{
  Buffer, ActivationAllocator, Empty, new_allocator, record_of, needs_alloc, use_slot, new_buffer,
  allocated, reused, acquire_slot, release_slot_of, storage_ptr,
}
use tensor_torrent.Allocator.Acquire.{
  Holds, acquire_slot-Holds, acquire_slot-allocates, acquire_slot-reuses,
}
use tensor_torrent.Allocator.Invariant.{Call, acquires, releases, step, run}

-- What PyTorch promises of `torch.empty`: the storage is not that of a tensor that lives on the device.
-- The buffer that a slot gives up lives until the call is over, as the allocator still refers to it.
abbrev pub IsFresh : Empty → Type 0
IsFresh empty =
    (a : ActivationAllocator) (nbytes device slot_id : ℕ) (buf : Buffer)
    → get slot_id a.buffers ≡ some buf
    → buf.device ≡ device
    → empty a nbytes device ≢ buf.data_ptr

-- A tensor with its bytes and its device.
abbrev pub Use : Type 0
Use = ℕ × ℕ × ℕ

-- What is in use in each slot: what was acquired last, if no release came after it.
unfoldable pub after : (ℕ → Option Use) → Call → ℕ → Option Use
after used (acquires slot_id tensor_id nbytes device) x =
    if slot_id == x then some (tensor_id, nbytes, device) else used x
after used (releases slot_id) x = if slot_id == x then none else used x

unfoldable pub in_use : (ℕ → Option Use) → List Call → ℕ → Option Use
in_use used [] = used
in_use used (call ∷ calls) = in_use (after used call) calls

abbrev pub unused : ℕ → Option Use
unused x = none

-- Buffers of different slots on one device have different addresses.
abbrev Apart : ActivationAllocator → Type 0
Apart a =
    (x y : ℕ) (b c : Buffer)
    → (x == y) ≡ false
    → get x a.buffers ≡ some b
    → get y a.buffers ≡ some c
    → b.device ≡ c.device
    → b.data_ptr ≢ c.data_ptr

abbrev Held : ActivationAllocator → ℕ → Option Use → Type 0
Held a x none = Unit {0}
Held a x (some (tensor_id, nbytes, device)) = Holds a x tensor_id nbytes device

record Sound (used : ℕ → Option Use) (a : ActivationAllocator) : Type 0 where
  held : (x : ℕ) → Held a x (used x)
  apart : Apart a

Held-same :
    (a a' : ActivationAllocator) (x : ℕ)
    → get x a'.buffers ≡ get x a.buffers
    → get x a'.records ≡ get x a.records
    → (u : Option Use) → Held a x u
    → Held a' x u
Held-same a a' x buffers records none h = tt
Held-same a a' x buffers records (some (tensor_id, nbytes, device)) h = record {
  buf = h.buf;
  entry = h.entry;
  buffered = buffers ∙ h.buffered;
  recorded = records ∙ h.recorded;
  roomy = h.roomy;
  placed = h.placed;
  named = h.named;
}

module _ (empty : Empty) (a : ActivationAllocator) (slot_id tensor_id nbytes device : ℕ) where
  abbrev acquired : ActivationAllocator
  acquired = acquire_slot empty a slot_id tensor_id nbytes device

  -- The other slots stay as they are.
  acquire_slot_elsewhere :
      (x : ℕ)
      → (slot_id == x) ≡ false
      → (get x acquired.buffers ≡ get x a.buffers) × (get x acquired.records ≡ get x a.records)
  unfolding allocated reused use_slot
  acquire_slot_elsewhere x ne =
      elim (Bool-cases
        (needs_alloc (get slot_id a.buffers) (record_of a slot_id device) nbytes device)) [
          | inl new ↦ rw (acquire_slot-allocates empty a slot_id tensor_id nbytes device new) (
            rw (get-set slot_id x (new_buffer empty a nbytes device) a.buffers, ne) refl,
            rw (get-set slot_id x _ a.records, ne) refl,
          )
          | inr kept ↦
              rw (acquire_slot-reuses empty a slot_id tensor_id nbytes device kept)
                (refl, rw (get-set slot_id x _ a.records, ne) refl)
        ]

  module _ (fresh : IsFresh empty) (apart : Apart a) where
    -- A new buffer is apart from each buffer there is on its device.
    new_buffer_apart :
        (y : ℕ) (b c : Buffer)
        → some (new_buffer empty a nbytes device) ≡ some b
        → get y a.buffers ≡ some c
        → b.device ≡ c.device
        → b.data_ptr ≢ c.data_ptr
    unfolding new_buffer
    new_buffer_apart y b c made found same e =
        fresh a (max nbytes 1) device y c found (cc (made, same)) (cc (made, e))

    allocated-Apart : Apart (
        allocated a slot_id tensor_id
          (new_buffer empty a nbytes device)
          (record_of a slot_id device))
    unfolding allocated use_slot new_buffer
    allocated-Apart x y b c ne at_x at_y same =
        let buf = new_buffer empty a nbytes device in
        let got_x = sym (get-set slot_id x buf a.buffers) ∙ at_x in
        let got_y = sym (get-set slot_id y buf a.buffers) ∙ at_y in
        elim (Bool-cases (slot_id == x)) [
          | inl first ↦ elim (Bool-cases (slot_id == y)) [
            | inl second ↦ ground (arith, ==_iff slot_id x, ==_iff slot_id y, ==_iff x y)
            | inr other ↦
                new_buffer_apart y b c (ground (arith, got_x)) (ground (arith, got_y)) same
          ]
          | inr other ↦ elim (Bool-cases (slot_id == y)) [
            | inl second ↦ λ e.
                new_buffer_apart x c b (ground (arith, got_y)) (ground (arith, got_x)) (sym same)
                  (sym e)
            | inr neither ↦ apart x y b c ne (ground (arith, got_x)) (ground (arith, got_y)) same
          ]
        ]

    acquired-Apart : Apart acquired
    unfolding reused use_slot
    acquired-Apart =
        elim (Bool-cases
          (needs_alloc (get slot_id a.buffers) (record_of a slot_id device) nbytes device)) [
            | inl new ↦
                rw (acquire_slot-allocates empty a slot_id tensor_id nbytes device new)
                  allocated-Apart
            | inr kept ↦ rw (acquire_slot-reuses empty a slot_id tensor_id nbytes device kept) apart
          ]

release_slot_elsewhere :
    (a : ActivationAllocator) (slot_id x : ℕ)
    → (slot_id == x) ≡ false
    → get x (release_slot_of a slot_id).records ≡ get x a.records
unfolding release_slot_of
release_slot_elsewhere a slot_id x ne = elim (Option-cases (get slot_id a.records)) [
  | inl absent ↦ rw (release_slot_of, absent) refl
  | inr (entry, known) ↦ rw (release_slot_of, known) (rw (get-set slot_id x _ a.records, ne) refl)
]

release_slot-buffers :
    (a : ActivationAllocator) (slot_id : ℕ) → (release_slot_of a slot_id).buffers ≡ a.buffers
unfolding release_slot_of
release_slot-buffers a slot_id = elim (Option-cases (get slot_id a.records)) [
  | inl absent ↦ rw (release_slot_of, absent) refl
  | inr (entry, known) ↦ rw (release_slot_of, known) refl
]

module _ (empty : Empty) (fresh : IsFresh empty) where
  step-Sound :
      (used : ℕ → Option Use) (a : ActivationAllocator)
      → Sound used a
      → (call : Call) → Sound (after used call) (step empty a call)
  unfolding step after
  step-Sound used a v (acquires slot_id t n d) = record {
    held = λ x. elim (Bool-cases (slot_id == x)) [
      | inl same ↦ rw same (
          subst (λ y. Holds (acquire_slot empty a slot_id t n d) y t n d)
            ((==_iff slot_id x).0 same) (acquire_slot-Holds empty a slot_id t n d))
      | inr other ↦
          let (buffers, records) = acquire_slot_elsewhere empty a slot_id t n d x other in
          rw other
            (Held-same a (acquire_slot empty a slot_id t n d) x buffers records (used x) (v.held x))
    ];
    apart = acquired-Apart empty a slot_id t n d fresh v.apart;
  }
  step-Sound used a v (releases slot_id) = record {
    held = λ x. elim (Bool-cases (slot_id == x)) [
      | inl same ↦ rw same tt
      | inr other ↦ rw other (
          Held-same a (release_slot_of a slot_id) x (ap (get x) (release_slot-buffers a slot_id))
            (release_slot_elsewhere a slot_id x other) (used x) (v.held x))
    ];
    apart = rw (release_slot-buffers a slot_id) v.apart;
  }

  in_use-Sound :
      (used : ℕ → Option Use) (a : ActivationAllocator)
      → Sound used a
      → (calls : List Call) → Sound (in_use used calls) (run empty a calls)
  unfolding run in_use
  in_use-Sound used a v [] = v
  in_use-Sound used a v (call ∷ calls) =
      in_use-Sound (after used call) (step empty a call) (step-Sound used a v call) calls

  new_allocator-Sound : Sound unused new_allocator
  unfolding new_allocator get
  new_allocator-Sound = record { held = λ x. tt; apart = λ x y b c ne at_x at_y same. cc }

-- Where `torch.empty` does not give the storage of a tensor that lives on the device: after any
-- acquisitions and releases in any order, a tensor that is in use in a slot (acquired there last, with
-- no release after it) is named by the slot's record, and the slot's buffer has room for its bytes, is
-- on its device, and is not at the address of another slot's buffer on that device.
pub in_use-storage_ptr :
    (empty : Empty)
    → IsFresh empty
    → (calls : List Call) (x tensor_id nbytes device : ℕ)
    → in_use unused calls x ≡ some (tensor_id, nbytes, device)
    → Holds (run empty new_allocator calls) x tensor_id nbytes device
      × ((y : ℕ) (c : Buffer)
          → x ≢ y
          → get y (run empty new_allocator calls).buffers ≡ some c
          → c.device ≡ device
          → storage_ptr (run empty new_allocator calls) x ≢ ok c.data_ptr)
unfolding storage_ptr
in_use-storage_ptr empty fresh calls x tensor_id nbytes device now =
    let a = run empty new_allocator calls in
    let v = in_use-Sound empty fresh unused new_allocator (new_allocator-Sound empty fresh) calls in
    let h : Holds a x tensor_id nbytes device = subst (Held a x) now (v.held x) in
    (
      h,
      λ y c ne found placed at_c.
          v.apart x y h.buf c (ground (arith, ne, ==_iff x y)) h.buffered found
            (h.placed ∙ sym placed) (ground (arith, h.buffered, at_c)),
    )
