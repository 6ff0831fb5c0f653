-- ===== src/Copies/Counts.antt =====
-- The byte counts and the tensor ids of python/tensortorrent/runtime/copies.py.
use tensor_torrent.Base.{
  ℕ, ◌+◌, max, Bool, true, false, not, ◌||◌, List, [], ◌∷◌, Option, none, some, if◌then◌else◌, elem,
}
use tensor_torrent.Copies.Values.{
  AllocationId, same_allocation, physical_capacity_bytes, allocation_id_of,
}
use tensor_torrent.Copies.{
  CopyOwnership, runtime, activation, transfer, parameter, input, ResidentCopy, Key, Copies,
  CopyStore, or_previous,
}

-- `copy.allocation_id or _allocation_id(copy.value, tid, rid)`.
abbrev pub allocation_of : Key → ResidentCopy → AllocationId
allocation_of key copy = elim copy.allocation_id [
  | none ↦ allocation_id_of copy.value key.0
  | some id ↦ id
]

abbrev pub is_seen : AllocationId → List AllocationId → Bool
is_seen id [] = false
is_seen id (other ∷ others) = same_allocation other id || is_seen id others

-- The loop of `live_bytes`, what it adds to `total` from a set `seen` on.
unfoldable pub unseen_bytes : List AllocationId → Copies → ℕ
unseen_bytes seen [] = 0
unseen_bytes seen ((key, copy) ∷ copies) =
    let alloc = allocation_of key copy in
    let again = unseen_bytes seen copies in
    let fresh = unseen_bytes (alloc ∷ seen) copies in
    if is_seen alloc seen then again else physical_capacity_bytes copy.value copy.nbytes + fresh

unfoldable pub live_bytes : CopyStore → ℕ
unfolding unseen_bytes
live_bytes store = unseen_bytes [] store.copies

pub peak_bytes : CopyStore → ℕ
unfolding live_bytes
peak_bytes store = live_bytes store

abbrev pub Allocations : Type 0
Allocations = List (AllocationId × ℕ)

-- `allocations[id] = max(allocations.get(id, 0), capacity)`.
unfoldable pub raise_to : AllocationId → ℕ → Allocations → Allocations
raise_to id capacity [] = (id, max 0 capacity) ∷ []
raise_to id capacity ((other, n) ∷ allocations) =
    if same_allocation other id
    then (other, max n capacity) ∷ allocations
    else (other, n) ∷ raise_to id capacity allocations

unfoldable pub sum_of : Allocations → ℕ
sum_of [] = 0
sum_of ((id, n) ∷ allocations) = n + sum_of allocations

abbrev pub same_ownership : CopyOwnership → CopyOwnership → Bool
same_ownership runtime runtime = true
same_ownership activation activation = true
same_ownership transfer transfer = true
same_ownership parameter parameter = true
same_ownership input input = true
same_ownership _ _ = false

abbrev pub is_owned : CopyOwnership → List CopyOwnership → Bool
is_owned ownership [] = false
is_owned ownership (other ∷ others) = same_ownership other ownership || is_owned ownership others

-- The text "disk".
abbrev pub disk : ℕ
disk = 1

-- `exclude_resources or {"disk"}`: an empty set is replaced, too.
abbrev pub or_disk : List ℕ → List ℕ
or_disk [] = disk ∷ []
or_disk (resource ∷ resources) = resource ∷ resources

-- The loop of `activation_live_bytes`.
unfoldable pub allocations_from :
    (skip_t skip_r : List ℕ) → List CopyOwnership → Allocations → Copies → Allocations
unfolding raise_to
allocations_from skip_t skip_r own allocations [] = allocations
allocations_from skip_t skip_r own allocations (((tid, rid), copy) ∷ copies) =
    let capacity = physical_capacity_bytes copy.value copy.nbytes in
    let next = raise_to (allocation_of (tid, rid) copy) capacity allocations in
    allocations_from skip_t skip_r own
      (if elem tid skip_t || elem rid skip_r || not (is_owned copy.ownership own)
        then allocations
        else next)
      copies

unfoldable pub activation_live_bytes :
    CopyStore → (exclude_tensors exclude_resources : List ℕ) → Option (List CopyOwnership) → ℕ
unfolding allocations_from sum_of
activation_live_bytes store exclude_tensors exclude_resources ownerships = sum_of (
    allocations_from exclude_tensors (or_disk exclude_resources)
      (or_previous ownerships (activation ∷ [])) [] store.copies)

-- The set is read as a list that membership is asked of.
unfoldable pub tensor_ids_of : List ℕ → Copies → List ℕ
tensor_ids_of skip_r [] = []
tensor_ids_of skip_r (((tid, rid), copy) ∷ copies) =
    let rest = tensor_ids_of skip_r copies in
    if elem rid skip_r || not (same_ownership copy.ownership activation) then rest else tid ∷ rest

unfoldable pub activation_tensor_ids : CopyStore → List ℕ → List ℕ
unfolding tensor_ids_of
activation_tensor_ids store exclude_resources =
    tensor_ids_of (or_disk exclude_resources) store.copies
