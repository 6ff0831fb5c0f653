-- ===== src/Copies.antt =====
-- python/tensortorrent/runtime/copies.py: the values that are resident, by tensor and resource. A
-- stretch under the lock is one step. `require` has two stretches and `move` has three, and what other
-- threads make of the store between them is an argument of theirs; each other method is one, with the
-- look at the flag and the depth of trust before it, which is outside the lock. The depth is read and
-- written within one step, too: that two threads change it at once is not in the model. A call that
-- raises leaves the store as it was. Texts are numbers, 0 the empty one, and an event is a
-- number. A tier or an ownership is given as its member, so its conversion from a text is left out.
pub mod Values
pub mod Keys
pub mod Calls
pub mod Guard
pub mod Counts
pub mod Bytes
mod Tests
use tensor_torrent.Base.{
  ℕ, zero, suc, ◌+◌, ◌-◌, max, ◌==◌, leb, Bool, true, false, not, ◌&&◌, ◌||◌, List, [], ◌∷◌, Option,
  none, some, if◌then◌else◌, elem, Result, ok, err, ◌>>=◌, ◌>>◌, raise_if, runtime_plan_error,
}
use tensor_torrent.Schedule.{MemoryTier}
use tensor_torrent.Copies.Values.{
  Value, AllocationId, TensorDescriptor, same_allocation, describe_tensor, nbytes_of,
  physical_capacity_bytes, allocation_id_of,
}

pub data CopyOwnership : Type 0 where
  runtime activation transfer parameter input : CopyOwnership

pub record ResidentCopy : Type 0 where
  pub tensor_id : ℕ
  pub resource_id : ℕ
  pub value : Value
  pub nbytes : ℕ
  pub tier : MemoryTier
  pub ready_event : Option ℕ
  pub authoritative : Bool
  pub ownership : CopyOwnership
  pub allocation_id : Option AllocationId
  pub storage_offset : ℕ
  pub shape : List ℕ
  pub stride : List ℕ

abbrev pub Key : Type 0
Key = ℕ × ℕ

abbrev pub same_key : Key → Key → Bool
same_key (t, r) (t', r') = t == t' && r == r'

abbrev pub Copies : Type 0
Copies = List (Key × ResidentCopy)

-- `_copies.get(key)`.
pub find : Key → Copies → Option ResidentCopy
find key [] = none
find key ((k, copy) ∷ copies) = if same_key k key then some copy else find key copies

-- `_copies[key] = copy`: a key that is there keeps its place.
pub assign : Key → ResidentCopy → Copies → Copies
assign key copy [] = (key, copy) ∷ []
assign key copy ((k, old) ∷ copies) =
    if same_key k key then (k, copy) ∷ copies else (k, old) ∷ assign key copy copies

-- What `_copies.pop(key)` leaves.
pub without : Key → Copies → Copies
without key [] = []
without key ((k, copy) ∷ copies) =
    let rest = without key copies in if same_key k key then rest else (k, copy) ∷ rest

pub record CopyStore : Type 0 where
  pub copies : Copies
  pub require_publish_api : Bool
  pub trusted_depth : ℕ

-- `with self.trusted_mutation():` around a call. It is left when the call raises, too.
pub enter_trusted : CopyStore → CopyStore
enter_trusted store = record store { trusted_depth = suc store.trusted_depth }

pub leave_trusted : CopyStore → CopyStore
leave_trusted store = record store { trusted_depth = store.trusted_depth - 1 }

pub check_direct : CopyStore → Result (Unit {0})
check_direct store =
    raise_if (store.require_publish_api && leb store.trusted_depth 0) runtime_plan_error

abbrev or_described : Value → ℕ → Option TensorDescriptor → TensorDescriptor
or_described value tensor_id none = describe_tensor value tensor_id
or_described value tensor_id (some precomputed) = precomputed

pub install :
    CopyStore
    → (tensor_id resource_id : ℕ) → Value
    → (nbytes : ℕ) → MemoryTier
    → Bool
    → CopyOwnership
    → Option ℕ
    → Option TensorDescriptor
    → CopyStore × ResidentCopy
install store tensor_id resource_id value nbytes tier authoritative ownership ready_event
      precomputed =
    let described = or_described value tensor_id precomputed in
    let copy : ResidentCopy = record {
      tensor_id = tensor_id;
      resource_id = resource_id;
      value = value;
      nbytes = nbytes;
      tier = tier;
      ready_event = ready_event;
      authoritative = authoritative;
      ownership = ownership;
      allocation_id = some described.allocation_id;
      storage_offset = described.storage_offset;
      shape = described.shape;
      stride = described.stride;
    } in
    (record store { copies = assign (tensor_id, resource_id) copy store.copies }, copy)

abbrev nbytes_in : Value → Option TensorDescriptor → ℕ
nbytes_in value none = nbytes_of value
nbytes_in value (some precomputed) = precomputed.nbytes

pub put :
    CopyStore
    → (tensor_id resource_id : ℕ) → Value
    → MemoryTier
    → Bool
    → CopyOwnership
    → Option ℕ
    → Option TensorDescriptor
    → Result (CopyStore × ResidentCopy)
unfolding install check_direct
put store tensor_id resource_id value tier authoritative ownership ready_event precomputed =
    check_direct store
    >> ok (
        install store tensor_id resource_id value (nbytes_in value precomputed) tier authoritative
          ownership ready_event precomputed)

pub replicate :
    CopyStore
    → (tensor_id resource_id : ℕ) → Value
    → MemoryTier
    → CopyOwnership
    → Option ℕ
    → Result (CopyStore × ResidentCopy)
unfolding install check_direct
replicate store tensor_id resource_id value tier ownership ready_event =
    check_direct store
    >> ok (
        install store tensor_id resource_id value (nbytes_of value) tier false ownership ready_event
          none)

pub alias :
    CopyStore → (tensor_id source_resource alias_resource : ℕ) → Result (CopyStore × ResidentCopy)
unfolding install check_direct find
alias store tensor_id source_resource alias_resource =
    check_direct store >> elim (find (tensor_id, source_resource) store.copies) [
      | none ↦ err runtime_plan_error
      | some src ↦ ok (
          install store tensor_id alias_resource src.value src.nbytes src.tier false src.ownership
            src.ready_event none)
    ]

abbrev pub or_previous {ℓ} : {A : Type ℓ} → Option A → A → A
or_previous none previous = previous
or_previous (some given) previous = given

abbrev or_event : Option ℕ → Option ℕ → Option ℕ
or_event none previous = previous
or_event (some given) previous = some given

pub replace_handle :
    CopyStore
    → (tensor_id resource_id : ℕ) → Value
    → Option MemoryTier
    → Option ℕ
    → Result (CopyStore × ResidentCopy)
unfolding install check_direct find
replace_handle store tensor_id resource_id value tier ready_event =
    check_direct store >> elim (find (tensor_id, resource_id) store.copies) [
      | none ↦ err runtime_plan_error
      | some prev ↦ ok (
          install store tensor_id resource_id value (nbytes_of value) (or_previous tier prev.tier)
            prev.authoritative prev.ownership (or_event ready_event prev.ready_event) none)
    ]

pub get_copy : CopyStore → (tensor_id resource_id : ℕ) → Result ResidentCopy
unfolding find
get_copy store tensor_id resource_id = elim (find (tensor_id, resource_id) store.copies) [
  | none ↦ err runtime_plan_error
  | some copy ↦ ok copy
]

-- `meanwhile` is what other threads make of the store until the second look-up, after the wait for
-- the copy's event.
pub require :
    (meanwhile : CopyStore → CopyStore)
    → CopyStore
    → (tensor_id resource_id : ℕ) → Result (CopyStore × ResidentCopy)
unfolding get_copy
require meanwhile store tensor_id resource_id = get_copy store tensor_id resource_id >>= λ copy.
    let later = meanwhile store in
    get_copy later tensor_id resource_id >>= λ again. ok (later, again)

pub try_get : CopyStore → (tensor_id resource_id : ℕ) → Option ResidentCopy
unfolding find
try_get store tensor_id resource_id = find (tensor_id, resource_id) store.copies

pub has : CopyStore → (tensor_id resource_id : ℕ) → Bool
unfolding try_get
has store tensor_id resource_id = elim (try_get store tensor_id resource_id) [
  | none ↦ false
  | some copy ↦ true
]

pub resources_in : ℕ → Copies → List ℕ
resources_in tensor_id [] = []
resources_in tensor_id (((tid, rid), copy) ∷ copies) =
    let rest = resources_in tensor_id copies in if tid == tensor_id then rid ∷ rest else rest

pub resources_for : CopyStore → ℕ → List ℕ
unfolding resources_in
resources_for store tensor_id = resources_in tensor_id store.copies

pub drop : CopyStore → (tensor_id resource_id : ℕ) → Result (CopyStore × ℕ)
unfolding check_direct find without
drop store tensor_id resource_id =
    check_direct store >> elim (find (tensor_id, resource_id) store.copies) [
      | none ↦ ok (store, 0)
      | some copy ↦
          ok (record store { copies = without (tensor_id, resource_id) store.copies }, copy.nbytes)
    ]

-- `before_drop` and `before_install` are what other threads make of the store between the look-up of
-- the source and the drop, and between the drop and the installation: the lock is free there. The two
-- steps of the trusted drop, entered and left, are taken as one.
pub move :
    (before_drop before_install : CopyStore → CopyStore)
    → CopyStore
    → (tensor_id source_resource dest_resource : ℕ) → Value
    → MemoryTier
    → Result (CopyStore × ResidentCopy)
unfolding check_direct find enter_trusted leave_trusted drop install
move before_drop before_install store tensor_id source_resource dest_resource value tier =
    check_direct store >> elim (find (tensor_id, source_resource) store.copies) [
      | none ↦ err runtime_plan_error
      | some src ↦ drop (enter_trusted (before_drop store)) tensor_id source_resource >>= λ dropped.
          ok (
            install (before_install (leave_trusted dropped.0)) tensor_id dest_resource value
              (nbytes_of value) tier src.authoritative src.ownership none none)
    ]
