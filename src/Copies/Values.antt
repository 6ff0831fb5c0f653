-- ===== src/Copies/Values.antt =====
-- The values that python/tensortorrent/runtime/copies.py keeps, and what it asks of them. Of a torch
-- tensor what PyTorch reports is here, `none` where the call raises; of another object the attributes
-- that the code looks for, `none` where one is missing, of another
-- type or (the key) empty. Sizes are not negative.
use tensor_torrent.Base.{ℕ, ◌*◌, ◌==◌, Bool, false, ◌&&◌, List, [], Option, none, some}

-- `untyped_storage()` and the device it is on.
pub record Storage : Type 0 where
  pub device : ℕ
  pub data_ptr : ℕ
  pub nbytes : ℕ

pub record Tensor : Type 0 where
  pub numel : ℕ
  pub element_size : ℕ
  pub storage_offset : Option ℕ
  pub shape : List ℕ
  pub stride : List ℕ
  pub storage : Option Storage
  pub type_name : ℕ
  pub id : ℕ

pub record Handle : Type 0 where
  pub nbytes : Option ℕ
  pub allocation_nbytes : Option ℕ
  pub allocation_key : Option ℕ
  pub type_name : ℕ
  pub id : ℕ

pub data Value : Type 0 where
  no_value : Value
  torch_tensor : Tensor → Value
  other_object : Handle → Value

-- The texts of `_allocation_id`, by the form they have. An explicit key is taken to have none of the
-- other forms.
pub data AllocationId : Type 0 where
  null : (tensor_id : ℕ) → AllocationId
  torch : (device ptr nbytes : ℕ) → AllocationId
  explicit : (key : ℕ) → AllocationId
  phys : (type_name id : ℕ) → AllocationId

abbrev pub same_allocation : AllocationId → AllocationId → Bool
same_allocation (null a) (null b) = a == b
same_allocation (torch a b c) (torch d e f) = a == d && b == e && c == f
same_allocation (explicit a) (explicit b) = a == b
same_allocation (phys a b) (phys c d) = a == c && b == d
same_allocation _ _ = false

abbrev pub or_zero : Option ℕ → ℕ
or_zero none = 0
or_zero (some n) = n

unfoldable pub nbytes_of : Value → ℕ
nbytes_of no_value = 0
nbytes_of (torch_tensor t) = t.numel * t.element_size
nbytes_of (other_object o) = or_zero o.nbytes

unfoldable pub storage_offset_of : Value → ℕ
storage_offset_of no_value = 0
storage_offset_of (torch_tensor t) = or_zero t.storage_offset
storage_offset_of (other_object o) = 0

unfoldable pub shape_of : Value → List ℕ
shape_of no_value = []
shape_of (torch_tensor t) = t.shape
shape_of (other_object o) = []

unfoldable pub stride_of : Value → List ℕ
stride_of no_value = []
stride_of (torch_tensor t) = t.stride
stride_of (other_object o) = []

unfoldable pub physical_capacity_bytes : Value → ℕ → ℕ
physical_capacity_bytes no_value logical_nbytes = logical_nbytes
physical_capacity_bytes (torch_tensor t) logical_nbytes = elim t.storage [
  | none ↦ logical_nbytes
  | some storage ↦ storage.nbytes
]
physical_capacity_bytes (other_object o) logical_nbytes = elim o.allocation_nbytes [
  | none ↦ logical_nbytes
  | some capacity ↦ capacity
]

-- The resource is not part of an allocation's identity.
unfoldable pub allocation_id_of : Value → ℕ → AllocationId
allocation_id_of no_value tensor_id = null tensor_id
allocation_id_of (torch_tensor t) tensor_id = elim t.storage [
  | none ↦ phys t.type_name t.id
  | some storage ↦ torch storage.device storage.data_ptr storage.nbytes
]
allocation_id_of (other_object o) tensor_id = elim o.allocation_key [
  | none ↦ phys o.type_name o.id
  | some key ↦ explicit key
]

pub record TensorDescriptor : Type 0 where
  pub nbytes : ℕ
  pub allocation_id : AllocationId
  pub storage_offset : ℕ
  pub shape : List ℕ
  pub stride : List ℕ

unfoldable pub describe_tensor : Value → ℕ → TensorDescriptor
unfolding nbytes_of storage_offset_of shape_of stride_of allocation_id_of
describe_tensor value tensor_id = record {
  nbytes = nbytes_of value;
  allocation_id = allocation_id_of value tensor_id;
  storage_offset = storage_offset_of value;
  shape = shape_of value;
  stride = stride_of value;
}
