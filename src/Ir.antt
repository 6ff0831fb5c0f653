-- ===== src/Ir.antt =====
-- python/tensortorrent/ir/graph.py: the portable graph that the analyses read. Names (of tensors,
-- instructions, storages, devices) are numbers: the code compares and sorts them, and no more. Of
-- `TensorMeta` and `Instruction` the fields that the modelled code reads are here; `view_of` is the
-- tensor's attribute of that name, and `state_bindings` is that entry of the graph's metadata.
pub mod Alias
pub mod Liveness
use tensor_torrent.Base.{ℕ, Bool, List, [], ◌∷◌, ◌++◌, Option}
use tensor_torrent.Base.Dict.{Dict, set}

pub data OpCode : Type 0 where
  compute transfer prefetch evict load collective broadcast reduce : OpCode
  wait_event record_event release : OpCode

pub data TensorKind : Type 0 where
  parameter activation workspace : TensorKind

-- The text of an alias group: `storage::…`, `view::…`, or a name.
pub data Group : Type 0 where
  storage : ℕ → Group
  view : Group → Group
  plain : ℕ → Group

pub record TensorMeta : Type 0 where
  pub size_bytes : ℕ
  pub alias_group : Option Group
  pub mutable : Bool
  pub storage_id : Option ℕ
  pub kind : TensorKind
  pub produced_at : Option ℕ
  pub last_use_at : Option ℕ
  pub view_of : Option ℕ

pub record Instruction : Type 0 where
  pub opcode : OpCode
  pub name : ℕ
  pub inputs : List ℕ
  pub outputs : List ℕ

pub record HeterogeneousGraph : Type 0 where
  pub tensors : Dict TensorMeta
  pub instructions : List Instruction
  pub parameters : List ℕ
  pub outputs : List ℕ
  pub state_bindings : Dict ℕ

-- `HeterogeneousGraph.add_tensor`; the tensor's id is an argument of its own here.
unfoldable pub add_tensor : HeterogeneousGraph → ℕ → TensorMeta → HeterogeneousGraph
add_tensor graph tensor_id tensor = record graph { tensors = set tensor_id tensor graph.tensors }

unfoldable pub add_instruction : HeterogeneousGraph → Instruction → HeterogeneousGraph
add_instruction graph inst = record graph { instructions = graph.instructions ++ inst ∷ [] }
