-- ===== src/Schedule.antt =====
-- python/tensortorrent/runtime/schedule: types.py and streams.py. The fields of `PlanInstruction` that
-- the modelled code reads are here. Texts are numbers, 0 is the empty one; `none` stands for None and
-- for the empty text where the code asks only whether an id is given.
pub mod Explicit
pub mod Liveness
pub mod Hosts
pub mod Spill
pub mod Finish
pub mod Validate
mod Tests
use tensor_torrent.Base.{
  ℕ, Bool, true, false, ◌&&◌, ◌||◌, not, List, [], ◌∷◌, map, Option, none, some, ◌==◌,
  if◌then◌else◌,
}
use tensor_torrent.Base.Dict.{Dict}
use tensor_torrent.Ir.{
  OpCode, compute, transfer, prefetch, evict, load, collective, broadcast, reduce, wait_event,
  record_event, release,
}

-- A text, or `unknown` for an empty one.
abbrev pub Resource : Type 0
Resource = Option ℕ

abbrev pub or_unknown_resource : ℕ → Resource
or_unknown_resource resource = if resource == 0 then none else some resource

-- The ids of streams, copy engines, links and I/O queues: the planner's own, and the generated ones.
pub data Engine : Type 0 where
  planned : ℕ → Engine
  compute_of copy_of sync_of lifetime_of io_of : Resource → Engine
  link_of : (source destination : Resource) → Engine

-- A value of the attribute `tensor_nbytes`, by what `int` makes of it and whether it counts as true.
-- `missing` is None, an empty text or container: it counts as false, and `int` raises TypeError or
-- ValueError on it. `not_a_number` is a text that is no number, or a NaN, with ValueError;
-- `not_convertible` another object, with TypeError; `infinite` an infinite float, with OverflowError.
pub data Size : Type 0 where
  bytes below_zero : ℕ → Size
  missing not_a_number not_convertible infinite : Size

pub data MemoryTier : Type 0 where
  on_disk system_ram pinned_ram numa_ram on_device unknown : MemoryTier

-- How a transfer is done, by its text.
pub data TransferBackend : Type 0 where
  disk_pread device_p2p_or_host_staged host_device_copy host_memcpy : TransferBackend

-- The attribute `kind`.
pub data InstructionKind : Type 0 where
  parameter_host_to_device parameter_prefetch parameter_materialize parameter_evict :
      InstructionKind
  activation_spill activation_reload activation_reload_transfer activation : InstructionKind

pub record PlanInstruction : Type 0 where
  pub opcode : OpCode
  pub name : ℕ
  pub resource : ℕ
  pub depends_on : List ℕ
  pub inputs : List ℕ
  pub outputs : List ℕ
  pub nbytes : ℕ
  pub memory_tier : MemoryTier
  pub executable_ref : Option ℕ
  pub source : ℕ
  pub destination : ℕ
  pub transfer_backend : Option TransferBackend
  pub sync_required : Bool
  pub stream_id : Option Engine
  pub copy_engine_id : Option Engine
  pub link_id : Option Engine
  pub io_queue_id : Option Engine
  pub tensor_nbytes : Option (Dict Size)
  pub output_bytes : Option (Dict Size)
  pub kind : Option InstructionKind
  pub final_async_consumers : Option (List ℕ)

pub record ExecutableSchedule : Type 0 where
  pub graph_name : ℕ
  pub fingerprint : ℕ
  pub instructions : List PlanInstruction

abbrev pub is_compute : OpCode → Bool
is_compute op = elim op [
  | compute ↦ true
  | transfer ↦ false
  | prefetch ↦ false
  | evict ↦ false
  | load ↦ false
  | collective ↦ false
  | broadcast ↦ false
  | reduce ↦ false
  | wait_event ↦ false
  | record_event ↦ false
  | release ↦ false
]

abbrev pub is_transfer : OpCode → Bool
is_transfer op = elim op [
  | compute ↦ false
  | transfer ↦ true
  | prefetch ↦ false
  | evict ↦ false
  | load ↦ false
  | collective ↦ false
  | broadcast ↦ false
  | reduce ↦ false
  | wait_event ↦ false
  | record_event ↦ false
  | release ↦ false
]

-- `opcode in (OpCode.PREFETCH, OpCode.LOAD)`.
abbrev pub is_read : OpCode → Bool
is_read op = elim op [
  | compute ↦ false
  | transfer ↦ false
  | prefetch ↦ true
  | evict ↦ false
  | load ↦ true
  | collective ↦ false
  | broadcast ↦ false
  | reduce ↦ false
  | wait_event ↦ false
  | record_event ↦ false
  | release ↦ false
]

abbrev pub is_release : OpCode → Bool
is_release op = elim op [
  | compute ↦ false
  | transfer ↦ false
  | prefetch ↦ false
  | evict ↦ false
  | load ↦ false
  | collective ↦ false
  | broadcast ↦ false
  | reduce ↦ false
  | wait_event ↦ false
  | record_event ↦ false
  | release ↦ true
]

abbrev pub is_evict : OpCode → Bool
is_evict op = elim op [
  | compute ↦ false
  | transfer ↦ false
  | prefetch ↦ false
  | evict ↦ true
  | load ↦ false
  | collective ↦ false
  | broadcast ↦ false
  | reduce ↦ false
  | wait_event ↦ false
  | record_event ↦ false
  | release ↦ false
]

-- `opcode not in {OpCode.RECORD_EVENT, OpCode.WAIT_EVENT, OpCode.RELEASE}`.
abbrev pub passes_values : OpCode → Bool
passes_values op = elim op [
  | compute ↦ true
  | transfer ↦ true
  | prefetch ↦ true
  | evict ↦ true
  | load ↦ true
  | collective ↦ true
  | broadcast ↦ true
  | reduce ↦ true
  | wait_event ↦ false
  | record_event ↦ false
  | release ↦ false
]

default_stream_id : OpCode → ℕ → Engine
default_stream_id op resource =
    let res = or_unknown_resource resource in
    elim op [
      | compute ↦ compute_of res
      | transfer ↦ copy_of res
      | prefetch ↦ copy_of res
      | load ↦ copy_of res
      | record_event ↦ sync_of res
      | wait_event ↦ sync_of res
      | evict ↦ lifetime_of res
      | collective ↦ lifetime_of res
      | broadcast ↦ lifetime_of res
      | reduce ↦ lifetime_of res
      | release ↦ lifetime_of res
    ]

-- An id that is given is kept; where the test holds, one that is missing is filled in.
abbrev pub filled : Bool → Engine → Option Engine → Option Engine
filled test made (some given) = some given
filled test made none = if test then some made else none

-- `inst.destination or inst.resource or "unknown"`.
abbrev target_of : PlanInstruction → Resource
target_of inst =
    if inst.destination == 0 then or_unknown_resource inst.resource else some inst.destination

-- `replace` with the ids that the instruction has is the instruction.
pub with_explicit_streams : PlanInstruction → PlanInstruction
unfolding default_stream_id
with_explicit_streams inst =
    let res = or_unknown_resource inst.resource in
    record inst {
      stream_id = filled true (default_stream_id inst.opcode inst.resource) inst.stream_id;
      copy_engine_id =
          filled (is_transfer inst.opcode || is_read inst.opcode) (copy_of res) inst.copy_engine_id;
      link_id =
          filled (is_transfer inst.opcode)
            (link_of (or_unknown_resource inst.source) (target_of inst)) inst.link_id;
      io_queue_id = filled (is_read inst.opcode) (io_of res) inst.io_queue_id;
    }

pub ensure_explicit_streams : ExecutableSchedule → ExecutableSchedule
ensure_explicit_streams schedule = record schedule {
  instructions = map with_explicit_streams schedule.instructions;
}
