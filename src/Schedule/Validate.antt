-- ===== src/Schedule/Validate.antt =====
-- python/tensortorrent/runtime/schedule/validate.py: the checks that are written in Python. A message
-- is a constructor. `set` and `dict.fromkeys` are read as lists that membership is asked of.
pub mod Complete
pub mod Coverage
use tensor_torrent.Base.{
  ℕ, Bool, true, false, ◌&&◌, ◌||◌, not, List, [], ◌∷◌, ◌++◌, length, Option, none, some, ◌==◌,
  Result, ok, err, ◌>>=◌, overflow_error, elem, if◌then◌else◌,
}
use tensor_torrent.Base.Dict.{Dict, get}
use tensor_torrent.Ir.{
  OpCode, compute, transfer, prefetch, evict, load, collective, broadcast, reduce, wait_event,
  record_event, release,
}
use tensor_torrent.Schedule.{
  PlanInstruction, ExecutableSchedule, Size, bytes, below_zero, missing, not_a_number,
  not_convertible, infinite, is_compute,
}

pub data Violation : Type 0 where
  invalid_size negative_size lacks_size : (inst tensor : ℕ) → Violation
  unknown_resource : (inst resource : ℕ) → Violation
  missing_compute : (region_id : ℕ) → Violation
  orphan_compute : (inst : ℕ) → Violation

-- `dict.fromkeys`: the first of equal names stays.
distinct_from : List ℕ → List ℕ → List ℕ
distinct_from seen [] = []
distinct_from seen (x ∷ xs) =
    let fresh = x ∷ distinct_from (x ∷ seen) xs in
    let known = distinct_from seen xs in if elem x seen then known else fresh

unfoldable pub tensors_of : PlanInstruction → List ℕ
unfolding distinct_from
tensors_of inst = distinct_from [] (inst.inputs ++ inst.outputs)

-- The opcodes whose tensors must have sizes.
abbrev pub has_sizes : OpCode → Bool
has_sizes op = elim op [
  | compute ↦ true
  | transfer ↦ true
  | prefetch ↦ true
  | evict ↦ true
  | load ↦ true
  | release ↦ true
  | collective ↦ false
  | broadcast ↦ false
  | reduce ↦ false
  | wait_event ↦ false
  | record_event ↦ false
]

abbrev pub sizes_of : PlanInstruction → Dict Size
sizes_of inst = elim inst.tensor_nbytes [ none ↦ [] | some sizes ↦ sizes ]

-- TypeError and ValueError are caught, OverflowError is not.
size_errors : ℕ → ℕ → Size → Result (List Violation)
size_errors inst tensor (bytes n) = ok []
size_errors inst tensor (below_zero n) = ok (negative_size inst tensor ∷ [])
size_errors inst tensor missing = ok (invalid_size inst tensor ∷ [])
size_errors inst tensor not_a_number = ok (invalid_size inst tensor ∷ [])
size_errors inst tensor not_convertible = ok (invalid_size inst tensor ∷ [])
size_errors inst tensor infinite = err overflow_error

-- The errors of one part, then those of the rest; what raises ends the check.
pub joined : Result (List Violation) → Result (List Violation) → Result (List Violation)
joined first rest = do errors ← first; others ← rest; ok (errors ++ others)

-- One round of the inner loop; `nbytes` of an instruction is never negative.
tensor_errors : PlanInstruction → List ℕ → ℕ → Result (List Violation)
unfolding size_errors
tensor_errors inst tensors tensor = elim (get tensor (sizes_of inst)) [
  | some size ↦ size_errors inst.name tensor size
  | none ↦ if length tensors == 1 then ok [] else ok (lacks_size inst.name tensor ∷ [])
]

all_errors : PlanInstruction → List ℕ → List ℕ → Result (List Violation)
unfolding tensor_errors joined
all_errors inst tensors [] = ok []
all_errors inst tensors (tensor ∷ rest) =
    joined (tensor_errors inst tensors tensor) (all_errors inst tensors rest)

instruction_errors : PlanInstruction → Result (List Violation)
unfolding all_errors
instruction_errors inst =
    if has_sizes inst.opcode then all_errors inst (tensors_of inst) (tensors_of inst) else ok []

sizes_errors : List PlanInstruction → Result (List Violation)
unfolding instruction_errors joined
sizes_errors [] = ok []
sizes_errors (inst ∷ insts) = joined (instruction_errors inst) (sizes_errors insts)

unfoldable pub validate_schedule_tensor_sizes : ExecutableSchedule → Result (List Violation)
unfolding sizes_errors
validate_schedule_tensor_sizes schedule = sizes_errors schedule.instructions

pub compute_ops : List PlanInstruction → List PlanInstruction
compute_ops [] = []
compute_ops (inst ∷ insts) =
    let rest = compute_ops insts in if is_compute inst.opcode then inst ∷ rest else rest

resource_errors : List ℕ → List PlanInstruction → List Violation
resource_errors known [] = []
resource_errors known (inst ∷ insts) =
    let rest = resource_errors known insts in
    if elem inst.resource known then rest else unknown_resource inst.name inst.resource ∷ rest

-- `machine.compute` is the list of the machine's compute resources.
pub validate_schedule_resources : ExecutableSchedule → List ℕ → List Violation
unfolding resource_errors compute_ops
validate_schedule_resources schedule known =
    resource_errors known (compute_ops schedule.instructions)

-- Some compute instruction runs the region.
pub is_computed : ℕ → List PlanInstruction → Bool
is_computed region [] = false
is_computed region (inst ∷ insts) =
    elim inst.executable_ref [ none ↦ false | some ref ↦ ref == region ] || is_computed region insts

missing_errors : List PlanInstruction → List ℕ → List Violation
unfolding is_computed
missing_errors insts [] = []
missing_errors insts (region ∷ regions) =
    let rest = missing_errors insts regions in
    if is_computed region insts then rest else missing_compute region ∷ rest

-- The instruction runs a region that is placed.
pub is_placed : List ℕ → PlanInstruction → Bool
is_placed regions inst = elim inst.executable_ref [ none ↦ false | some ref ↦ elem ref regions ]

orphan_errors : List ℕ → List PlanInstruction → List Violation
unfolding is_placed
orphan_errors regions [] = []
orphan_errors regions (inst ∷ insts) =
    let rest = orphan_errors regions insts in
    if is_placed regions inst then rest else orphan_compute inst.name ∷ rest

-- `regions` are the region ids of the plan's placements.
unfoldable pub schedule_matches_plan : ExecutableSchedule → List ℕ → List Violation
unfolding missing_errors orphan_errors compute_ops
schedule_matches_plan schedule regions =
    missing_errors (compute_ops schedule.instructions) regions
    ++ orphan_errors regions (compute_ops schedule.instructions)
