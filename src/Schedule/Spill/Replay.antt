-- ===== src/Schedule/Spill/Replay.antt =====
-- An independent walk over what `plan_activation_spills` of
-- python/tensortorrent/runtime/schedule/spill_plan.py puts out: which tensors are on the disk, what
-- spilled them, and what brought them back. It stops at an instruction that does not wait as it must.
pub mod Steps
pub mod Reloads
pub mod Plans
use tensor_torrent.Base.{
  ℕ, Bool, true, false, not, ◌&&◌, List, [], ◌∷◌, ◌++◌, Option, none, some, if◌then◌else◌, elem,
}
use tensor_torrent.Base.Dict.{Dict, get, set, remove}
use tensor_torrent.Schedule.{
  InstructionKind, parameter_host_to_device, parameter_prefetch, parameter_materialize,
  parameter_evict, activation_spill, activation_reload, activation_reload_transfer, activation,
  PlanInstruction, is_compute, is_release,
}
use tensor_torrent.Schedule.Spill.Reload.{discard}
use tensor_torrent.Schedule.Spill.{readers_of, forget_spilled}

pub record Disk : Type 0 where
  pub away : List ℕ
  pub spiller : Dict ℕ
  pub back : Dict ℕ
  pub past : List PlanInstruction

abbrev pub at_start : Disk
at_start = record { away = []; spiller = []; back = []; past = [] }

abbrev pub all_in : List ℕ → List ℕ → Bool
all_in [] ys = true
all_in (x ∷ xs) ys = elem x ys && all_in xs ys

-- The dependency is there, if there is one.
abbrev pub waits_for : Option ℕ → List ℕ → Bool
waits_for none deps = true
waits_for (some op) deps = elem op deps

abbrev pub must_wait_for : Option ℕ → List ℕ → Bool
must_wait_for none deps = false
must_wait_for (some op) deps = elem op deps

-- An eviction waits for each compute instruction before it that reads the tensor.
pub away_one : Disk → PlanInstruction → List ℕ → Option Disk
away_one d inst [] = some d
away_one d inst (t ∷ ts) =
    if all_in (readers_of t d.past) inst.depends_on
    then away_one
        (record d {
          away = t ∷ d.away;
          spiller = set t inst.name d.spiller;
          back = remove t d.back;
        })
        inst ts
    else none

-- A reload is of a tensor that is on the disk, and waits for the eviction.
pub back_one : Disk → PlanInstruction → List ℕ → Option Disk
back_one d inst [] = some d
back_one d inst (t ∷ ts) =
    if elem t d.away && must_wait_for (get t d.spiller) inst.depends_on
    then back_one
        (record d {
          away = discard t d.away;
          spiller = remove t d.spiller;
          back = set t inst.name d.back;
        })
        inst ts
    else none

-- A transfer of a reloaded tensor waits for the reload.
pub onward_one : Disk → PlanInstruction → List ℕ → Option Disk
onward_one d inst [] = some d
onward_one d inst (t ∷ ts) =
    if must_wait_for (get t d.back) inst.depends_on
    then onward_one (record d { back = set t inst.name d.back }) inst ts
    else none

-- Nothing that a compute instruction reads is on the disk, and it waits for what brought it back.
pub reads_back : Disk → List ℕ → List ℕ → Bool
reads_back d deps [] = true
reads_back d deps (t ∷ ts) =
    not (elem t d.away) && waits_for (get t d.back) deps && reads_back d deps ts

pub regain : List ℕ → Disk → Disk
regain [] d = d
regain (t ∷ ts) d = regain ts (record d { away = discard t d.away; spiller = remove t d.spiller })

abbrev pub plain : Disk → PlanInstruction → Option Disk
plain d inst =
    if is_compute inst.opcode
    then if reads_back d inst.depends_on inst.inputs then some (regain inst.outputs d) else none
    else if is_release inst.opcode
    then some (record d { away = forget_spilled inst.inputs d.away })
    else some d

abbrev pub walked : PlanInstruction → Option Disk → Option Disk
walked inst none = none
walked inst (some d) = some (record d { past = d.past ++ inst ∷ [] })

abbrev pub of_kind : Option InstructionKind → Disk → PlanInstruction → Option Disk
of_kind none d inst = plain d inst
of_kind (some kind) d inst = elim kind [
  | activation_spill ↦ away_one d inst inst.inputs
  | activation_reload ↦ back_one d inst inst.inputs
  | activation_reload_transfer ↦ onward_one d inst inst.inputs
  | parameter_host_to_device ↦ plain d inst
  | parameter_prefetch ↦ plain d inst
  | parameter_materialize ↦ plain d inst
  | parameter_evict ↦ plain d inst
  | activation ↦ plain d inst
]

-- The kinds of what the planner adds.
abbrev pub is_added : Option InstructionKind → Bool
is_added none = false
is_added (some kind) = elim kind [
  | activation_spill ↦ true
  | activation_reload ↦ true
  | activation_reload_transfer ↦ true
  | parameter_host_to_device ↦ false
  | parameter_prefetch ↦ false
  | parameter_materialize ↦ false
  | parameter_evict ↦ false
  | activation ↦ false
]

pub walk_one : Disk → PlanInstruction → Option Disk
unfolding away_one back_one onward_one reads_back regain
walk_one d inst = walked inst (of_kind inst.kind d inst)

pub walk : Option Disk → List PlanInstruction → Option Disk
unfolding walk_one
walk reached [] = reached
walk reached (inst ∷ insts) = walk (elim reached [ none ↦ none | some d ↦ walk_one d inst ]) insts
