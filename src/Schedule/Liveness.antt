-- ===== src/Schedule/Liveness.antt =====
-- `run_schedule_liveness` and `apply_schedule_liveness` of python/tensortorrent/ir/liveness.py: the
-- last asynchronous consumers of each tensor, and what a release waits for. Of `by_name` only
-- `depends_on` is read. The memo of `ancestors` is left out: it returns what the call would.
pub mod Rounds
pub mod Ancestors
pub mod Frontier
pub mod Consumers
pub mod Releases
mod Tests
use tensor_torrent.Base.{
  ℕ, zero, suc, ◌+◌, Bool, true, false, not, ◌&&◌, ◌||◌, List, [], ◌∷◌, ◌++◌, map, Option, none,
  some, ◌==◌, if◌then◌else◌, elem, length,
}
use tensor_torrent.Base.Dict.{Dict, get, set}
use tensor_torrent.Schedule.{PlanInstruction, ExecutableSchedule, is_release, passes_values}

-- `{inst.name: inst for inst in schedule.instructions}`: the last of equal names stays.
unfoldable pub by_name : Dict (List ℕ) → List PlanInstruction → Dict (List ℕ)
by_name names [] = names
by_name names (inst ∷ insts) = by_name (set inst.name inst.depends_on names) insts

-- `stack.extend(names)`: the top of the stack is its head.
pub extend : List ℕ → List ℕ → List ℕ
extend [] stack = stack
extend (name ∷ names) stack = extend names (name ∷ stack)

pub record Search : Type 0 where
  pub seen : List ℕ
  pub stack : List ℕ

-- What follows `current = stack.pop()`.
pub visit : Dict (List ℕ) → List ℕ → ℕ → List ℕ → Search
unfolding extend
visit names seen current stack = elim (get current names) [
  | none ↦ record { seen = seen; stack = stack }
  | some more ↦
      if elem current seen
      then record { seen = seen; stack = stack }
      else record { seen = current ∷ seen; stack = extend more stack }
]

-- `while stack`, for a number of rounds.
pub rounds : ℕ → Dict (List ℕ) → Search → Search
unfolding visit
rounds zero names search = search
rounds (suc fuel) names search = elim search.stack [
  | [] ↦ search
  | current ∷ stack ↦ rounds fuel names (visit names search.seen current stack)
]

-- Each dependency is pushed at most once for the instruction that has it.
pub total : Dict (List ℕ) → ℕ
total [] = 0
total ((name, deps) ∷ names) = length deps + total names

-- The state when the loop is left.
pub search_from : Dict (List ℕ) → List ℕ → Search
unfolding extend rounds total
search_from names deps =
    rounds (length deps + total names) names (record { seen = []; stack = extend deps [] })

-- `by_name[name]` does not fail: `ancestors` is asked of names of the schedule alone.
pub ancestors : Dict (List ℕ) → ℕ → List ℕ
unfolding search_from
ancestors names name = elim (get name names) [
  | none ↦ []
  | some deps ↦ (search_from names deps).seen
]

abbrev pub or_nil : Option (List ℕ) → List ℕ
or_nil none = []
or_nil (some names) = names

-- `d.setdefault(tensor, []).append(name)`, and that for each tensor.
pub append_to : ℕ → ℕ → Dict (List ℕ) → Dict (List ℕ)
append_to tensor name d = set tensor (or_nil (get tensor d) ++ name ∷ []) d

pub append_each : List ℕ → ℕ → Dict (List ℕ) → Dict (List ℕ)
unfolding append_to
append_each [] name d = d
append_each (tensor ∷ tensors) name d = append_each tensors name (append_to tensor name d)

pub producers_from : Dict (List ℕ) → List PlanInstruction → Dict (List ℕ)
unfolding append_each
producers_from d [] = d
producers_from d (inst ∷ insts) =
    producers_from (if passes_values inst.opcode then append_each inst.outputs inst.name d else d)
      insts

pub consumers_from : Dict (List ℕ) → List PlanInstruction → Dict (List ℕ)
unfolding append_each
consumers_from d [] = d
consumers_from d (inst ∷ insts) =
    consumers_from (if is_release inst.opcode then d else append_each inst.inputs inst.name d) insts

-- `dict.fromkeys`: the first of equal names stays.
unfoldable pub fromkeys : List ℕ → List ℕ → List ℕ
fromkeys kept [] = kept
fromkeys kept (name ∷ names) = fromkeys (if elem name kept then kept else kept ++ name ∷ []) names

-- `any(name in ancestors(other) for other in unique if other != name)`.
pub has_later : Dict (List ℕ) → ℕ → List ℕ → Bool
unfolding ancestors
has_later names name [] = false
has_later names name (other ∷ others) =
    not (other == name) && elem name (ancestors names other) || has_later names name others

-- Of the second list, the names that no other of the first comes after.
pub maximal : Dict (List ℕ) → List ℕ → List ℕ → List ℕ
unfolding has_later
maximal names unique [] = []
maximal names unique (name ∷ rest) =
    let others = maximal names unique rest in
    if has_later names name unique then others else name ∷ others

pub final_of : Dict (List ℕ) → List ℕ → List ℕ
unfolding fromkeys maximal
final_of names consumers = let unique = fromkeys [] consumers in maximal names unique unique

-- `for tensor, names in consumers.items()`.
pub final_consumers_of : Dict (List ℕ) → Dict (List ℕ) → Dict (List ℕ)
unfolding final_of
final_consumers_of names [] = []
final_consumers_of names ((tensor, consumers) ∷ d) =
    (tensor, final_of names consumers) ∷ final_consumers_of names d

-- `derived.extend(final.get(tensor, ()))` for each tensor.
pub derived_of : Dict (List ℕ) → List ℕ → List ℕ
derived_of final [] = []
derived_of final (tensor ∷ tensors) = or_nil (get tensor final) ++ derived_of final tensors

pub release_dependencies_of : Dict (List ℕ) → Dict (List ℕ) → List PlanInstruction → Dict (List ℕ)
unfolding fromkeys derived_of
release_dependencies_of final d [] = d
release_dependencies_of final d (inst ∷ insts) =
    release_dependencies_of final
      (if is_release inst.opcode
        then set inst.name (fromkeys [] (derived_of final inst.inputs)) d
        else d)
      insts

pub record ScheduleLivenessAnalysis : Type 0 where
  pub producers : Dict (List ℕ)
  pub consumers : Dict (List ℕ)
  pub final_consumers : Dict (List ℕ)
  pub release_dependencies : Dict (List ℕ)

-- The argument is an `ExecutableSchedule`, so the test of its type passes.
pub run_schedule_liveness : ExecutableSchedule → ScheduleLivenessAnalysis
unfolding by_name producers_from consumers_from final_consumers_of release_dependencies_of
run_schedule_liveness schedule =
    let consumers = consumers_from [] schedule.instructions in
    let final = final_consumers_of (by_name [] schedule.instructions) consumers in
    record {
      producers = producers_from [] schedule.instructions;
      consumers = consumers;
      final_consumers = final;
      release_dependencies = release_dependencies_of final [] schedule.instructions;
    }

-- The body of the loop of `apply_schedule_liveness`.
pub with_releases : Dict (List ℕ) → PlanInstruction → PlanInstruction
unfolding fromkeys
with_releases release_dependencies inst =
    let derived = or_nil (get inst.name release_dependencies) in
    if is_release inst.opcode
    then record inst {
      depends_on = fromkeys [] (inst.depends_on ++ derived);
      final_async_consumers = some derived;
    }
    else inst

pub apply_schedule_liveness : ExecutableSchedule → ExecutableSchedule
unfolding run_schedule_liveness with_releases
apply_schedule_liveness schedule =
    let analysis = run_schedule_liveness schedule in
    record schedule {
      instructions = map (with_releases analysis.release_dependencies) schedule.instructions;
    }
