-- ===== src/Schedule/Liveness/Tests.antt =====
-- A schedule that loads a tensor, reads it twice and frees it.
use tensor_torrent.Base.{
  false, ℕ, ◌<◌, arith, ◌≡◌, ◌↔◌, refl, true, List, [], ◌∷◌, none, some, elem, All,
}
use tensor_torrent.Base.Dict.{Dict, get, set}
use tensor_torrent.Ir.{OpCode, compute, load, release}
use tensor_torrent.Schedule.{unknown, PlanInstruction, ExecutableSchedule, is_release}
use tensor_torrent.Schedule.Liveness.{
  by_name, extend, visit, rounds, total, search_from, ancestors, append_to, append_each,
  consumers_from, fromkeys, has_later, maximal, final_of, final_consumers_of, derived_of,
  release_dependencies_of, run_schedule_liveness, with_releases, apply_schedule_liveness,
}
use tensor_torrent.Schedule.Liveness.Ancestors.{Before, direct, through, ancestors-Before}
use tensor_torrent.Schedule.Liveness.Rounds.{search_from-done}
use tensor_torrent.Schedule.Liveness.Frontier.{Acyclic}
use tensor_torrent.Schedule.Liveness.Releases.{DistinctNames, Waits, apply_schedule_liveness-Waits}
use tensor_torrent.Schedule.Liveness.Consumers.{consumes}

abbrev inst : OpCode → ℕ → List ℕ → List ℕ → List ℕ → PlanInstruction
inst opcode name depends_on inputs outputs = record {
  opcode = opcode;
  name = name;
  resource = 1;
  depends_on = depends_on;
  inputs = inputs;
  outputs = outputs;
  nbytes = 8;
  memory_tier = unknown;
  executable_ref = none;
  source = 0;
  destination = 0;
  transfer_backend = none;
  sync_required = false;
  stream_id = none;
  copy_engine_id = none;
  link_id = none;
  io_queue_id = none;
  tensor_nbytes = none;
  output_bytes = none;
  kind = none;
  final_async_consumers = none;
}

-- The second reader comes after the first, so it is the final one.
abbrev schedule : ExecutableSchedule
schedule = record {
  graph_name = 1;
  fingerprint = 2;
  instructions =
      inst load 10 [] [] (5 ∷ [])
      ∷ inst compute 11 (10 ∷ []) (5 ∷ []) (6 ∷ [])
      ∷ inst compute 12 (11 ∷ []) (5 ∷ 6 ∷ []) (7 ∷ [])
      ∷ inst release 13 [] (5 ∷ []) []
      ∷ [];
}

waits_for_final : apply_schedule_liveness schedule ≡ record schedule {
  instructions =
      inst load 10 [] [] (5 ∷ [])
      ∷ inst compute 11 (10 ∷ []) (5 ∷ []) (6 ∷ [])
      ∷ inst compute 12 (11 ∷ []) (5 ∷ 6 ∷ []) (7 ∷ [])
      ∷ (record (inst release 13 (12 ∷ []) (5 ∷ []) []) { final_async_consumers = some (12 ∷ []) })
      ∷ [];
}
unfolding apply_schedule_liveness run_schedule_liveness with_releases release_dependencies_of
    derived_of final_consumers_of final_of maximal has_later fromkeys consumers_from append_each
    append_to ancestors search_from rounds visit total extend by_name get set
waits_for_final = refl

abbrev names : Dict (List ℕ)
names = (10, []) ∷ (11, 10 ∷ []) ∷ (12, 11 ∷ []) ∷ (13, []) ∷ []

ancestors-Before_example : (elem 10 (ancestors names 12) ≡ true) ↔ Before names 10 12
ancestors-Before_example = ancestors-Before names 10 12

search_from-done_example : (search_from names (11 ∷ [])).stack ≡ []
search_from-done_example = search_from-done names (11 ∷ [])

-- Along an edge the names grow.
grows : (x y : ℕ) (deps : List ℕ) → get y names ≡ some deps → elem x deps ≡ true → x < y
unfolding get
grows x y deps found listed = ground (arith, found, listed)

Before-grows : {x y : ℕ} → Before names x y → x < y
Before-grows {x} {y} (direct e) = let (deps, found, listed) = e.1 in grows x y deps found listed
Before-grows {x} {y} (through e b) =
    let (deps, found, listed) = e.1 in omega (arith, grows x _ deps found listed, Before-grows b)

schedule-Acyclic : Acyclic (by_name [] schedule.instructions)
unfolding by_name get set
schedule-Acyclic x b = omega (arith, Before-grows b)

schedule-DistinctNames : DistinctNames schedule.instructions
schedule-DistinctNames = ground arith

apply_schedule_liveness-Waits_example :
    All
      (λ freed.
        All
          (λ inst.
            (tensor : ℕ)
            → is_release freed.opcode ≡ true
            → elem tensor freed.inputs ≡ true
            → consumes tensor inst ≡ true
            → Waits schedule.instructions freed.depends_on inst.name)
          schedule.instructions)
      (apply_schedule_liveness schedule).instructions
apply_schedule_liveness-Waits_example =
    apply_schedule_liveness-Waits schedule schedule-Acyclic schedule-DistinctNames
