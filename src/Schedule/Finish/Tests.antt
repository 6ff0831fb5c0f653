-- ===== src/Schedule/Finish/Tests.antt =====
-- The schedule that spills a tensor, and what its release waits for at the end.
use tensor_torrent.Base.{
  false, none, ◌==◌, ℕ, ◌+◌, ◌*◌, ◌≡◌, refl, true, List, [], ◌∷◌, some, Result, ok,
}
use tensor_torrent.Base.Dict.{get, set, remove}
use tensor_torrent.Ir.{OpCode, compute, release}
use tensor_torrent.Schedule.{PlanInstruction, ExecutableSchedule}
use tensor_torrent.Schedule.Hosts.{
  load_host_for_destination, tier_for_device, pageable, first_pinned_host, first_pinned_in,
  first_numa_host, first_numa_in, memory_allocatable_bytes, transfer_backend,
}
use tensor_torrent.Schedule.Liveness.{fromkeys}
use tensor_torrent.Schedule.Spill.Reload.{
  host_for, Texts, discard, value_sizes, bytes_of, tensor_nbytes_of, reload_load, reload_transfer,
  loaded, transferred, reload_input, reload_inputs, waiting, put_out, produce, made,
}
use tensor_torrent.Schedule.Spill.{
  add_sites, use_sites_from, next_use, score_leb, furthest, candidates_of, readers_of, spill_evict,
  evicted, spill_loop, check_budget, plan_compute, forget_live, forget_spilled, plan_instruction,
  plan_from, plan_activation_spills,
}
use tensor_torrent.Schedule.Spill.Consistency.{}
use tensor_torrent.Schedule.Spill.Budget.{}
use tensor_torrent.Schedule.Spill.Replay.{}
use tensor_torrent.Schedule.Spill.Replay.Steps.{}
use tensor_torrent.Schedule.Spill.Order.{is_ordered}
use tensor_torrent.Schedule.Spill.Order.Plans.{}
use tensor_torrent.Schedule.Spill.Replay.Plans.{}
use tensor_torrent.Base.{err, All, arith}
use tensor_torrent.Schedule.Liveness.Releases.{DistinctNames}
use tensor_torrent.Schedule.Finish.{protected_of, finish_schedule}
use tensor_torrent.Schedule.Finish.Releases.{FreesLast, finish_schedule-FreesLast}

abbrev texts : Texts
texts = record {
  load_name = λ t i. 1000 + 10 * i + t;
  transfer_name = λ t r i. 2000 + 10 * i + t;
  evict_name = λ t i. 3000 + 10 * i + t;
  transfer_resource = λ s d. 4000 + 10 * s + d;
  letters = record {
    names_disk = λ r. r == 2;
    names_pinned = λ r. false;
    is_device_resource = λ r. r == 3;
    is_host_resource = λ r. r == 1;
    is_cpu_backend = λ r. true;
    starts_with_numa_ram = λ r. false;
    cpu = 1;
  };
  machine = none;
  disk = 2;
}

abbrev inst : OpCode → ℕ → List ℕ → List ℕ → List ℕ → PlanInstruction
inst opcode name depends_on inputs outputs = record made {
  opcode = opcode;
  name = name;
  resource = 3;
  depends_on = depends_on;
  inputs = inputs;
  outputs = outputs;
  nbytes = 8;
}

abbrev insts : List PlanInstruction
insts =
    inst compute 10 [] [] (5 ∷ [])
    ∷ inst compute 11 [] [] (6 ∷ [])
    ∷ inst compute 12 (11 ∷ []) (6 ∷ []) []
    ∷ inst release 13 (12 ∷ []) (6 ∷ []) []
    ∷ inst compute 14 (10 ∷ []) (5 ∷ []) []
    ∷ []

abbrev schedule : ExecutableSchedule
schedule = record { graph_name = 1; fingerprint = 2; instructions = insts }

abbrev planned_or : Result ExecutableSchedule → ExecutableSchedule
planned_or (ok planned) = planned
planned_or (err e) = schedule

abbrev planned : ExecutableSchedule
planned = planned_or (plan_activation_spills texts schedule (some 10) [] [])

plans : plan_activation_spills texts schedule (some 10) (protected_of [] []) [] ≡ ok planned
unfolding protected_of host_for load_host_for_destination tier_for_device pageable first_pinned_host
    first_pinned_in first_numa_host first_numa_in memory_allocatable_bytes transfer_backend
    plan_activation_spills plan_from plan_instruction plan_compute check_budget spill_loop
    forget_live forget_spilled evicted spill_evict readers_of candidates_of furthest score_leb
    next_use use_sites_from add_sites produce put_out waiting reload_inputs reload_input transferred
    loaded reload_transfer reload_load tensor_nbytes_of bytes_of value_sizes discard fromkeys get
    set remove
plans = refl

planned-DistinctNames : DistinctNames planned.instructions
unfolding host_for load_host_for_destination tier_for_device pageable first_pinned_host
    first_pinned_in first_numa_host first_numa_in memory_allocatable_bytes transfer_backend
    plan_activation_spills plan_from plan_instruction plan_compute check_budget spill_loop
    forget_live forget_spilled evicted spill_evict readers_of candidates_of furthest score_leb
    next_use use_sites_from add_sites produce put_out waiting reload_inputs reload_input transferred
    loaded reload_transfer reload_load tensor_nbytes_of bytes_of value_sizes discard fromkeys get
    set remove
planned-DistinctNames = ground arith

finish_schedule-FreesLast_example :
    (final : ExecutableSchedule) × (finish_schedule texts schedule (some 10) [] [] [] ≡ ok final)
    × All (FreesLast planned.instructions) final.instructions
unfolding is_ordered
finish_schedule-FreesLast_example =
    finish_schedule-FreesLast texts schedule planned 10 [] [] [] refl plans planned-DistinctNames
