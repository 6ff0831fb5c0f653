-- ===== src/Schedule/Spill/Tests.antt =====
-- Two tensors of eight bytes under a budget of ten: the first is spilled, and is reloaded on the host
-- and moved to the device when it is read.
use tensor_torrent.Base.{
  false, none, ◌==◌, ℕ, ◌+◌, ◌*◌, ◌≡◌, refl, true, List, [], ◌∷◌, some, Result, ok, map,
}
use tensor_torrent.Base.Dict.{get, set, remove}
use tensor_torrent.Ir.{OpCode, compute, release}
use tensor_torrent.Schedule.{PlanInstruction, ExecutableSchedule}
use tensor_torrent.Schedule.Hosts.{
  load_host_for_destination, tier_for_device, pageable, first_pinned_host, first_pinned_in,
  first_numa_host, first_numa_in, memory_allocatable_bytes, transfer_backend,
}
use tensor_torrent.Schedule.Liveness.{fromkeys}
use tensor_torrent.Schedule.Spill.Reload.{
  host_for, Texts, discard, value_sizes, bytes_of, tensor_nbytes_of, reload_load, reload_transfer,
  loaded, transferred, reload_input, reload_inputs, waiting, put_out, produce, made,
}
use tensor_torrent.Schedule.Spill.{
  add_sites, use_sites_from, next_use, score_leb, furthest, candidates_of, readers_of, spill_evict,
  evicted, spill_loop, check_budget, plan_compute, forget_live, forget_spilled, plan_instruction,
  plan_from, no_spills, plan_activation_spills,
}
use tensor_torrent.Schedule.Spill.Consistency.{Returns}
use tensor_torrent.Schedule.Spill.Budget.{Fits, plan_from-Fits}
use tensor_torrent.Schedule.Spill.Replay.{at_start, walk}
use tensor_torrent.Schedule.Spill.Replay.Steps.{is_accepted}
use tensor_torrent.Schedule.Spill.Order.{is_ordered}
use tensor_torrent.Schedule.Spill.Order.Plans.{plan_activation_spills-is_ordered}
use tensor_torrent.Schedule.Spill.Replay.Plans.{plan_activation_spills-walk}

abbrev texts : Texts
texts = record {
  load_name = λ t i. 1000 + 10 * i + t;
  transfer_name = λ t r i. 2000 + 10 * i + t;
  evict_name = λ t i. 3000 + 10 * i + t;
  transfer_resource = λ s d. 4000 + 10 * s + d;
  letters = record {
    names_disk = λ r. r == 2;
    names_pinned = λ r. false;
    is_device_resource = λ r. r == 3;
    is_host_resource = λ r. r == 1;
    is_cpu_backend = λ r. true;
    starts_with_numa_ram = λ r. false;
    cpu = 1;
  };
  machine = none;
  disk = 2;
}

abbrev inst : OpCode → ℕ → List ℕ → List ℕ → List ℕ → PlanInstruction
inst opcode name depends_on inputs outputs = record made {
  opcode = opcode;
  name = name;
  resource = 3;
  depends_on = depends_on;
  inputs = inputs;
  outputs = outputs;
  nbytes = 8;
}

abbrev insts : List PlanInstruction
insts =
    inst compute 10 [] [] (5 ∷ [])
    ∷ inst compute 11 [] [] (6 ∷ [])
    ∷ inst compute 12 (11 ∷ []) (6 ∷ []) []
    ∷ inst release 13 (12 ∷ []) (6 ∷ []) []
    ∷ inst compute 14 (10 ∷ []) (5 ∷ []) []
    ∷ []

abbrev schedule : ExecutableSchedule
schedule = record { graph_name = 1; fingerprint = 2; instructions = insts }

abbrev names_of : Result ExecutableSchedule → List (ℕ × List ℕ)
names_of (ok planned) = map (λ i. (i.name, i.depends_on)) planned.instructions
names_of _ = []

-- The first tensor is needed last, so it is spilled. The eviction waits for the instruction that went
-- over the budget, and not for 10, which makes the tensor.
spills :
    names_of (plan_activation_spills texts schedule (some 10) [] [])
    ≡ (10, [])
      ∷ (11, [])
      ∷ (3115, 11 ∷ [])
      ∷ (12, 11 ∷ [])
      ∷ (13, 12 ∷ [])
      ∷ (1145, 3115 ∷ [])
      ∷ (2145, 1145 ∷ [])
      ∷ (14, 10 ∷ 1145 ∷ 2145 ∷ [])
      ∷ []
unfolding host_for load_host_for_destination tier_for_device pageable first_pinned_host
    first_pinned_in first_numa_host first_numa_in memory_allocatable_bytes transfer_backend
    plan_activation_spills plan_from plan_instruction plan_compute check_budget spill_loop
    forget_live forget_spilled evicted spill_evict readers_of candidates_of furthest score_leb
    next_use use_sites_from add_sites produce put_out waiting reload_inputs reload_input transferred
    loaded reload_transfer reload_load tensor_nbytes_of bytes_of value_sizes discard fromkeys get
    set remove
spills = refl

plan_from-Fits_example : Returns (Fits 10 []) (plan_from texts [] [] [] 10 0 no_spills insts)
plan_from-Fits_example =
    plan_from-Fits texts [] [] [] 10
      (inst compute 10 [] [] (5 ∷ [])
        ∷ inst compute 11 [] [] (6 ∷ [])
        ∷ inst compute 12 (11 ∷ []) (6 ∷ []) []
        ∷ inst release 13 (12 ∷ []) (6 ∷ []) []
        ∷ [])
      (inst compute 14 (10 ∷ []) (5 ∷ []) []) refl

plan_activation_spills-walk_example :
    Returns
      (λ planned. is_accepted (walk (some at_start) planned.instructions) ≡ true)
      (plan_activation_spills texts schedule (some 10) [] [])
plan_activation_spills-walk_example =
    plan_activation_spills-walk texts schedule 10 [] [] (refl, (refl, (refl, (refl, (refl, tt)))))

plan_activation_spills-is_ordered_example :
    Returns
      (λ planned. is_ordered [] planned.instructions ≡ true)
      (plan_activation_spills texts schedule (some 10) [] [])
unfolding is_ordered
plan_activation_spills-is_ordered_example =
    plan_activation_spills-is_ordered texts schedule 10 [] [] refl
