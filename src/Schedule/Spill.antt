-- ===== src/Schedule/Spill.antt =====
-- `plan_activation_spills` of python/tensortorrent/runtime/schedule/spill_plan.py: evictions and
-- reloads of activations, so that what is live stays within a budget. Of the new instructions the
-- backend's id and the attributes other than the kind and the sizes are left out, and so are the
-- schedule's notes. Sets are lists that membership is asked of.
pub mod Reload
pub mod Consistency
pub mod Invariant
pub mod Budget
pub mod Replay
pub mod Order
mod Tests
use tensor_torrent.Base.{
  ℕ, zero, suc, ◌+◌, ◌^◌, max, Bool, true, false, not, ◌&&◌, ◌||◌, List, [], ◌∷◌, ◌++◌, Option,
  none, some, ◌==◌, ltb, leb, if◌then◌else◌, elem, length, Result, ok, err, ◌>>=◌, value_error,
  schedule_validation_error,
}
use tensor_torrent.Base.Dict.{Dict, get, set, contains, remove}
use tensor_torrent.Ir.{compute, transfer, evict, load}
use tensor_torrent.Schedule.{
  on_disk, disk_pread, Size, bytes, below_zero, not_a_number, InstructionKind, activation_spill,
  activation_reload, activation_reload_transfer, parameter_host_to_device, parameter_prefetch,
  parameter_materialize, parameter_evict, activation, PlanInstruction, ExecutableSchedule,
  is_compute, is_release, is_evict,
}
use tensor_torrent.Schedule.Liveness.{fromkeys}
use tensor_torrent.Schedule.Spill.Reload.{
  Texts, Spills, discard, value_sizes, bytes_of, tensor_nbytes_of, made, reload_inputs, waiting,
  put_out, produce,
}

-- `use_sites.setdefault(name, []).append(idx)` for the inputs.
unfoldable pub add_sites : ℕ → Dict (List ℕ) → List ℕ → Dict (List ℕ)
add_sites idx sites [] = sites
add_sites idx sites (name ∷ names) =
    let before : List ℕ = elim (get name sites) [ none ↦ [] | some found ↦ found ] in
    add_sites idx (set name (before ++ idx ∷ []) sites) names

unfoldable pub use_sites_from : ℕ → Dict (List ℕ) → List PlanInstruction → Dict (List ℕ)
unfolding add_sites
use_sites_from idx sites [] = sites
use_sites_from idx sites (inst ∷ insts) =
    use_sites_from (suc idx)
      (if is_compute inst.opcode then add_sites idx sites inst.inputs else sites) insts

-- `next((s for s in sites if s > _at), 10**9)`.
unfoldable pub next_use : ℕ → List ℕ → ℕ
next_use at [] = 10 ^ 9
next_use at (site ∷ sites) = let later = next_use at sites in if ltb at site then site else later

-- The order of the scores `(next_use, -n)`.
unfoldable pub score_leb : (at : ℕ) → Dict (List ℕ) → (item other : ℕ × ℕ × ℕ) → Bool
unfolding next_use
score_leb at use_sites (t, res, n) (t', res', n') =
    let here =
      next_use at (elim (get t use_sites) as (λ o. List ℕ) [ none ↦ [] | some sites ↦ sites ]) in
    let there =
      next_use at (elim (get t' use_sites) as (λ o. List ℕ) [ none ↦ [] | some sites ↦ sites ]) in
    ltb here there || here == there && leb n' n

-- `sorted(candidates, key=_score)[-1]`: the last of the greatest.
unfoldable pub furthest : (at : ℕ) → Dict (List ℕ) → ℕ × ℕ × ℕ → List (ℕ × ℕ × ℕ) → ℕ × ℕ × ℕ
unfolding score_leb
furthest at use_sites best [] = best
furthest at use_sites best (item ∷ items) =
    furthest at use_sites (if score_leb at use_sites best item then item else best) items

unfoldable pub candidates_of : List ℕ → List ℕ → Dict (ℕ × ℕ) → List (ℕ × ℕ × ℕ)
candidates_of protected spilled [] = []
candidates_of protected spilled ((t, (res, n)) ∷ live) =
    let rest = candidates_of protected spilled live in
    if not (elem t protected) && not (elem t spilled) then (t, res, n) ∷ rest else rest

-- `tensor in prev.inputs` of the computes that are put out.
unfoldable pub readers_of : ℕ → List PlanInstruction → List ℕ
readers_of tensor [] = []
readers_of tensor (prev ∷ prevs) =
    let rest = readers_of tensor prevs in
    if is_compute prev.opcode && elem tensor prev.inputs then prev.name ∷ rest else rest

unfoldable pub forget_live : List ℕ → Dict (ℕ × ℕ) → Dict (ℕ × ℕ)
forget_live [] live = live
forget_live (tensor ∷ tensors) live = forget_live tensors (remove tensor live)

unfoldable pub forget_spilled : List ℕ → List ℕ → List ℕ
unfolding discard
forget_spilled [] spilled = spilled
forget_spilled (tensor ∷ tensors) spilled = forget_spilled tensors (discard tensor spilled)

abbrev pub is_spill : Option InstructionKind → Bool
is_spill none = false
is_spill (some kind) = elim kind [
  | activation_spill ↦ true
  | parameter_host_to_device ↦ false
  | parameter_prefetch ↦ false
  | parameter_materialize ↦ false
  | parameter_evict ↦ false
  | activation_reload ↦ false
  | activation_reload_transfer ↦ false
  | activation ↦ false
]

abbrev pub any_unprotected : List ℕ → Dict (ℕ × ℕ) → Bool
any_unprotected protected [] = false
any_unprotected protected ((t, (res, n)) ∷ live) =
    not (elem t protected) || any_unprotected protected live

module _ (texts : Texts) (value_nbytes : Dict ℕ) (use_sites : Dict (List ℕ)) (protected : List ℕ)
    (budget : ℕ) where
  unfoldable pub spill_evict : PlanInstruction → Spills → ℕ → ℕ → ℕ → PlanInstruction
  unfolding readers_of fromkeys
  spill_evict inst s tensor resource nbytes = record made {
    opcode = evict;
    name = texts.evict_name tensor inst.name;
    resource = resource;
    depends_on = fromkeys [] (inst.name ∷ readers_of tensor s.out);
    inputs = tensor ∷ [];
    nbytes = nbytes;
    source = resource;
    destination = texts.disk;
    tensor_nbytes = some ((tensor, bytes nbytes) ∷ []);
    memory_tier = on_disk;
    transfer_backend = some disk_pread;
    sync_required = true;
    kind = some activation_spill;
  }

  unfoldable pub evicted : PlanInstruction → Spills → ℕ × ℕ × ℕ → Spills
  unfolding spill_evict
  evicted inst s (tensor, resource, nbytes) = record s {
    live = remove tensor s.live;
    spilled = tensor ∷ s.spilled;
    spill_op_for = set tensor (texts.evict_name tensor inst.name) s.spill_op_for;
    spill_nbytes = set tensor nbytes s.spill_nbytes;
    shared_reload = remove tensor s.shared_reload;
    out = s.out ++ spill_evict inst s tensor resource nbytes ∷ [];
  }

  -- `while _live_bytes() > budget_bytes`, for a number of rounds.
  unfoldable pub spill_loop : ℕ → ℕ → PlanInstruction → Spills → Spills
  unfolding bytes_of candidates_of furthest evicted
  spill_loop zero at inst s = s
  spill_loop (suc fuel) at inst s = elim (ltb budget (bytes_of s.live)) [
    | false ↦ s
    | true ↦ elim (candidates_of protected s.spilled s.live) [
      | [] ↦ s
      | item ∷ items ↦ spill_loop fuel at inst (evicted inst s (furthest at use_sites item items))
    ]
  ]

  -- The test after the loop.
  unfoldable pub check_budget : Spills → Result Spills
  unfolding bytes_of
  check_budget s =
      if any_unprotected protected s.live && ltb budget (bytes_of s.live)
      then err schedule_validation_error
      else ok s

  -- The branch of a compute instruction.
  unfoldable pub plan_compute : ℕ → Spills → PlanInstruction → Result Spills
  unfolding reload_inputs waiting put_out produce spill_loop check_budget
  plan_compute at s inst =
      let (reloaded, deps) = reload_inputs texts value_nbytes inst (s, []) inst.inputs in
      let compute_inst = waiting inst deps in
      produce value_nbytes compute_inst (put_out compute_inst reloaded) compute_inst.outputs
      >>= λ produced. check_budget (spill_loop (length produced.live) at compute_inst produced)

  -- One round of the loop over the instructions.
  unfoldable pub plan_instruction : ℕ → Spills → PlanInstruction → Result Spills
  unfolding plan_compute put_out forget_live forget_spilled
  plan_instruction at s inst =
      let computed = plan_compute at s inst in
      if is_compute inst.opcode
      then computed
      else if is_release inst.opcode
      then ok (
          put_out inst (record s {
            live = forget_live inst.inputs s.live;
            spilled = forget_spilled inst.inputs s.spilled;
          }))
      else if is_evict inst.opcode && not (is_spill inst.kind)
      then ok (put_out inst (record s { live = forget_live inst.inputs s.live }))
      else ok (put_out inst s)

  -- `for idx, inst in enumerate(schedule.instructions)`, from an index on.
  unfoldable pub plan_from : ℕ → Spills → List PlanInstruction → Result Spills
  unfolding plan_instruction
  plan_from at s [] = ok s
  plan_from at s (inst ∷ insts) =
      plan_instruction at s inst >>= λ next. plan_from (suc at) next insts

abbrev pub no_spills : Spills
no_spills = record {
  live = [];
  spilled = [];
  spill_op_for = [];
  spill_nbytes = [];
  shared_reload = [];
  out = [];
}

-- The budget is `none` when it is below zero.
unfoldable pub plan_activation_spills :
    Texts
    → ExecutableSchedule
    → (budget_bytes : Option ℕ) → (protected_tensors : List ℕ) → (program_values : List (ℕ × ℕ))
    → Result ExecutableSchedule
unfolding use_sites_from value_sizes plan_from
plan_activation_spills texts schedule none protected_tensors program_values = ok schedule
plan_activation_spills texts schedule (some budget_bytes) protected_tensors program_values =
    plan_from texts (value_sizes [] program_values) (use_sites_from 0 [] schedule.instructions)
      protected_tensors budget_bytes 0 no_spills schedule.instructions
    >>= λ s. ok (record schedule { instructions = s.out })
