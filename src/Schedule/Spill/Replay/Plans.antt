-- ===== src/Schedule/Spill/Replay/Plans.antt =====
-- What `plan_activation_spills` of python/tensortorrent/runtime/schedule/spill_plan.py puts out is
-- accepted by the walk.
use tensor_torrent.Base.{
  ℕ, suc, ◌≡◌, refl, ◌∙◌, sym, ap, subst, inl, inr, true, false, not, ◌&&◌, List, [], ◌∷◌, ◌++◌,
  some, Bool-cases, Option-cases, elem, elem-append, All, arith, length, ok,
}
use tensor_torrent.Base.Dict.{Dict, get, set, remove}
use tensor_torrent.Schedule.{PlanInstruction, ExecutableSchedule, is_compute, is_release, is_evict}
use tensor_torrent.Schedule.Liveness.Frontier.{elem-fromkeys}
use tensor_torrent.Schedule.Spill.Reload.{
  Texts, Spills, discard, reload_inputs, waiting, put_out, produce, tensor_nbytes_of, value_sizes,
}
use tensor_torrent.Schedule.Spill.{
  spill_loop, check_budget, plan_compute, is_spill, plan_instruction, plan_from, no_spills,
  plan_activation_spills, use_sites_from,
}
use tensor_torrent.Schedule.Spill.Invariant.{spill_loop_keeps}
use tensor_torrent.Schedule.Spill.Consistency.{
  Returns, Returns-bind, Returns-and, tensor_nbytes_of-Returns, reload_inputs-Consistent,
  produce-Consistent, Consistent,
}
use tensor_torrent.Schedule.Spill.Replay.{
  Disk, at_start, waits_for, is_added, reads_back, regain, walk_one, walk,
}
use tensor_torrent.Schedule.Spill.Replay.Steps.{
  view, Agrees, is_accepted, start-Agrees, accepted_of_Agrees, step-Agrees, evicted-Agrees,
  walk_one-plain,
}
use tensor_torrent.Schedule.Spill.Budget.{
  Returns-mono, check_budget-Fits, spill_loop-Fits, plan_instruction-Consistent,
}
use tensor_torrent.Schedule.Spill.Replay.Reloads.{
  CoveredAt, reload_inputs-Agrees, reload_inputs-Covered,
}

regain_put :
    (ts : List ℕ) (d : Disk) (past : List PlanInstruction)
    → regain ts (record d { past = past }) ≡ record (regain ts d) { past = past }
unfolding regain
regain_put [] d past = refl
regain_put (t ∷ ts) d past = regain_put ts _ past

regain-past : (ts : List ℕ) (d : Disk) → (regain ts d).past ≡ d.past
unfolding regain
regain-past [] d = refl
regain-past (t ∷ ts) d = regain-past ts _

produce-view :
    (value_nbytes : Dict ℕ) (inst : PlanInstruction) (tensors : List ℕ) (s : Spills)
    → Returns (λ next. view next ≡ regain tensors (view s)) (produce value_nbytes inst s tensors)
unfolding produce regain
produce-view value_nbytes inst [] s = refl
produce-view value_nbytes inst (tensor ∷ tensors) s =
    Returns-bind (λ next. view next ≡ regain (tensor ∷ tensors) (view s))
      (tensor_nbytes_of value_nbytes inst tensor) _
      (tensor_nbytes_of-Returns value_nbytes inst tensor)
      (λ n u. produce-view value_nbytes inst tensors (record s {
        live = set tensor (inst.resource, n) s.live;
        spilled = discard tensor s.spilled;
        spill_op_for = remove tensor s.spill_op_for;
      }))

reads_back-Covered :
    (s : Spills) (deps more ts : List ℕ)
    → ((op : ℕ) → elem op deps ≡ true → elem op more ≡ true)
    → All (CoveredAt s deps) ts
    → reads_back (view s) more ts ≡ true
unfolding reads_back
reads_back-Covered s deps more [] f h = refl
reads_back-Covered s deps more (t ∷ ts) f h = elim (Option-cases (get t s.shared_reload)) [
  | inl absent ↦ rw (h.0.0, absent) (reads_back-Covered s deps more ts f h.1)
  | inr (op, found) ↦
      let waits = f op (subst (λ o. waits_for o deps ≡ true) found h.0.1) in
      rw (h.0.0, found, waits) (reads_back-Covered s deps more ts f h.1)
]

waiting-depends_on :
    (inst : PlanInstruction) (deps : List ℕ) (op : ℕ)
    → elem op deps ≡ true
    → elem op (waiting inst deps).depends_on ≡ true
unfolding waiting
waiting-depends_on inst [] op h = cc
waiting-depends_on inst (dep ∷ deps) op h = ground (
  arith,
  elem-fromkeys op [] (inst.depends_on ++ dep ∷ deps),
  elem-append op inst.depends_on (dep ∷ deps),
  h,
)

-- What an instruction that waits keeps.
waiting_same :
    (inst : PlanInstruction) (deps : List ℕ)
    → ((waiting inst deps).opcode ≡ inst.opcode)
      × ((waiting inst deps).kind ≡ inst.kind)
      × ((waiting inst deps).inputs ≡ inst.inputs)
unfolding waiting
waiting_same inst [] = (refl, refl, refl)
waiting_same inst (dep ∷ deps) = (refl, refl, refl)

compute_step :
    (s : Spills) (inst : PlanInstruction)
    → is_compute inst.opcode ≡ true
    → is_added inst.kind ≡ false
    → reads_back (view s) inst.depends_on inst.inputs ≡ true
    → walk_one (view s) inst ≡ some (regain inst.outputs (view (put_out inst s)))
unfolding put_out
compute_step s inst computes given back =
    walk_one-plain (view s) inst given
    ∙ rw (computes, back)
        (rw (
          regain_put inst.outputs (view s) (s.out ++ inst ∷ []),
          regain-past inst.outputs (view s),
        ))

produce-Agrees :
    (value_nbytes : Dict ℕ) (s : Spills) (inst : PlanInstruction)
    → is_compute inst.opcode ≡ true
    → is_added inst.kind ≡ false
    → reads_back (view s) inst.depends_on inst.inputs ≡ true
    → Agrees s
    → Returns Agrees (produce value_nbytes inst (put_out inst s) inst.outputs)
unfolding put_out
produce-Agrees value_nbytes s inst computes given back h =
    Returns-mono (λ next. view next ≡ regain inst.outputs (view (put_out inst s))) Agrees
      (produce value_nbytes inst (put_out inst s) inst.outputs)
      (λ next eq.
        step-Agrees s next inst
          (ap (λ d. d.past) eq ∙ regain-past inst.outputs (view (put_out inst s)))
          (compute_step s inst computes given back ∙ ap some (sym eq)) h)
      (produce-view value_nbytes inst inst.outputs (put_out inst s))

module _ (texts : Texts) (value_nbytes : Dict ℕ) (use_sites : Dict (List ℕ)) (protected : List ℕ)
    (budget : ℕ) where
  plan_compute-Agrees :
      (at : ℕ) (s : Spills) (inst : PlanInstruction)
      → is_compute inst.opcode ≡ true
      → is_added inst.kind ≡ false
      → Consistent s
      → Agrees s
      → Returns Agrees (plan_compute texts value_nbytes use_sites protected budget at s inst)
  unfolding plan_compute put_out
  plan_compute-Agrees at s inst computes given h agrees =
      let reloaded = reload_inputs texts value_nbytes inst (s, []) inst.inputs in
      let deps = reloaded.1 in
      let compute_inst = waiting inst deps in
      let same = waiting_same inst deps in
      let consistent = reload_inputs-Consistent texts value_nbytes inst s [] inst.inputs h in
      let back : reads_back (view reloaded.0) compute_inst.depends_on compute_inst.inputs ≡ true =
        rw same.2 (
          reads_back-Covered reloaded.0 deps compute_inst.depends_on inst.inputs
            (waiting-depends_on inst deps)
            (reload_inputs-Covered texts value_nbytes inst inst.inputs s [] h)) in
      Returns-bind Agrees
        (produce value_nbytes compute_inst (put_out compute_inst reloaded.0) compute_inst.outputs)
        (λ produced. check_budget texts value_nbytes use_sites protected budget (
          spill_loop texts value_nbytes use_sites protected budget (length produced.live) at
            compute_inst produced))
        (Returns-and Consistent Agrees
          (produce value_nbytes compute_inst (put_out compute_inst reloaded.0) compute_inst.outputs)
          (produce-Consistent value_nbytes compute_inst compute_inst.outputs
            (put_out compute_inst reloaded.0) consistent)
          (produce-Agrees value_nbytes reloaded.0 compute_inst (rw same.0 computes)
            (rw same.1 given) back
            (reload_inputs-Agrees texts value_nbytes inst inst.inputs s [] h agrees)))
        (λ produced both.
          let fits =
            spill_loop-Fits texts value_nbytes use_sites protected budget (length produced.live) at
              compute_inst produced both.0 (omega arith) in
          let end =
            spill_loop texts value_nbytes use_sites protected budget (length produced.live) at
              compute_inst produced in
          rw (check_budget-Fits texts value_nbytes use_sites protected budget end fits) (
            spill_loop_keeps texts value_nbytes use_sites protected budget Agrees compute_inst
              (evicted-Agrees texts value_nbytes use_sites protected budget compute_inst)
              (length produced.live) at produced both.1))

  plan_instruction-Agrees :
      (at : ℕ) (s : Spills) (inst : PlanInstruction)
      → is_added inst.kind ≡ false
      → Consistent s
      → Agrees s
      → Returns Agrees (plan_instruction texts value_nbytes use_sites protected budget at s inst)
  unfolding plan_instruction put_out
  plan_instruction-Agrees at s inst given h agrees =
      let step = walk_one-plain (view s) inst given in
      elim (Bool-cases (is_compute inst.opcode)) [
        | inl computes ↦ rw computes (plan_compute-Agrees at s inst computes given h agrees)
        | inr other ↦ elim (Bool-cases (is_release inst.opcode)) [
          | inl frees ↦
              rw (other, frees) (step-Agrees s _ inst refl (step ∙ rw (other, frees)) agrees)
          | inr passes ↦ elim (Bool-cases (is_evict inst.opcode && not (is_spill inst.kind))) [
            | inl evicts ↦
                rw (other, passes, evicts)
                  (step-Agrees s _ inst refl (step ∙ rw (other, passes)) agrees)
            | inr keeps ↦
                rw (other, passes, keeps)
                  (step-Agrees s _ inst refl (step ∙ rw (other, passes)) agrees)
          ]
        ]
      ]

  plan_from-Agrees :
      (insts : List PlanInstruction) (at : ℕ) (s : Spills)
      → All (λ inst. is_added inst.kind ≡ false) insts
      → Consistent s
      → Agrees s
      → Returns Agrees (plan_from texts value_nbytes use_sites protected budget at s insts)
  unfolding plan_from
  plan_from-Agrees [] at s given h agrees = agrees
  plan_from-Agrees (inst ∷ insts) at s given h agrees =
      Returns-bind Agrees (plan_instruction texts value_nbytes use_sites protected budget at s inst)
        (λ next. plan_from texts value_nbytes use_sites protected budget (suc at) next insts)
        (Returns-and Consistent Agrees
          (plan_instruction texts value_nbytes use_sites protected budget at s inst)
          (plan_instruction-Consistent texts value_nbytes use_sites protected budget at s inst h)
          (plan_instruction-Agrees at s inst given.0 h agrees))
        (λ next both. plan_from-Agrees insts (suc at) next given.1 both.0 both.1)

-- A schedule whose instructions are not spills or reloads yet is planned within any budget: either
-- `int` of a size raises, or the walk over what comes out goes through. So no compute instruction
-- reads a tensor that is on the disk, and each waits for the reload or transfer that last brought an
-- input back; a reload is of a spilled tensor and waits for its eviction; an eviction waits for each
-- compute instruction before it that reads the tensor.
pub plan_activation_spills-walk :
    (texts : Texts) (schedule : ExecutableSchedule) (budget_bytes : ℕ) (protected_tensors : List ℕ)
    (program_values : List (ℕ × ℕ))
    → All (λ inst. is_added inst.kind ≡ false) schedule.instructions
    → Returns
        (λ planned. is_accepted (walk (some at_start) planned.instructions) ≡ true)
        (plan_activation_spills texts schedule (some budget_bytes) protected_tensors program_values)
unfolding plan_activation_spills
plan_activation_spills-walk texts schedule budget protected values given =
    let insts = schedule.instructions in
    Returns-bind (λ planned. is_accepted (walk (some at_start) planned.instructions) ≡ true)
      (plan_from texts (value_sizes [] values) (use_sites_from 0 [] insts) protected budget 0
        no_spills insts)
      (λ s. ok (record schedule { instructions = s.out }))
      (plan_from-Agrees texts (value_sizes [] values) (use_sites_from 0 [] insts) protected budget
        insts 0 no_spills given (λ t away. cc away) start-Agrees)
      (λ s agrees. accepted_of_Agrees s agrees)
