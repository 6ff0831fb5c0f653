-- ===== src/Schedule/Spill/Order/Plans.antt =====
-- `plan_activation_spills` of python/tensortorrent/runtime/schedule/spill_plan.py keeps the order of a
-- schedule.
use tensor_torrent.Base.{
  ℕ, suc, ◌≡◌, refl, sym, subst, inl, inr, true, not, ◌&&◌, List, [], ◌∷◌, some, ◌==◌, ==_iff,
  Bool-cases, elem, arith, length, ok,
}
use tensor_torrent.Base.Dict.{Dict, get}
use tensor_torrent.Schedule.{PlanInstruction, ExecutableSchedule, is_compute, is_release, is_evict}
use tensor_torrent.Schedule.Liveness.{}
use tensor_torrent.Schedule.Liveness.Frontier.{}
use tensor_torrent.Schedule.Spill.Reload.{
  Texts, Spills, reload_inputs, waiting, put_out, produce, value_sizes,
}
use tensor_torrent.Schedule.Spill.{
  readers_of, spill_evict, evicted, spill_loop, check_budget, plan_compute, is_spill,
  plan_instruction, plan_from, no_spills, plan_activation_spills, use_sites_from,
}
use tensor_torrent.Schedule.Spill.Consistency.{
  Returns, Returns-bind, Returns-and, Consistent, reload_inputs-Consistent, produce-Consistent,
}
use tensor_torrent.Schedule.Spill.Invariant.{spill_loop_keeps}
use tensor_torrent.Schedule.Spill.Budget.{
  check_budget-Fits, spill_loop-Fits, plan_instruction-Consistent,
}
use tensor_torrent.Schedule.Spill.Replay.{all_in}
use tensor_torrent.Schedule.Spill.Order.{
  is_ordered, names_after, InOrder, all_in-elem, get-remove_found, out_later, out_self,
  step-InOrder,
}
use tensor_torrent.Schedule.Spill.Order.Steps.{
  written_out, one_out, append_out, fromkeys_out, reload_inputs-Ready, produce-InOrder,
  put_out-InOrder, put_out-Consistent, waiting_out, waiting-name,
}

names_after-known :
    (known : List ℕ) (insts : List PlanInstruction) (x : ℕ)
    → elem x known ≡ true
    → elem x (names_after known insts) ≡ true
unfolding names_after
names_after-known known [] x h = h
names_after-known known (inst ∷ insts) x h =
    names_after-known (inst.name ∷ known) insts x (ground (arith, h))

readers_out :
    (t : ℕ) (known : List ℕ) (insts : List PlanInstruction) (x : ℕ)
    → elem x (readers_of t insts) ≡ true
    → elem x (names_after known insts) ≡ true
unfolding readers_of names_after
readers_out t known [] x h = cc
readers_out t known (inst ∷ insts) x h = elim (Bool-cases (inst.name == x)) [
  | inl same ↦ names_after-known (inst.name ∷ known) insts x (ground (arith, same))
  | inr other ↦ readers_out t (inst.name ∷ known) insts x (ground (arith, h, other))
]

module _ (texts : Texts) (value_nbytes : Dict ℕ) (use_sites : Dict (List ℕ)) (protected : List ℕ)
    (budget : ℕ) where
  evicted-InOrder :
      (given : List ℕ) (inst : PlanInstruction)
      → elem inst.name given ≡ true
      → (s : Spills) (item : ℕ × ℕ × ℕ) → InOrder given s
      → InOrder given (evicted texts value_nbytes use_sites protected budget inst s item)
  unfolding evicted spill_evict
  evicted-InOrder given inst named s (t, resource, n) h =
      let next = evicted texts value_nbytes use_sites protected budget inst s (t, resource, n) in
      let out = spill_evict texts value_nbytes use_sites protected budget inst s t resource n in
      let later = out_later given s next out refl in
      let readers = readers_of t s.out in
      step-InOrder given s next out refl h
        (fromkeys_out s (inst.name ∷ readers) (
          append_out s (inst.name ∷ []) readers (one_out s inst.name (h.given_out inst.name named))
            (λ x e. readers_out t [] s.out x e)))
        (written_out s next t out.name s.spill_op_for later (out_self given s next out refl)
          h.spillers)
        (λ k op e. later op (h.reloads k op (get-remove_found t k op s.shared_reload e)))

  plan_compute-InOrder :
      (at : ℕ) (s : Spills) (inst : PlanInstruction) (given : List ℕ)
      → all_in inst.depends_on given ≡ true
      → Consistent s
      → InOrder given s
      → Returns
          (InOrder (inst.name ∷ given))
          (plan_compute texts value_nbytes use_sites protected budget at s inst)
  unfolding plan_compute
  plan_compute-InOrder at s inst given waits h order =
      let reloaded = reload_inputs texts value_nbytes inst (s, []) inst.inputs in
      let compute_inst = waiting inst reloaded.1 in
      let ready =
        reload_inputs-Ready texts value_nbytes inst given inst.inputs s [] (order, λ x e. cc e) in
      let same = waiting-name inst reloaded.1 in
      let out : InOrder (inst.name ∷ given) (put_out compute_inst reloaded.0) =
        subst (λ n. InOrder (n ∷ given) (put_out compute_inst reloaded.0)) same
          (put_out-InOrder given reloaded.0 compute_inst ready.0 (
            waiting_out reloaded.0 inst reloaded.1
              (λ x e. ready.0.given_out x (all_in-elem inst.depends_on given x waits e))
              ready.1)) in
      let consistent =
        put_out-Consistent reloaded.0 compute_inst
          (reload_inputs-Consistent texts value_nbytes inst s [] inst.inputs h) in
      let call =
        produce value_nbytes compute_inst (put_out compute_inst reloaded.0) compute_inst.outputs in
      Returns-bind (InOrder (inst.name ∷ given)) call
        (λ produced. check_budget texts value_nbytes use_sites protected budget (
          spill_loop texts value_nbytes use_sites protected budget (length produced.live) at
            compute_inst produced))
        (Returns-and Consistent (InOrder (inst.name ∷ given)) call
          (produce-Consistent value_nbytes compute_inst compute_inst.outputs
            (put_out compute_inst reloaded.0) consistent)
          (produce-InOrder value_nbytes compute_inst (inst.name ∷ given) compute_inst.outputs
            (put_out compute_inst reloaded.0) out))
        (λ produced both.
          let fits =
            spill_loop-Fits texts value_nbytes use_sites protected budget (length produced.live) at
              compute_inst produced both.0 (omega arith) in
          let end =
            spill_loop texts value_nbytes use_sites protected budget (length produced.live) at
              compute_inst produced in
          let named : elem compute_inst.name (inst.name ∷ given) ≡ true =
            ground (arith, (==_iff inst.name compute_inst.name).1 (sym same)) in
          rw (check_budget-Fits texts value_nbytes use_sites protected budget end fits) (
            spill_loop_keeps texts value_nbytes use_sites protected budget
              (InOrder (inst.name ∷ given)) compute_inst
              (evicted-InOrder (inst.name ∷ given) compute_inst named) (length produced.live) at
              produced both.1))

  -- What goes out as it came, where the planner would wait for the same.
  kept_InOrder :
      (given : List ℕ) (s : Spills) (inst : PlanInstruction) (live : Dict (ℕ × ℕ))
      (spilled : List ℕ)
      → all_in inst.depends_on given ≡ true
      → InOrder given s
      → InOrder (inst.name ∷ given) (record (put_out inst s) { live = live; spilled = spilled })
  unfolding put_out
  kept_InOrder given s inst live spilled waits h =
      let out =
        put_out-InOrder given s inst h
          (λ x e. h.given_out x (all_in-elem inst.depends_on given x waits e)) in
      record {
        ordered = out.ordered;
        spillers = out.spillers;
        reloads = out.reloads;
        given_out = out.given_out;
      }

  plan_instruction-InOrder :
      (at : ℕ) (s : Spills) (inst : PlanInstruction) (given : List ℕ)
      → all_in inst.depends_on given ≡ true
      → Consistent s
      → InOrder given s
      → Returns
          (InOrder (inst.name ∷ given))
          (plan_instruction texts value_nbytes use_sites protected budget at s inst)
  unfolding plan_instruction put_out
  plan_instruction-InOrder at s inst given waits h order =
      let kept = kept_InOrder given s inst in
      elim (Bool-cases (is_compute inst.opcode)) [
        | inl computes ↦ rw computes (plan_compute-InOrder at s inst given waits h order)
        | inr other ↦ elim (Bool-cases (is_release inst.opcode)) [
          | inl frees ↦ rw (other, frees) (kept _ _ waits order)
          | inr passes ↦ elim (Bool-cases (is_evict inst.opcode && not (is_spill inst.kind))) [
            | inl evicts ↦ rw (other, passes, evicts) (kept _ _ waits order)
            | inr keeps ↦ rw (other, passes, keeps) (kept _ _ waits order)
          ]
        ]
      ]

  plan_from-InOrder :
      (insts : List PlanInstruction) (given : List ℕ) (at : ℕ) (s : Spills)
      → is_ordered given insts ≡ true
      → Consistent s
      → InOrder given s
      → Returns
          (λ end. is_ordered [] end.out ≡ true)
          (plan_from texts value_nbytes use_sites protected budget at s insts)
  unfolding plan_from is_ordered
  plan_from-InOrder [] given at s waits h order = order.ordered
  plan_from-InOrder (inst ∷ insts) given at s waits h order =
      Returns-bind (λ end. is_ordered [] end.out ≡ true)
        (plan_instruction texts value_nbytes use_sites protected budget at s inst)
        (λ next. plan_from texts value_nbytes use_sites protected budget (suc at) next insts)
        (Returns-and Consistent (InOrder (inst.name ∷ given))
          (plan_instruction texts value_nbytes use_sites protected budget at s inst)
          (plan_instruction-Consistent texts value_nbytes use_sites protected budget at s inst h)
          (plan_instruction-InOrder at s inst given (ground (arith, waits)) h order))
        (λ next both.
          plan_from-InOrder insts (inst.name ∷ given) (suc at) next (ground (arith, waits)) both.0
            both.1)

start-InOrder : InOrder [] no_spills
unfolding is_ordered get
start-InOrder = record {
  ordered = refl;
  spillers = λ t op e. cc e;
  reloads = λ t op e. cc e;
  given_out = λ x e. cc e;
}

-- Where each instruction of a schedule depends on names of earlier ones, and the budget is not below
-- zero, either `int` of a size raises, or in the schedule that is planned, too, each instruction, what
-- the planner adds among them, depends on names of earlier ones.
pub plan_activation_spills-is_ordered :
    (texts : Texts) (schedule : ExecutableSchedule) (budget_bytes : ℕ) (protected_tensors : List ℕ)
    (program_values : List (ℕ × ℕ))
    → is_ordered [] schedule.instructions ≡ true
    → Returns
        (λ planned. is_ordered [] planned.instructions ≡ true)
        (plan_activation_spills texts schedule (some budget_bytes) protected_tensors program_values)
unfolding plan_activation_spills
plan_activation_spills-is_ordered texts schedule budget protected values waits =
    let insts = schedule.instructions in
    Returns-bind (λ planned. is_ordered [] planned.instructions ≡ true)
      (plan_from texts (value_sizes [] values) (use_sites_from 0 [] insts) protected budget 0
        no_spills insts)
      (λ s. ok (record schedule { instructions = s.out }))
      (plan_from-InOrder texts (value_sizes [] values) (use_sites_from 0 [] insts) protected budget
        insts [] 0 no_spills waits (λ t away. cc away) start-InOrder)
      (λ s ordered. ordered)
