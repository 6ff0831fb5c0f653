-- ===== src/Schedule/Finish/Releases.antt =====
-- What the releases of a finished schedule wait for
-- (python/tensortorrent/runtime/schedule/build.py).
use tensor_torrent.Base.{ℕ, ◌≡◌, subst, true, Bool, List, [], some, elem, All, All-mono, ok}
use tensor_torrent.Schedule.{
  PlanInstruction, ExecutableSchedule, is_release, with_explicit_streams, ensure_explicit_streams,
}
use tensor_torrent.Schedule.Liveness.{apply_schedule_liveness}
use tensor_torrent.Schedule.Liveness.Consumers.{consumes}
use tensor_torrent.Schedule.Liveness.Releases.{
  DistinctNames, Waits, All-map, apply_schedule_liveness-Waits,
}
use tensor_torrent.Schedule.Spill.Reload.{Texts}
use tensor_torrent.Schedule.Spill.{plan_activation_spills}
use tensor_torrent.Schedule.Spill.Consistency.{Returns}
use tensor_torrent.Schedule.Spill.Order.{is_ordered}
use tensor_torrent.Schedule.Spill.Order.Plans.{plan_activation_spills-is_ordered}
use tensor_torrent.Schedule.Finish.{protected_of, finish_schedule}
use tensor_torrent.Schedule.Finish.Acyclic.{is_ordered-Acyclic}

-- A release waits for each instruction of the list that reads a tensor that it frees.
abbrev pub FreesLast : List PlanInstruction → PlanInstruction → Type 0
FreesLast insts freed =
    All
      (λ inst.
        (tensor : ℕ)
        → is_release freed.opcode ≡ true
        → elem tensor freed.inputs ≡ true
        → consumes tensor inst ≡ true
        → Waits insts freed.depends_on inst.name)
      insts

FreesLast-with_explicit_streams :
    (insts : List PlanInstruction) (freed : PlanInstruction)
    → FreesLast insts freed
    → FreesLast insts (with_explicit_streams freed)
unfolding with_explicit_streams
FreesLast-with_explicit_streams insts freed h = h

planned-is_ordered :
    (texts : Texts) (schedule planned : ExecutableSchedule) (budget : ℕ) (protected : List ℕ)
    (values : List (ℕ × ℕ))
    → is_ordered [] schedule.instructions ≡ true
    → plan_activation_spills texts schedule (some budget) protected values ≡ ok planned
    → is_ordered [] planned.instructions ≡ true
planned-is_ordered texts schedule planned budget protected values waits plans =
    subst (Returns (λ p. is_ordered [] p.instructions ≡ true)) plans
      (plan_activation_spills-is_ordered texts schedule budget protected values waits)

-- Where each instruction of a schedule depends on names of earlier ones, the budget is not below zero,
-- and the schedule that is planned within it has different names, a schedule comes out of the steps,
-- and each of its releases waits for each planned instruction (the evictions and reloads among them)
-- that reads a tensor it frees, other than to free it: the reader is a dependency of the release, or
-- comes before one.
pub finish_schedule-FreesLast :
    (texts : Texts) (schedule planned : ExecutableSchedule) (budget : ℕ)
    (output_refs : List (Bool × ℕ)) (user_inputs : List ℕ) (values : List (ℕ × ℕ))
    → is_ordered [] schedule.instructions ≡ true
    → plan_activation_spills texts schedule
        (some budget)
        (protected_of output_refs user_inputs)
        values
      ≡ ok planned
    → DistinctNames planned.instructions
    → (final : ExecutableSchedule) × (finish_schedule texts schedule
          (some budget)
          output_refs
          user_inputs
          values
        ≡ ok final)
      × All (FreesLast planned.instructions) final.instructions
unfolding finish_schedule ensure_explicit_streams
finish_schedule-FreesLast texts schedule planned budget output_refs user_inputs values waits plans
      distinct =
    let protected = protected_of output_refs user_inputs in
    let insts = planned.instructions in
    let order = planned-is_ordered texts schedule planned budget protected values waits plans in
    let released =
      apply_schedule_liveness-Waits planned (is_ordered-Acyclic insts order distinct) distinct in
    let freed = (apply_schedule_liveness planned).instructions in
    (
      ensure_explicit_streams (apply_schedule_liveness planned),
      rw plans,
      All-map (FreesLast insts) with_explicit_streams freed
          (All-mono (FreesLast-with_explicit_streams insts) freed released),
    )
