-- ===== src/Schedule/Spill/Budget.antt =====
-- The budget of `plan_activation_spills` in python/tensortorrent/runtime/schedule/spill_plan.py: its
-- loop ends within it, or with what is protected.
use tensor_torrent.Base.{
  ℕ, zero, suc, ◌≤◌, ◌<◌, ◌≡◌, refl, subst, ◌⊎◌, inl, inr, true, false, not, ◌&&◌, List, [], ◌∷◌,
  ◌++◌, Bool-cases, elem, length, All, All-mono, arith, Result, ok, err,
}
use tensor_torrent.Base.Dict.{Dict, get, remove, contains}
use tensor_torrent.Schedule.{PlanInstruction, is_compute, is_release, is_evict}
use tensor_torrent.Schedule.Spill.Reload.{
  Texts, Spills, bytes_of, reload_inputs, waiting, put_out, produce,
}
use tensor_torrent.Schedule.Spill.{
  candidates_of, furthest, score_leb, evicted, spill_loop, any_unprotected, check_budget,
  plan_compute, is_spill, plan_instruction, plan_from, no_spills,
}
use tensor_torrent.Schedule.Spill.Invariant.{
  evicted-Consistent, spill_loop-cases, spill_loop_keeps, forgotten-Consistent,
}
use tensor_torrent.Schedule.Spill.Consistency.{
  Returns, Returns-bind, Consistent, reload_inputs-Consistent, produce-Consistent,
}

length-remove_le : (k : ℕ) (live : Dict (ℕ × ℕ)) → length (remove k live) ≤ length live
unfolding remove
length-remove_le k [] = omega arith
length-remove_le k ((j, v) ∷ live) = ground (arith, length-remove_le k live)

length-remove :
    (k : ℕ) (live : Dict (ℕ × ℕ)) → contains k live ≡ true → length (remove k live) < length live
unfolding remove get
length-remove k [] h = cc
length-remove k ((j, v) ∷ live) h = ground (arith, length-remove_le k live, length-remove k live)

module _ (protected spilled : List ℕ) where
  candidates_of-live :
      (live : Dict (ℕ × ℕ))
      → All (λ item. contains item.0 live ≡ true) (candidates_of protected spilled live)
  unfolding candidates_of get
  candidates_of-live [] = tt
  candidates_of-live ((t, (res, n)) ∷ live) =
      let rest : All (λ item. contains item.0 ((t, (res, n)) ∷ live) ≡ true)
          (candidates_of protected spilled live) =
        All-mono (λ item h. ground (arith, h)) (candidates_of protected spilled live)
          (candidates_of-live live) in
      elim (Bool-cases (not (elem t protected) && not (elem t spilled))) [
        | inl spillable ↦ rw spillable (ground arith, rest)
        | inr kept ↦ rw kept rest
      ]

  -- With nothing to evict, what is live and not spilled is protected.
  candidates_of-nil :
      (live : Dict (ℕ × ℕ))
      → candidates_of protected spilled live ≡ []
      → All (λ entry. elem entry.0 spilled ≡ false) live
      → any_unprotected protected live ≡ false
  unfolding candidates_of
  candidates_of-nil [] nothing h = refl
  candidates_of-nil ((t, (res, n)) ∷ live) nothing h = elim (Bool-cases (elem t protected)) [
    | inl kept ↦ rw kept (candidates_of-nil live (ground (arith, nothing, kept)) h.1)
    | inr spillable ↦ ground (arith, nothing, spillable, h.0)
  ]

furthest-All :
    (P : ℕ × ℕ × ℕ → Type 0) (at : ℕ) (use_sites : Dict (List ℕ)) (best : ℕ × ℕ × ℕ)
    (items : List (ℕ × ℕ × ℕ))
    → P best
    → All P items
    → P (furthest at use_sites best items)
unfolding furthest
furthest-All P at use_sites best [] h k = h
furthest-All P at use_sites best (item ∷ items) h k =
    elim (Bool-cases (score_leb at use_sites best item)) [
      | inl next ↦ rw (next, furthest) (furthest-All P at use_sites item items k.0 k.1)
      | inr kept ↦ rw (kept, furthest) (furthest-All P at use_sites best items h k.1)
    ]

-- What is live is not spilled.
live-unspilled :
    (spilled : List ℕ) (live : Dict (ℕ × ℕ))
    → ((t : ℕ) → elem t spilled ≡ true → contains t live ≡ false)
    → All (λ entry. elem entry.0 spilled ≡ false) live
unfolding get
live-unspilled spilled [] h = tt
live-unspilled spilled ((t, v) ∷ live) h = (
  elim (Bool-cases (elem t spilled)) [ inl away ↦ ground (arith, h t away) | inr here ↦ here ],
  live-unspilled spilled live (λ k away. ground (arith, h k away)),
)

any_unprotected_empty :
    (protected : List ℕ) (live : Dict (ℕ × ℕ))
    → length live ≤ 0
    → any_unprotected protected live ≡ false
any_unprotected_empty protected [] h = refl
any_unprotected_empty protected (entry ∷ live) h = ground (arith, h)

-- What is live is within the budget, or protected.
abbrev pub Fits : ℕ → List ℕ → Spills → Type 0
Fits budget protected s = (bytes_of s.live ≤ budget) ⊎ (any_unprotected protected s.live ≡ false)

pub Returns-mono {ℓ} :
    {A : Type ℓ} (P Q : A → Type 0) (call : Result A)
    → ((a : A) → P a → Q a)
    → Returns P call
    → Returns Q call
Returns-mono P Q (err e) f h = h
Returns-mono P Q (ok a) f h = f a h

module _ (texts : Texts) (value_nbytes : Dict ℕ) (use_sites : Dict (List ℕ)) (protected : List ℕ)
    (budget : ℕ) where
  pub spill_loop-Fits :
      (fuel at : ℕ) (inst : PlanInstruction) (s : Spills)
      → Consistent s
      → length s.live ≤ fuel
      → Fits budget protected
          (spill_loop texts value_nbytes use_sites protected budget fuel at inst s)
  unfolding spill_loop evicted
  spill_loop-Fits zero at inst s h enough = inr (any_unprotected_empty protected s.live enough)
  spill_loop-Fits (suc fuel) at inst s h enough =
      elim (spill_loop-cases texts value_nbytes use_sites protected budget fuel at inst s) [
        | inl (eq, inl within) ↦ rw eq (inl (ground (arith, within)))
        | inl (eq, inr nothing) ↦ rw eq (
            inr (
              candidates_of-nil protected s.spilled s.live nothing
                (live-unspilled s.spilled s.live (λ t away. (h t away).0))))
        | inr (item, items, found, eq) ↦
            let chosen = furthest at use_sites item items in
            let live : All (λ i. contains i.0 s.live ≡ true) (item ∷ items) =
              subst (All (λ i. contains i.0 s.live ≡ true)) found
                (candidates_of-live protected s.spilled s.live) in
            let here : contains chosen.0 s.live ≡ true =
              furthest-All (λ i. contains i.0 s.live ≡ true) at use_sites item items live.0
                live.1 in
            rw eq (
              spill_loop-Fits fuel at inst
                (evicted texts value_nbytes use_sites protected budget inst s chosen)
                (evicted-Consistent texts value_nbytes use_sites protected budget inst s chosen h)
                (omega (arith, enough, length-remove chosen.0 s.live here)))
      ]

  -- After the loop, the test does not raise.
  pub check_budget-Fits :
      (s : Spills)
      → Fits budget protected s
      → check_budget texts value_nbytes use_sites protected budget s ≡ ok s
  unfolding check_budget
  check_budget-Fits s (inl within) = ground (arith, within)
  check_budget-Fits s (inr kept) = rw kept

  abbrev Settled : Spills → Type 0
  Settled s = Consistent s × Fits budget protected s

  plan_compute-Settled :
      (at : ℕ) (s : Spills) (inst : PlanInstruction)
      → Consistent s
      → Returns Settled (plan_compute texts value_nbytes use_sites protected budget at s inst)
  unfolding plan_compute put_out
  plan_compute-Settled at s inst h =
      let reloaded = reload_inputs texts value_nbytes inst (s, []) inst.inputs in
      let compute_inst = waiting inst reloaded.1 in
      Returns-bind Settled
        (produce value_nbytes compute_inst (put_out compute_inst reloaded.0) compute_inst.outputs)
        (λ produced. check_budget texts value_nbytes use_sites protected budget (
          spill_loop texts value_nbytes use_sites protected budget (length produced.live) at
            compute_inst produced))
        (produce-Consistent value_nbytes compute_inst compute_inst.outputs
          (put_out compute_inst reloaded.0)
          (reload_inputs-Consistent texts value_nbytes inst s [] inst.inputs h))
        (λ produced hp.
          let end =
            spill_loop texts value_nbytes use_sites protected budget (length produced.live) at
              compute_inst produced in
          let fits =
            spill_loop-Fits (length produced.live) at compute_inst produced hp (omega arith) in
          rw (check_budget-Fits end fits) (
            spill_loop_keeps texts value_nbytes use_sites protected budget Consistent compute_inst
                (evicted-Consistent texts value_nbytes use_sites protected budget compute_inst)
                (length produced.live) at produced hp,
            fits,
          ))

  pub plan_instruction-Consistent :
      (at : ℕ) (s : Spills) (inst : PlanInstruction)
      → Consistent s
      → Returns Consistent
          (plan_instruction texts value_nbytes use_sites protected budget at s inst)
  unfolding plan_instruction put_out
  plan_instruction-Consistent at s inst h = elim (Bool-cases (is_compute inst.opcode)) [
    | inl computes ↦ rw computes (
        Returns-mono Settled Consistent _ (λ next settled. settled.0)
          (plan_compute-Settled at s inst h))
    | inr other ↦ elim (Bool-cases (is_release inst.opcode)) [
      | inl frees ↦ rw (other, frees) (forgotten-Consistent s inst.inputs inst.inputs h)
      | inr passes ↦ elim (Bool-cases (is_evict inst.opcode && not (is_spill inst.kind))) [
        | inl evicts ↦ rw (other, passes, evicts) (forgotten-Consistent s inst.inputs [] h)
        | inr keeps ↦ rw (other, passes, keeps) h
      ]
    ]
  ]

  plan_from-Consistent :
      (insts : List PlanInstruction) (at : ℕ) (s : Spills)
      → Consistent s
      → Returns Consistent (plan_from texts value_nbytes use_sites protected budget at s insts)
  unfolding plan_from
  plan_from-Consistent [] at s h = h
  plan_from-Consistent (inst ∷ insts) at s h =
      Returns-bind Consistent
        (plan_instruction texts value_nbytes use_sites protected budget at s inst)
        (λ next. plan_from texts value_nbytes use_sites protected budget (suc at) next insts)
        (plan_instruction-Consistent at s inst h)
        (λ next hn. plan_from-Consistent insts (suc at) next hn)

  plan_from-Fits_last :
      (insts : List PlanInstruction) (inst : PlanInstruction) (at : ℕ) (s : Spills)
      → is_compute inst.opcode ≡ true
      → Consistent s
      → Returns
          (Fits budget protected)
          (plan_from texts value_nbytes use_sites protected budget at s (insts ++ inst ∷ []))
  unfolding plan_from plan_instruction
  plan_from-Fits_last [] inst at s computes h =
      Returns-bind (Fits budget protected)
        (plan_instruction texts value_nbytes use_sites protected budget at s inst) (λ next. ok next)
        (rw computes (
          Returns-mono Settled (Fits budget protected)
            (plan_compute texts value_nbytes use_sites protected budget at s inst)
            (λ next settled. settled.1) (plan_compute-Settled at s inst h)))
        (λ next fits. fits)
  plan_from-Fits_last (first ∷ insts) inst at s computes h =
      Returns-bind (Fits budget protected)
        (plan_instruction texts value_nbytes use_sites protected budget at s first)
        (λ next.
          plan_from texts value_nbytes use_sites protected budget (suc at) next
            (insts ++ inst ∷ []))
        (plan_instruction-Consistent at s first h)
        (λ next hn. plan_from-Fits_last insts inst (suc at) next computes hn)

  -- From the start, over instructions of which the last one computes, with whatever uses, sizes and
  -- protected tensors: either `int` of a size raises, and nothing else does (the test after the loop
  -- never raises `ScheduleValidationError`), or the planner ends with live bytes within the budget, or
  -- with every live tensor protected.
  pub plan_from-Fits :
      (insts : List PlanInstruction) (inst : PlanInstruction)
      → is_compute inst.opcode ≡ true
      → Returns
          (Fits budget protected)
          (plan_from texts value_nbytes use_sites protected budget 0 no_spills (insts ++ inst ∷ []))
  plan_from-Fits insts inst computes =
      plan_from-Fits_last insts inst 0 no_spills computes (λ t none_away. cc none_away)
