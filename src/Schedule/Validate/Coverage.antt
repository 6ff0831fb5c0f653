-- ===== src/Schedule/Validate/Coverage.antt =====
-- What it means that `schedule_matches_plan` of python/tensortorrent/runtime/schedule/validate.py
-- reports nothing, said of the schedule's instructions and the plan's regions alone.
use tensor_torrent.Base.{
  ℕ, zero, suc, Bool, ◌⊎◌, ◌≡◌, ◌↔◌, inl, inr, refl, subst, ap, ◌∙◌, Option-cases, true, false,
  List, [], ◌∷◌, none, some, arith, ◌==◌, ==_iff, elem, get_elem?, All, Bool-cases,
}
use tensor_torrent.Schedule.{PlanInstruction, ExecutableSchedule, is_compute}
use tensor_torrent.Schedule.Validate.{
  is_computed, is_placed, missing_errors, orphan_errors, compute_ops, schedule_matches_plan,
}
use tensor_torrent.Schedule.Validate.Complete.{++-eq-nil}

-- The list has the element at some place.
abbrev pub Has {ℓ} : {A : Type ℓ} → List A → A → Type ℓ
Has xs x = (i : ℕ) × (get_elem? xs i ≡ some x)

-- Some instruction computes the region.
abbrev pub Runs : List PlanInstruction → ℕ → Type 0
Runs insts region =
    (inst : PlanInstruction) × Has insts inst
    × (is_compute inst.opcode ≡ true)
    × (inst.executable_ref ≡ some region)

-- The instruction computes a region of the list.
abbrev pub RunsOne : List ℕ → PlanInstruction → Type 0
RunsOne regions inst = (region : ℕ) × Has regions region × (inst.executable_ref ≡ some region)

Has-later {ℓ} : {A : Type ℓ} (y : A) (xs : List A) (x : A) → Has xs x → Has (y ∷ xs) x
Has-later y xs x (i, e) = (suc i, e)

Has-cons {ℓ} : {A : Type ℓ} (y : A) (ys : List A) (x : A) → Has (y ∷ ys) x → (y ≡ x) ⊎ Has ys x
Has-cons y ys x (zero, e) = inl (cc (e))
Has-cons y ys x (suc i, e) = inr (i, e)

All-Has {ℓ κ} : {A : Type ℓ} (P : A → Type κ) (xs : List A) → All P xs ↔ ((x : A) → Has xs x → P x)
All-Has P [] = ((λ h x at. cc (at.1)), λ h. tt)
All-Has P (y ∷ ys) =
    let rest = All-Has P ys in
    (
      (λ h x at. elim (Has-cons y ys x at) [
        | inl first ↦ subst P first h.0
        | inr later ↦ rest.0 h.1 x later
      ]),
      λ h. (h y (0, refl), rest.1 (λ x at. h x (Has-later y ys x at))),
    )

elem-Has : (region : ℕ) (regions : List ℕ) → (elem region regions ≡ true) ↔ Has regions region
elem-Has region [] = ((λ h. cc), λ h. cc (h.1))
elem-Has region (r ∷ rs) =
    let rest = elem-Has region rs in
    (
      (λ h. elim (Bool-cases (r == region)) [
        | inl first ↦ (0, ap some ((==_iff r region).0 first))
        | inr later ↦ Has-later r rs region (rest.0 (ground (arith, h, later)))
      ]),
      λ h. elim (Has-cons r rs region h) [
        | inl first ↦ ground (arith, (==_iff r region).1 first)
        | inr later ↦ ground (arith, rest.1 later)
      ],
    )

missing_errors-eq-nil :
    (insts : List PlanInstruction) (regions : List ℕ)
    → (missing_errors insts regions ≡ []) ↔ All (λ r. is_computed r insts ≡ true) regions
unfolding missing_errors
missing_errors-eq-nil insts [] = ((λ h. tt), λ h. refl)
missing_errors-eq-nil insts (r ∷ rs) = elim (Bool-cases (is_computed r insts)) [
  | inl found ↦
      let rest = missing_errors-eq-nil insts rs in
      rw found ((λ h. (refl, rest.0 h)), λ h. rest.1 h.1)
  | inr absent ↦ rw absent ((λ h. cc), λ h. cc (h.0))
]

orphan_errors-eq-nil :
    (regions : List ℕ) (insts : List PlanInstruction)
    → (orphan_errors regions insts ≡ []) ↔ All (λ i. is_placed regions i ≡ true) insts
unfolding orphan_errors
orphan_errors-eq-nil regions [] = ((λ h. tt), λ h. refl)
orphan_errors-eq-nil regions (i ∷ is) = elim (Bool-cases (is_placed regions i)) [
  | inl found ↦
      let rest = orphan_errors-eq-nil regions is in
      rw found ((λ h. (refl, rest.0 h)), λ h. rest.1 h.1)
  | inr absent ↦ rw absent ((λ h. cc), λ h. cc (h.0))
]

is_placed-RunsOne :
    (regions : List ℕ) (inst : PlanInstruction)
    → (is_placed regions inst ≡ true) ↔ RunsOne regions inst
unfolding is_placed
is_placed-RunsOne regions inst = elim (Option-cases inst.executable_ref) [
  | inl absent ↦ ((λ h. ground (arith, h, absent)), λ h. cc (absent, h.2))
  | inr (ref, found) ↦ (
    (λ h. (ref, (elem-Has ref regions).0 (ground (arith, h, found)), found)),
    λ h.
        let same : h.0 ≡ ref = cc (found, h.2) in
        ground (arith, found, (elem-Has ref regions).1 (subst (Has regions) same h.1)),
  )
]

-- The compute instructions are those of the schedule that compute.
All-compute_ops :
    (P : PlanInstruction → Type 0) (insts : List PlanInstruction)
    → All P (compute_ops insts) ↔ All (λ i. is_compute i.opcode ≡ true → P i) insts
unfolding compute_ops
All-compute_ops P [] = ((λ h. tt), λ h. tt)
All-compute_ops P (i ∷ is) =
    let rest = All-compute_ops P is in
    elim (Bool-cases (is_compute i.opcode)) [
      | inl computes ↦ rw computes ((λ h. ((λ c. h.0), rest.0 h.1)), λ h. (h.0 refl, rest.1 h.1))
      | inr other ↦ rw other ((λ h. ((λ c. cc), rest.0 h)), λ h. rest.1 h.1)
    ]

-- One round of `is_computed`.
runs_here : (region : ℕ) → PlanInstruction → Bool
runs_here region inst = elim inst.executable_ref [ none ↦ false | some ref ↦ ref == region ]

runs_here_iff :
    (region : ℕ) (inst : PlanInstruction)
    → (runs_here region inst ≡ true) ↔ (inst.executable_ref ≡ some region)
unfolding runs_here
runs_here_iff region inst = elim (Option-cases inst.executable_ref) [
  | inl absent ↦ ((λ h. ground (arith, h, absent)), λ h. cc (absent, h))
  | inr (ref, found) ↦ (
    (λ h. found ∙ ap some ((==_iff ref region).0 (ground (arith, h, found)))),
    λ h. rw found ((==_iff ref region).1 (cc (found, h))),
  )
]

is_computed-Runs :
    (region : ℕ) (insts : List PlanInstruction)
    → (is_computed region (compute_ops insts) ≡ true) ↔ Runs insts region
unfolding compute_ops is_computed runs_here
is_computed-Runs region [] = ((λ h. cc), λ h. cc (h.1.1))
is_computed-Runs region (i ∷ is) =
    let rest = is_computed-Runs region is in
    let later : Runs is region → Runs (i ∷ is) region =
      λ (inst, at, computes, ref). (inst, Has-later i is inst at, computes, ref) in
    let split : Runs (i ∷ is) region
        → ((is_compute i.opcode ≡ true) × (runs_here region i ≡ true)) ⊎ Runs is region =
      λ (inst, at, computes, ref). elim (Has-cons i is inst at) [
        | inl first ↦ inl (
          ap (λ p. is_compute p.opcode) first ∙ computes,
          (runs_here_iff region i).1 (ap (λ p. p.executable_ref) first ∙ ref),
        )
        | inr further ↦ inr (inst, further, computes, ref)
      ] in
    elim (Bool-cases (is_compute i.opcode)) [
      | inl computes ↦ rw computes (
        (λ h. elim (Bool-cases (runs_here region i)) [
          | inl here ↦ (i, (0, refl), computes, (runs_here_iff region i).0 here)
          | inr other ↦ later (rest.0 (ground (arith, h, other)))
        ]),
        λ h. elim (split h) [
          | inl here ↦ ground (arith, here.1)
          | inr further ↦ ground (arith, rest.1 further)
        ],
      )
      | inr other ↦ rw other (
        (λ h. later (rest.0 h)),
        λ h. elim (split h) [ inl here ↦ cc (other, here.0) | inr further ↦ rest.1 further ],
      )
    ]

-- The check reports nothing exactly when each region that is placed is run by some instruction of the
-- schedule that computes, and each instruction of the schedule that computes runs a region that is
-- placed.
pub schedule_matches_plan-eq-nil :
    (schedule : ExecutableSchedule) (regions : List ℕ)
    → (schedule_matches_plan schedule regions ≡ []) ↔ (
        ((region : ℕ) → Has regions region → Runs schedule.instructions region)
        × ((inst : PlanInstruction)
            → Has schedule.instructions inst
            → is_compute inst.opcode ≡ true
            → RunsOne regions inst))
unfolding schedule_matches_plan
schedule_matches_plan-eq-nil schedule regions =
    let insts = schedule.instructions in
    let ops = compute_ops insts in
    let both = ++-eq-nil (missing_errors ops regions) (orphan_errors regions ops) in
    let missing = missing_errors-eq-nil ops regions in
    let orphans = orphan_errors-eq-nil regions ops in
    let all_regions = All-Has (λ r. is_computed r ops ≡ true) regions in
    let all_ops = All-compute_ops (λ i. is_placed regions i ≡ true) insts in
    let all_insts = All-Has (λ i. is_compute i.opcode ≡ true → is_placed regions i ≡ true) insts in
    (
      (λ h. (
        (λ r at. (is_computed-Runs r insts).0 (all_regions.0 (missing.0 (both.0 h).0) r at)),
        λ i at c.
            (is_placed-RunsOne regions i).0
              (all_insts.0 (all_ops.0 (orphans.0 (both.0 h).1)) i at c),
      )),
      λ h. both.1 (
        missing.1 (all_regions.1 (λ r at. (is_computed-Runs r insts).1 (h.0 r at))),
        orphans.1
            (all_ops.1 (all_insts.1 (λ i at c. (is_placed-RunsOne regions i).1 (h.1 i at c)))),
      ),
    )
