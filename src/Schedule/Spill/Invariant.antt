-- ===== src/Schedule/Spill/Invariant.antt =====
-- The loop that evicts in `plan_activation_spills` of
-- python/tensortorrent/runtime/schedule/spill_plan.py, and what it and the other branches keep.
use tensor_torrent.Base.{
  ℕ, zero, suc, ◌≡◌, refl, ◌∙◌, sym, subst, ◌⊎◌, inl, inr, true, false, List, [], ◌∷◌, ◌==◌, ltb,
  Bool-cases, elem, arith,
}
use tensor_torrent.Base.Dict.{Dict, remove, contains, contains-set, contains-remove}
use tensor_torrent.Schedule.{PlanInstruction}
use tensor_torrent.Schedule.Spill.Reload.{Texts, Spills, discard, bytes_of}
use tensor_torrent.Schedule.Spill.{
  candidates_of, furthest, evicted, spill_loop, forget_live, forget_spilled,
}
use tensor_torrent.Schedule.Spill.Consistency.{elem-discard, Consistent}

List-cases {ℓ} :
    {A : Type ℓ} (xs : List A) → (xs ≡ []) ⊎ ((x : A) × (rest : List A) × (xs ≡ x ∷ rest))
List-cases [] = inl refl
List-cases (x ∷ rest) = inr (x, rest, refl)

module _ (texts : Texts) (value_nbytes : Dict ℕ) (use_sites : Dict (List ℕ)) (protected : List ℕ)
    (budget : ℕ) where
  pub evicted-Consistent :
      (inst : PlanInstruction) (s : Spills) (item : ℕ × ℕ × ℕ)
      → Consistent s
      → Consistent (evicted texts value_nbytes use_sites protected budget inst s item)
  unfolding evicted
  evicted-Consistent inst s (tensor, resource, n) h t e = elim (Bool-cases (tensor == t)) [
    | inl here ↦ (
      contains-remove tensor t s.live ∙ rw here,
      contains-remove tensor t s.shared_reload ∙ rw here,
      contains-set tensor t (texts.evict_name tensor inst.name) s.spill_op_for ∙ rw here,
    )
    | inr other ↦
        let (live, reloaded, spiller) = h t (ground (arith, e, other)) in
        (
          contains-remove tensor t s.live ∙ rw (other, live),
          contains-remove tensor t s.shared_reload ∙ rw (other, reloaded),
          contains-set tensor t (texts.evict_name tensor inst.name) s.spill_op_for
              ∙ rw (other, spiller),
        )
  ]

  -- What the loop does first: it is left, within the budget or with nothing to evict, or it evicts.
  pub spill_loop-cases :
      (fuel at : ℕ) (inst : PlanInstruction) (s : Spills)
      → let loop = spill_loop texts value_nbytes use_sites protected budget in
        let candidates = candidates_of protected s.spilled s.live in
        (loop (suc fuel) at inst s ≡ s)
          × ((ltb budget (bytes_of s.live) ≡ false) ⊎ (candidates ≡ []))
        ⊎ ((item : ℕ × ℕ × ℕ) × (items : List (ℕ × ℕ × ℕ)) × (candidates ≡ item ∷ items)
            × (loop (suc fuel) at inst s
                ≡ loop fuel at inst (
                    evicted texts value_nbytes use_sites protected budget inst s
                      (furthest at use_sites item items))))
  unfolding spill_loop
  spill_loop-cases fuel at inst s = elim (Bool-cases (ltb budget (bytes_of s.live))) [
    | inr within ↦ inl (rw (within, spill_loop), inl within)
    | inl over ↦ elim (List-cases (candidates_of protected s.spilled s.live)) [
      | inl nothing ↦ inl (rw (over, nothing, spill_loop), inr nothing)
      | inr (item, items, found) ↦ inr (item, items, found, rw (over, found, spill_loop))
    ]
  ]

  -- What each eviction keeps, the loop keeps.
  pub spill_loop_keeps :
      (P : Spills → Type 0) (inst : PlanInstruction)
      → ((s : Spills) (item : ℕ × ℕ × ℕ)
          → P s
          → P (evicted texts value_nbytes use_sites protected budget inst s item))
      → (fuel at : ℕ) (s : Spills) → P s
      → P (spill_loop texts value_nbytes use_sites protected budget fuel at inst s)
  unfolding spill_loop
  spill_loop_keeps P inst step zero at s h = h
  spill_loop_keeps P inst step (suc fuel) at s h = elim (spill_loop-cases fuel at inst s) [
    | inl (eq, ended) ↦ subst P (sym eq) h
    | inr (item, items, found, eq) ↦
        subst P (sym eq)
          (spill_loop_keeps P inst step fuel at _ (step s (furthest at use_sites item items) h))
  ]

contains-forget_live :
    (t : ℕ) (tensors : List ℕ) (live : Dict (ℕ × ℕ))
    → contains t live ≡ false
    → contains t (forget_live tensors live) ≡ false
unfolding forget_live
contains-forget_live t [] live h = h
contains-forget_live t (tensor ∷ tensors) live h =
    contains-forget_live t tensors (remove tensor live)
      (contains-remove tensor t live ∙ rw h (ground arith))

elem-forget_spilled :
    (t : ℕ) (tensors spilled : List ℕ)
    → elem t (forget_spilled tensors spilled) ≡ true
    → elem t spilled ≡ true
unfolding forget_spilled
elem-forget_spilled t [] spilled h = h
elem-forget_spilled t (tensor ∷ tensors) spilled h =
    let before = elem-forget_spilled t tensors (discard tensor spilled) h in
    ground (arith, elem-discard t tensor spilled, before)

-- A release, or another eviction, makes nothing live.
pub forgotten-Consistent :
    (s : Spills) (tensors freed : List ℕ)
    → Consistent s
    → Consistent
        (record s { live = forget_live tensors s.live; spilled = forget_spilled freed s.spilled })
forgotten-Consistent s tensors freed h t e =
    let (live, reloaded, spiller) = h t (elem-forget_spilled t freed s.spilled e) in
    (contains-forget_live t tensors s.live live, reloaded, spiller)
