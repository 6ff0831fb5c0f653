-- ===== src/Schedule/Spill/Replay/Reloads.antt =====
-- The loop over the inputs of a compute instruction in `plan_activation_spills` of
-- python/tensortorrent/runtime/schedule/spill_plan.py: what it puts out, and what it waits for.
use tensor_torrent.Base.{
  ℕ, ◌≡◌, refl, ◌∙◌, inl, inr, true, false, List, [], ◌∷◌, ◌++◌, Option, none, some, ◌==◌,
  Bool-cases, elem, elem-append, All, arith,
}
use tensor_torrent.Base.Dict.{Dict, get, set, contains_of_get, get-set}
use tensor_torrent.Schedule.{PlanInstruction}
use tensor_torrent.Schedule.Liveness.Frontier.{}
use tensor_torrent.Schedule.Spill.Reload.{
  Texts, Spills, discard, loaded, transferred, reload_input, reload_inputs,
}
use tensor_torrent.Schedule.Spill.{}
use tensor_torrent.Schedule.Spill.Invariant.{}
use tensor_torrent.Schedule.Spill.Consistency.{
  Consistent, elem-discard, reload_input-cases, reload_input-Consistent,
}
use tensor_torrent.Schedule.Spill.Replay.{waits_for}
use tensor_torrent.Schedule.Spill.Replay.Steps.{Agrees, loaded-Agrees, transferred-Agrees}
use tensor_torrent.Schedule.Spill.Budget.{}

-- The input is not on the disk, and what brought it back is among the dependencies.
abbrev pub CoveredAt : Spills → List ℕ → ℕ → Type 0
CoveredAt s deps t = (elem t s.spilled ≡ false) × (waits_for (get t s.shared_reload) deps ≡ true)

waits_for-append :
    (op : Option ℕ) (deps more : List ℕ)
    → waits_for op deps ≡ true
    → waits_for op (deps ++ more) ≡ true
waits_for-append none deps more h = refl
waits_for-append (some op) deps more h = ground (arith, elem-append op deps more, h)

pub differs : (a b : ℕ) (xs : List ℕ) → elem a xs ≡ true → elem b xs ≡ false → (a == b) ≡ false
differs a b [] h k = cc
differs a b (x ∷ xs) h k = ground (arith, differs a b xs, h, k)

get-set_other : (k j n : ℕ) (d : Dict ℕ) → (k == j) ≡ false → get j (set k n d) ≡ get j d
get-set_other k j n d ne = get-set k j n d ∙ rw ne

get-set_same : (k n : ℕ) (d : Dict ℕ) → get k (set k n d) ≡ some n
get-set_same k n d = ground (arith, get-set k k n d)

elem_last : (op : ℕ) (deps : List ℕ) → elem op (deps ++ op ∷ []) ≡ true
elem_last op deps = ground (arith, elem-append op deps (op ∷ []))

elem-discard_self : (t : ℕ) (spilled : List ℕ) → elem t (discard t spilled) ≡ false
elem-discard_self t spilled = ground (arith, elem-discard t t spilled)

elem-discard_kept :
    (t k : ℕ) (spilled : List ℕ) → elem t spilled ≡ false → elem t (discard k spilled) ≡ false
elem-discard_kept t k spilled h = ground (arith, elem-discard t k spilled, h)

module _ (texts : Texts) (value_nbytes : Dict ℕ) (inst : PlanInstruction) where
  -- A round keeps what is covered.
  Covered_kept :
      (s : Spills) (deps : List ℕ) (tensor t : ℕ)
      → CoveredAt s deps t
      → let next = reload_input texts value_nbytes inst (s, deps) tensor in
        CoveredAt next.0 next.1 t
  unfolding loaded transferred
  Covered_kept s deps tensor t h = elim (reload_input-cases texts value_nbytes inst s deps tensor) [
    | inl (op, found, eq) ↦ rw eq (h.0, waits_for-append (get t s.shared_reload) deps (op ∷ []) h.1)
    | inr (inl (absent, here, eq)) ↦ rw eq h
    | inr (inr (inl (away, eq))) ↦
        let name = texts.load_name tensor inst.name in
        let ne = differs tensor t s.spilled away h.0 in
        rw eq (
          elem-discard_kept t tensor s.spilled h.0,
          rw (get-set_other tensor t name s.shared_reload ne)
              (waits_for-append (get t s.shared_reload) deps (name ∷ []) h.1),
        )
    | inr (inr (inr (away, eq))) ↦
        let name = texts.load_name tensor inst.name in
        let tname = texts.transfer_name tensor inst.resource inst.name in
        let ne = differs tensor t s.spilled away h.0 in
        rw eq (
          elem-discard_kept t tensor s.spilled h.0,
          rw
              (
                get-set_other tensor t tname (set tensor name s.shared_reload) ne,
                get-set_other tensor t name s.shared_reload ne,
              )
              (waits_for-append (get t s.shared_reload) deps (name ∷ tname ∷ []) h.1),
        )
  ]

  -- A round covers its input.
  Covered_new :
      (s : Spills) (deps : List ℕ) (tensor : ℕ)
      → Consistent s
      → let next = reload_input texts value_nbytes inst (s, deps) tensor in
        CoveredAt next.0 next.1 tensor
  unfolding loaded transferred
  Covered_new s deps tensor h = elim (reload_input-cases texts value_nbytes inst s deps tensor) [
    | inl (op, found, eq) ↦
        let here : elem tensor s.spilled ≡ false = elim (Bool-cases (elem tensor s.spilled)) [
          | inl away ↦ cc (contains_of_get tensor s.shared_reload found, (h tensor away).1)
          | inr here ↦ here
        ] in
        rw eq (here, rw found (elem_last op deps))
    | inr (inl (absent, here, eq)) ↦ rw eq (here, rw absent)
    | inr (inr (inl (away, eq))) ↦
        let name = texts.load_name tensor inst.name in
        rw eq (
          elem-discard_self tensor s.spilled,
          rw (get-set_same tensor name s.shared_reload) (elem_last name deps),
        )
    | inr (inr (inr (away, eq))) ↦
        let name = texts.load_name tensor inst.name in
        let tname = texts.transfer_name tensor inst.resource inst.name in
        rw eq (
          elem-discard_self tensor s.spilled,
          rw (get-set_same tensor tname (set tensor name s.shared_reload))
              (ground (arith, elem-append tname deps (name ∷ tname ∷ []))),
        )
  ]

  reload_input-Agrees :
      (s : Spills) (deps : List ℕ) (tensor : ℕ)
      → Consistent s
      → Agrees s
      → Agrees (reload_input texts value_nbytes inst (s, deps) tensor).0
  reload_input-Agrees s deps tensor h agrees =
      elim (reload_input-cases texts value_nbytes inst s deps tensor) [
        | inl (op, found, eq) ↦ rw eq agrees
        | inr (inl (absent, here, eq)) ↦ rw eq agrees
        | inr (inr (inl (away, eq))) ↦
            rw eq (loaded-Agrees texts value_nbytes s inst tensor away (h tensor away).2 agrees)
        | inr (inr (inr (away, eq))) ↦ rw eq (
            transferred-Agrees texts value_nbytes s inst tensor
              (loaded-Agrees texts value_nbytes s inst tensor away (h tensor away).2 agrees))
      ]

  pub reload_inputs-Agrees :
      (tensors : List ℕ) (s : Spills) (deps : List ℕ)
      → Consistent s
      → Agrees s
      → Agrees (reload_inputs texts value_nbytes inst (s, deps) tensors).0
  unfolding reload_inputs
  reload_inputs-Agrees [] s deps h agrees = agrees
  reload_inputs-Agrees (tensor ∷ tensors) s deps h agrees =
      let next = reload_input texts value_nbytes inst (s, deps) tensor in
      reload_inputs-Agrees tensors next.0 next.1
        (reload_input-Consistent texts value_nbytes inst s deps tensor h)
        (reload_input-Agrees s deps tensor h agrees)

  Covered_after :
      (tensors : List ℕ) (s : Spills) (deps : List ℕ) (t : ℕ)
      → CoveredAt s deps t
      → let end = reload_inputs texts value_nbytes inst (s, deps) tensors in CoveredAt end.0 end.1 t
  unfolding reload_inputs
  Covered_after [] s deps t h = h
  Covered_after (tensor ∷ tensors) s deps t h =
      let next = reload_input texts value_nbytes inst (s, deps) tensor in
      Covered_after tensors next.0 next.1 t (Covered_kept s deps tensor t h)

  pub reload_inputs-Covered :
      (tensors : List ℕ) (s : Spills) (deps : List ℕ)
      → Consistent s
      → let end = reload_inputs texts value_nbytes inst (s, deps) tensors in
        All (CoveredAt end.0 end.1) tensors
  unfolding reload_inputs
  reload_inputs-Covered [] s deps h = tt
  reload_inputs-Covered (tensor ∷ tensors) s deps h =
      let next = reload_input texts value_nbytes inst (s, deps) tensor in
      (
        Covered_after tensors next.0 next.1 tensor (Covered_new s deps tensor h),
        reload_inputs-Covered tensors next.0 next.1
            (reload_input-Consistent texts value_nbytes inst s deps tensor h),
      )
