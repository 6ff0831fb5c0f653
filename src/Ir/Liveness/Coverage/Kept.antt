-- ===== src/Ir/Liveness/Coverage/Kept.antt =====
-- What the loops of run_liveness_analysis keep of a tensor's two times.
use tensor_torrent.Base.{
  ℕ, zero, suc, ◌+◌, ◌≤◌, ◌≡◌, subst, inl, inr, true, ◌||◌, List, [], ◌∷◌, Option, none, some,
  arith, elem, get_elem?, Bool-cases, ◌==◌, ==_iff, length,
}
use native.Mathlib.Nat.{add-zero, le_refl}
use tensor_torrent.Base.Dict.{Dict, contains}
use tensor_torrent.Ir.{TensorMeta, Instruction}
use tensor_torrent.Ir.Liveness.{
  Times, visit_output, visit_outputs, visit_input, visit_inputs, visit_instruction, visit_from,
  keep_output, keep_outputs, keep_parameter, keep_parameters,
}
use tensor_torrent.Ir.Liveness.Coverage.{
  Covers, Early, AtMost, seen, visit_output-Covers, visit_output-Early, visit_input-Covers,
  visit_input-Early, keep_output-Covers, keep_parameter-Covers, visit_output-Covers_self,
  visit_input-Covers_self, keep_output-Covers_self, keep_output-Early,
}

Early-suc : (index : ℕ) (first : Option ℕ) → AtMost index first → AtMost (suc index) first
Early-suc index none e = tt
Early-suc index (some first) e = omega arith

add-suc_shift : (i j : ℕ) → suc i + j ≡ i + suc j
add-suc_shift i j = omega arith

-- The instruction names the tensor among its inputs or its outputs.
abbrev pub Mentions : ℕ → Instruction → Type 0
Mentions tid inst = (elem tid inst.outputs || elem tid inst.inputs) ≡ true

module _ (tid : ℕ) where
  module _ (index : ℕ) where
    visit_outputs-Covers :
        (i : ℕ) (times : Times) (tids : List ℕ)
        → Covers i (seen tid times)
        → Covers i (seen tid (visit_outputs index times tids))
    unfolding visit_outputs
    visit_outputs-Covers i times [] c = c
    visit_outputs-Covers i times (other ∷ tids) c =
        visit_outputs-Covers i (visit_output index times other) tids
          (visit_output-Covers tid index other times i c)

    visit_outputs-Early :
        (n : ℕ) (times : Times) (tids : List ℕ)
        → index ≤ n
        → Early tid n times
        → Early tid n (visit_outputs index times tids)
    unfolding visit_outputs
    visit_outputs-Early n times [] le e = e
    visit_outputs-Early n times (other ∷ tids) le e =
        visit_outputs-Early n (visit_output index times other) tids le
          (visit_output-Early tid index other times n le e)

    visit_outputs-Covers_self :
        (times : Times) (tids : List ℕ)
        → elem tid tids ≡ true
        → Early tid index times
        → Covers index (seen tid (visit_outputs index times tids))
    unfolding visit_outputs
    visit_outputs-Covers_self times [] h e = cc
    visit_outputs-Covers_self times (other ∷ tids) h e = elim (Bool-cases (other == tid)) [
      | inl same ↦ visit_outputs-Covers index (visit_output index times other) tids (
          subst (λ x. Covers index (seen tid (visit_output index times x)))
            (ground (arith, (==_iff other tid).0 same))
            (visit_output-Covers_self tid index times e))
      | inr differs ↦
          visit_outputs-Covers_self (visit_output index times other) tids (ground arith)
            (visit_output-Early tid index other times index (le_refl index) e)
    ]

    module _ (tensors : Dict TensorMeta) where
      visit_inputs-Covers :
          (i : ℕ) (times : Times) (tids : List ℕ)
          → Covers i (seen tid times)
          → Covers i (seen tid (visit_inputs tensors index times tids))
      unfolding visit_inputs
      visit_inputs-Covers i times [] c = c
      visit_inputs-Covers i times (other ∷ tids) c =
          visit_inputs-Covers i (visit_input tensors index times other) tids
            (visit_input-Covers tid index other times tensors i c)

      visit_inputs-Early :
          (n : ℕ) (times : Times) (tids : List ℕ)
          → Early tid n times
          → Early tid n (visit_inputs tensors index times tids)
      unfolding visit_inputs
      visit_inputs-Early n times [] e = e
      visit_inputs-Early n times (other ∷ tids) e =
          visit_inputs-Early n (visit_input tensors index times other) tids
            (visit_input-Early tid index other times tensors n e)

      visit_inputs-Covers_self :
          (times : Times) (tids : List ℕ)
          → contains tid tensors ≡ true
          → elem tid tids ≡ true
          → Early tid index times
          → Covers index (seen tid (visit_inputs tensors index times tids))
      unfolding visit_inputs
      visit_inputs-Covers_self times [] known h e = cc
      visit_inputs-Covers_self times (other ∷ tids) known h e = elim (Bool-cases (other == tid)) [
        | inl same ↦ visit_inputs-Covers index (visit_input tensors index times other) tids (
            subst (λ x. Covers index (seen tid (visit_input tensors index times x)))
              (ground (arith, (==_iff other tid).0 same))
              (visit_input-Covers_self tid index times tensors known e))
        | inr differs ↦
            visit_inputs-Covers_self (visit_input tensors index times other) tids known
              (ground arith) (visit_input-Early tid index other times tensors index e)
      ]

  module _ (tensors : Dict TensorMeta) where
    visit_instruction-Covers :
        (index i : ℕ) (times : Times) (inst : Instruction)
        → Covers i (seen tid times)
        → Covers i (seen tid (visit_instruction tensors index times inst))
    unfolding visit_instruction
    visit_instruction-Covers index i times inst c =
        visit_inputs-Covers index tensors i _ inst.inputs
          (visit_outputs-Covers index i times inst.outputs c)

    visit_instruction-Early :
        (index n : ℕ) (times : Times) (inst : Instruction)
        → index ≤ n
        → Early tid n times
        → Early tid n (visit_instruction tensors index times inst)
    unfolding visit_instruction
    visit_instruction-Early index n times inst le e =
        visit_inputs-Early index tensors n _ inst.inputs
          (visit_outputs-Early index n times inst.outputs le e)

    pub visit_from-Early :
        (index n : ℕ) (times : Times) (insts : List Instruction)
        → index + length insts ≤ suc n
        → Early tid n times
        → Early tid n (visit_from tensors index times insts)
    unfolding visit_from
    visit_from-Early index n times [] le e = e
    visit_from-Early index n times (inst ∷ insts) le e =
        visit_from-Early (suc index) n (visit_instruction tensors index times inst) insts
          (omega arith) (visit_instruction-Early index n times inst (omega arith) e)

    visit_instruction-Covers_self :
        (index : ℕ) (times : Times) (inst : Instruction)
        → contains tid tensors ≡ true
        → Mentions tid inst
        → Early tid index times
        → Covers index (seen tid (visit_instruction tensors index times inst))
    unfolding visit_instruction
    visit_instruction-Covers_self index times inst known h e =
        elim (Bool-cases (elem tid inst.outputs)) [
          | inl out ↦
              visit_inputs-Covers index tensors index _ inst.inputs
                (visit_outputs-Covers_self index times inst.outputs out e)
          | inr other ↦
              visit_inputs-Covers_self index tensors _ inst.inputs known (ground arith)
                (visit_outputs-Early index index times inst.outputs (le_refl index) e)
        ]

    visit_from-Covers :
        (index i : ℕ) (times : Times) (insts : List Instruction)
        → Covers i (seen tid times)
        → Covers i (seen tid (visit_from tensors index times insts))
    unfolding visit_from
    visit_from-Covers index i times [] c = c
    visit_from-Covers index i times (inst ∷ insts) c =
        visit_from-Covers (suc index) i _ insts (visit_instruction-Covers index i times inst c)

    pub visit_from-Covers_use :
        (index j : ℕ) (times : Times) (insts : List Instruction) {inst : Instruction}
        → contains tid tensors ≡ true
        → get_elem? insts j ≡ some inst
        → Mentions tid inst
        → Early tid index times
        → Covers (index + j) (seen tid (visit_from tensors index times insts))
    unfolding visit_from
    visit_from-Covers_use index j times [] known at h e = cc
    visit_from-Covers_use index zero times (first ∷ insts) {inst} known at h e =
        let same : inst ≡ first = cc in
        rw add-zero (
          visit_from-Covers (suc index) index _ insts
            (visit_instruction-Covers_self index times first known (subst (Mentions tid) same h) e))
    visit_from-Covers_use index (suc j) times (first ∷ insts) known at h e =
        rw (← add-suc_shift index j) (
          visit_from-Covers_use (suc index) j _ insts known at h
            (Early-suc index _ (visit_instruction-Early index index times first (le_refl index) e)))

  pub keep_outputs-Covers :
      (end i : ℕ) (times : Times) (tids : List ℕ)
      → Covers i (seen tid times)
      → Covers i (seen tid (keep_outputs end times tids))
  unfolding keep_outputs
  keep_outputs-Covers end i times [] c = c
  keep_outputs-Covers end i times (other ∷ tids) c =
      keep_outputs-Covers end i (keep_output end times other) tids
        (keep_output-Covers tid end other times i c)

  pub keep_outputs-Covers_self :
      (end : ℕ) (times : Times) (tids : List ℕ)
      → elem tid tids ≡ true
      → Early tid end times
      → Covers end (seen tid (keep_outputs end times tids))
  unfolding keep_outputs
  keep_outputs-Covers_self end times [] h e = cc
  keep_outputs-Covers_self end times (other ∷ tids) h e = elim (Bool-cases (other == tid)) [
    | inl same ↦ keep_outputs-Covers end end (keep_output end times other) tids (
        subst (λ x. Covers end (seen tid (keep_output end times x)))
          (ground (arith, (==_iff other tid).0 same)) (keep_output-Covers_self tid end times e))
    | inr differs ↦
        keep_outputs-Covers_self end (keep_output end times other) tids (ground arith)
          (keep_output-Early tid end other times end e)
  ]

  pub keep_parameters-Covers :
      (end i : ℕ) (times : Times) (tids : List ℕ)
      → Covers i (seen tid times)
      → Covers i (seen tid (keep_parameters end times tids))
  unfolding keep_parameters
  keep_parameters-Covers end i times [] c = c
  keep_parameters-Covers end i times (other ∷ tids) c =
      keep_parameters-Covers end i (keep_parameter end times other) tids
        (keep_parameter-Covers tid end other times i c)
