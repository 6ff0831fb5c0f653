-- ===== src/Ir/Liveness/Coverage.antt =====
-- The derived intervals cover the uses. Each lemma watches one tensor `tid` through a step.
pub mod Kept
pub mod Uses
use tensor_torrent.Base.{
  ℕ, zero, suc, ◌+◌, ◌≤◌, max, ◌≡◌, refl, ◌⊎◌, inl, inr, Bool, true, false, ◌||◌, List, [], ◌∷◌,
  Option, none, some, arith, elem, get_elem?, Bool-cases, ◌==◌, if◌then◌else◌,
}
use tensor_torrent.Base.Dict.{Dict, get, set, contains, set_default, get-set, get-set_default}
use tensor_torrent.Ir.{TensorMeta, Instruction, HeterogeneousGraph}
use tensor_torrent.Ir.Liveness.{
  Interval, Times, later, touch, visit_output, visit_outputs, visit_input, visit_inputs,
  visit_instruction, visit_from, keep_output, keep_outputs, keep_parameter, keep_parameters,
  times_of, last_index, intervals_of, run_liveness_analysis,
}

-- Both ends are known, and the index lies between them.
abbrev pub Covers : ℕ → Interval → Type 0
Covers i (some first, some last) = (first ≤ i) × (i ≤ last)
Covers i (none, last) = ⊥
Covers i (some first, none) = ⊥

abbrev AtMost : ℕ → Option ℕ → Type 0
AtMost n none = Unit {0}
AtMost n (some first) = first ≤ n

module _ (tid : ℕ) where
  abbrev seen : Times → Interval
  seen times = (get tid times.produced, get tid times.last_use)

  abbrev Early : ℕ → Times → Type 0
  Early index times = AtMost index (get tid times.produced)

  module _ (index other : ℕ) (times : Times) where
    -- A step about the tensor `other` keeps what is covered.
    visit_output-Covers :
        (i : ℕ) → Covers i (seen times) → Covers i (seen (visit_output index times other))
    unfolding visit_output
    visit_output-Covers i c = ground (
      arith,
      get-set_default other tid index times.produced,
      get-set other tid (later (get other times.last_use) index) times.last_use,
    )

    visit_output-Early :
        (n : ℕ) → index ≤ n → Early n times → Early n (visit_output index times other)
    unfolding visit_output
    visit_output-Early n le e = ground (arith, get-set_default other tid index times.produced)

    visit_input-Covers :
        (tensors : Dict TensorMeta) (i : ℕ)
        → Covers i (seen times)
        → Covers i (seen (visit_input tensors index times other))
    unfolding visit_input
    visit_input-Covers tensors i c = ground (
      arith,
      get-set_default other tid 0 times.produced,
      get-set other tid (later (get other times.last_use) index) times.last_use,
    )

    visit_input-Early :
        (tensors : Dict TensorMeta) (n : ℕ)
        → Early n times
        → Early n (visit_input tensors index times other)
    unfolding visit_input
    visit_input-Early tensors n e = ground (arith, get-set_default other tid 0 times.produced)

    keep_output-Early : (n : ℕ) → Early n times → Early n (keep_output index times other)
    unfolding keep_output
    keep_output-Early n e = ground (arith, get-set_default other tid 0 times.produced)

    keep_output-Covers :
        (i : ℕ) → Covers i (seen times) → Covers i (seen (keep_output index times other))
    unfolding keep_output
    keep_output-Covers i c = ground (
      arith,
      get-set_default other tid 0 times.produced,
      get-set other tid (later (get other times.last_use) index) times.last_use,
    )

    keep_parameter-Covers :
        (i : ℕ) → Covers i (seen times) → Covers i (seen (keep_parameter index times other))
    unfolding keep_parameter
    keep_parameter-Covers i c = ground (
      arith,
      get-set_default other tid 0 times.produced,
      get-set_default other tid index times.last_use,
    )

  module _ (index : ℕ) (times : Times) where
    -- A step about the tensor itself covers its index.
    visit_output-Covers_self :
        Early index times → Covers index (seen (visit_output index times tid))
    unfolding visit_output
    visit_output-Covers_self e = ground (
      arith,
      get-set_default tid tid index times.produced,
      get-set tid tid (later (get tid times.last_use) index) times.last_use,
    )

    visit_input-Covers_self :
        (tensors : Dict TensorMeta)
        → contains tid tensors ≡ true
        → Early index times
        → Covers index (seen (visit_input tensors index times tid))
    unfolding visit_input
    visit_input-Covers_self tensors known e = ground (
      arith,
      get-set_default tid tid 0 times.produced,
      get-set tid tid (later (get tid times.last_use) index) times.last_use,
    )

    keep_output-Covers_self : Early index times → Covers index (seen (keep_output index times tid))
    unfolding keep_output
    keep_output-Covers_self e = ground (
      arith,
      get-set_default tid tid 0 times.produced,
      get-set tid tid (later (get tid times.last_use) index) times.last_use,
    )
