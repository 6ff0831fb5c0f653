-- ===== src/Schedule/Validate/Complete.antt =====
-- What it means that the check of the sizes of python/tensortorrent/runtime/schedule/validate.py
-- reports nothing.
use tensor_torrent.Base.{
  ℕ, ◌≡◌, ◌↔◌, ◌⊎◌, inl, inr, refl, Option-cases, true, List, [], ◌∷◌, ◌++◌, length, none, some,
  arith, ◌==◌, All, Bool-cases, Result, ok, err, ap,
}
use tensor_torrent.Base.Dict.{get}
use tensor_torrent.Schedule.{
  PlanInstruction, ExecutableSchedule, Size, bytes, below_zero, missing, not_a_number,
  not_convertible, infinite,
}
use tensor_torrent.Schedule.Validate.{
  Violation, joined, tensors_of, has_sizes, sizes_of, size_errors, tensor_errors, all_errors,
  instruction_errors, sizes_errors, validate_schedule_tensor_sizes,
}

pub ++-eq-nil : {A : Type 0} (xs ys : List A) → (xs ++ ys ≡ []) ↔ ((xs ≡ []) × (ys ≡ []))
++-eq-nil [] ys = ((λ h. (refl, h)), λ h. h.1)
++-eq-nil (x ∷ xs) ys = ((λ h. cc), λ h. cc (h.0))

joined-eq-nil :
    (first rest : Result (List Violation))
    → (joined first rest ≡ ok []) ↔ ((first ≡ ok []) × (rest ≡ ok []))
unfolding joined
joined-eq-nil (err e) rest = ((λ h. cc), λ h. cc (h.0))
joined-eq-nil (ok xs) (err e) = ((λ h. cc), λ h. cc (h.1))
joined-eq-nil (ok xs) (ok ys) =
    let both = ++-eq-nil xs ys in
    (
      (λ h.
          let nil : xs ++ ys ≡ [] = ground arith in
          let (left, right) = both.0 nil in (ap ok left, ap ok right)),
      λ h.
          let left : xs ≡ [] = ground (arith, h.0) in
          let right : ys ≡ [] = ground (arith, h.1) in ap ok (both.1 (left, right)),
    )

-- The tensor has a size that is not negative, or it is the instruction's only tensor and has none.
abbrev pub Sized : PlanInstruction → ℕ → Type 0
Sized inst tensor =
    ((n : ℕ) × (get tensor (sizes_of inst) ≡ some (bytes n)))
    ⊎ ((get tensor (sizes_of inst) ≡ none) × ((length (tensors_of inst) == 1) ≡ true))

found_errors-eq-nil :
    (inst : PlanInstruction) (tensor : ℕ) (size : Size)
    → get tensor (sizes_of inst) ≡ some size
    → (tensor_errors inst (tensors_of inst) tensor ≡ ok []) ↔ Sized inst tensor
unfolding tensor_errors size_errors
found_errors-eq-nil inst tensor (bytes n) found =
    ((λ h. inl (n, found)), λ h. ground (arith, found))
found_errors-eq-nil inst tensor (below_zero n) found =
    ((λ h. ground (arith, found, h)), λ h. ground (arith, found, h))
found_errors-eq-nil inst tensor missing found =
    ((λ h. ground (arith, found, h)), λ h. ground (arith, found, h))
found_errors-eq-nil inst tensor not_a_number found =
    ((λ h. ground (arith, found, h)), λ h. ground (arith, found, h))
found_errors-eq-nil inst tensor not_convertible found =
    ((λ h. ground (arith, found, h)), λ h. ground (arith, found, h))
found_errors-eq-nil inst tensor infinite found =
    ((λ h. ground (arith, found, h)), λ h. ground (arith, found, h))

tensor_errors-eq-nil :
    (inst : PlanInstruction) (tensor : ℕ)
    → (tensor_errors inst (tensors_of inst) tensor ≡ ok []) ↔ Sized inst tensor
unfolding tensor_errors size_errors
tensor_errors-eq-nil inst tensor = elim (Option-cases (get tensor (sizes_of inst))) [
  | inl absent ↦ ((λ h. inr (absent, ground (arith, absent))), λ h. ground (arith, absent, h))
  | inr (size, found) ↦ found_errors-eq-nil inst tensor size found
]

all_errors-eq-nil :
    (inst : PlanInstruction) (rest : List ℕ)
    → (all_errors inst (tensors_of inst) rest ≡ ok []) ↔ All (Sized inst) rest
unfolding all_errors
all_errors-eq-nil inst [] = ((λ h. tt), λ h. refl)
all_errors-eq-nil inst (t ∷ ts) =
    let both =
      joined-eq-nil (tensor_errors inst (tensors_of inst) t)
        (all_errors inst (tensors_of inst) ts) in
    let one = tensor_errors-eq-nil inst t in
    let others = all_errors-eq-nil inst ts in
    ((λ h. (one.0 (both.0 h).0, others.0 (both.0 h).1)), λ h. both.1 (one.1 h.0, others.1 h.1))

instruction_errors-eq-nil :
    (inst : PlanInstruction)
    → (instruction_errors inst ≡ ok [])
      ↔ (has_sizes inst.opcode ≡ true → All (Sized inst) (tensors_of inst))
unfolding instruction_errors
instruction_errors-eq-nil inst = elim (Bool-cases (has_sizes inst.opcode)) [
  | inl checked ↦
      let all = all_errors-eq-nil inst (tensors_of inst) in
      rw checked ((λ h k. all.0 h), λ h. all.1 (h refl))
  | inr unchecked ↦ rw unchecked ((λ h k. cc), λ h. refl)
]

sizes_errors-eq-nil :
    (insts : List PlanInstruction)
    → (sizes_errors insts ≡ ok [])
      ↔ All (λ i. has_sizes i.opcode ≡ true → All (Sized i) (tensors_of i)) insts
unfolding sizes_errors
sizes_errors-eq-nil [] = ((λ h. tt), λ h. refl)
sizes_errors-eq-nil (i ∷ is) =
    let both = joined-eq-nil (instruction_errors i) (sizes_errors is) in
    let one = instruction_errors-eq-nil i in
    let others = sizes_errors-eq-nil is in
    ((λ h. (one.0 (both.0 h).0, others.0 (both.0 h).1)), λ h. both.1 (one.1 h.0, others.1 h.1))

-- The check returns and reports nothing exactly when, in each instruction that computes, moves, evicts or
-- releases, each tensor has a size that is not negative, or is the only one and has none.
pub validate_schedule_tensor_sizes-eq-nil :
    (schedule : ExecutableSchedule)
    → (validate_schedule_tensor_sizes schedule ≡ ok [])
      ↔ All (λ i. has_sizes i.opcode ≡ true → All (Sized i) (tensors_of i)) schedule.instructions
unfolding validate_schedule_tensor_sizes
validate_schedule_tensor_sizes-eq-nil schedule = sizes_errors-eq-nil schedule.instructions
