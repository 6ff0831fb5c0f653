-- ===== src/Schedule/Liveness/Consumers.antt =====
-- What the dict of consumers of `run_schedule_liveness` in python/tensortorrent/ir/liveness.py lists.
use tensor_torrent.Base.{
  ℕ, ◌≡◌, refl, inl, inr, Bool, true, false, not, ◌&&◌, ◌||◌, List, [], ◌∷◌, ◌++◌, ◌==◌, ==_iff,
  if◌then◌else◌, Bool-cases, elem, elem-append, All, arith,
}
use tensor_torrent.Base.Dict.{Dict, get, get-set}
use tensor_torrent.Schedule.{PlanInstruction, is_release}
use tensor_torrent.Schedule.Liveness.{
  or_nil, append_to, append_each, consumers_from, fromkeys, maximal, final_of, final_consumers_of,
}

-- The dict lists a name for a tensor.
abbrev pub listed : ℕ → ℕ → Dict (List ℕ) → Bool
listed tensor name d = elem name (or_nil (get tensor d))

listed-append_to :
    (tensor name k x : ℕ) (d : Dict (List ℕ))
    → listed tensor name (append_to k x d) ≡ (k == tensor && x == name || listed tensor name d)
unfolding append_to
listed-append_to tensor name k x d = elim (Bool-cases (k == tensor)) [
  | inl same ↦
      let here = (==_iff k tensor).0 same in
      rw here (
        ground (
          arith,
          get-set tensor tensor (or_nil (get tensor d) ++ x ∷ []) d,
          elem-append name (or_nil (get tensor d)) (x ∷ []),
        ))
  | inr other ↦ ground (arith, get-set k tensor (or_nil (get k d) ++ x ∷ []) d, other)
]

listed-append_each :
    (tensor name x : ℕ) (tensors : List ℕ) (d : Dict (List ℕ))
    → listed tensor name (append_each tensors x d)
      ≡ (elem tensor tensors && x == name || listed tensor name d)
unfolding append_each
listed-append_each tensor name x [] d = refl
listed-append_each tensor name x (k ∷ tensors) d = ground (
  arith,
  listed-append_each tensor name x tensors (append_to k x d),
  listed-append_to tensor name k x d,
)

-- The instruction reads the tensor, other than to release it.
abbrev pub consumes : ℕ → PlanInstruction → Bool
consumes tensor inst = not (is_release inst.opcode) && elem tensor inst.inputs

listed-consumers_from_kept :
    (tensor name : ℕ) (insts : List PlanInstruction) (d : Dict (List ℕ))
    → listed tensor name d ≡ true
    → listed tensor name (consumers_from d insts) ≡ true
unfolding consumers_from
listed-consumers_from_kept tensor name [] d h = h
listed-consumers_from_kept tensor name (inst ∷ insts) d h =
    elim (Bool-cases (is_release inst.opcode)) [
      | inl frees ↦ rw frees (listed-consumers_from_kept tensor name insts d h)
      | inr reads ↦ rw reads (
          listed-consumers_from_kept tensor name insts (append_each inst.inputs inst.name d)
            (ground (arith, listed-append_each tensor name inst.name inst.inputs d, h)))
    ]

pub listed-consumers_from :
    (tensor : ℕ) (insts : List PlanInstruction) (d : Dict (List ℕ))
    → All
        (λ inst.
          consumes tensor inst ≡ true → listed tensor inst.name (consumers_from d insts) ≡ true)
        insts
unfolding consumers_from
listed-consumers_from tensor [] d = tt
listed-consumers_from tensor (inst ∷ insts) d =
    let d' = append_each inst.inputs inst.name d in
    (
      λ h.
          let reads : is_release inst.opcode ≡ false = ground arith in
          rw reads (
            listed-consumers_from_kept tensor inst.name insts d'
              (ground (arith, listed-append_each tensor inst.name inst.name inst.inputs d, h))),
      listed-consumers_from tensor insts (if is_release inst.opcode then d else d'),
    )

pub final_consumers_of-listed :
    (names : Dict (List ℕ)) (tensor : ℕ) (d : Dict (List ℕ))
    → or_nil (get tensor (final_consumers_of names d)) ≡ final_of names (or_nil (get tensor d))
unfolding final_consumers_of final_of fromkeys maximal get
final_consumers_of-listed names tensor [] = refl
final_consumers_of-listed names tensor ((k, consumers) ∷ d) = elim (Bool-cases (k == tensor)) [
  | inl same ↦ rw same
  | inr other ↦ rw other (final_consumers_of-listed names tensor d)
]
