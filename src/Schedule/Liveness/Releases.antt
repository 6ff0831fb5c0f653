-- ===== src/Schedule/Liveness/Releases.antt =====
-- `apply_schedule_liveness` of python/tensortorrent/ir/liveness.py: what each release waits for.
use tensor_torrent.Base.{
  ℕ, ◌≡◌, refl, ◌⊎◌, inl, inr, true, false, List, [], ◌∷◌, ◌++◌, map, ◌==◌, ==_iff, if◌then◌else◌,
  Bool-cases, elem, elem-append, All, All-mono, Pairwise, arith, sym, ◌∙◌,
}
use tensor_torrent.Base.Dict.{Dict, get, set, get-set}
use tensor_torrent.Schedule.{PlanInstruction, ExecutableSchedule, is_release}
use tensor_torrent.Schedule.Liveness.{
  by_name, or_nil, consumers_from, fromkeys, final_consumers_of, final_of, derived_of,
  release_dependencies_of, run_schedule_liveness, with_releases, apply_schedule_liveness,
}
use tensor_torrent.Schedule.Liveness.Ancestors.{Before}
use tensor_torrent.Schedule.Liveness.Frontier.{Acyclic, elem-fromkeys, final_of-covers}
use tensor_torrent.Schedule.Liveness.Consumers.{
  listed, consumes, listed-consumers_from, final_consumers_of-listed,
}

-- The names of the instructions differ.
abbrev pub DistinctNames : List PlanInstruction → Type 0
DistinctNames = Pairwise (λ a b. (a.name == b.name) ≡ false)

elem-derived_of :
    (tensor k : ℕ) (final : Dict (List ℕ)) (tensors : List ℕ)
    → elem tensor tensors ≡ true
    → elem k (or_nil (get tensor final)) ≡ true
    → elem k (derived_of final tensors) ≡ true
unfolding derived_of
elem-derived_of tensor k final [] h e = cc
elem-derived_of tensor k final (t ∷ tensors) h e = elim (Bool-cases (t == tensor)) [
  | inl same ↦
      let here = (==_iff t tensor).0 same in
      rw here
        (ground (arith, elem-append k (or_nil (get tensor final)) (derived_of final tensors), e))
  | inr other ↦ ground (
    arith,
    elem-append k (or_nil (get t final)) (derived_of final tensors),
    elem-derived_of tensor k final tensors,
  )
]

release_dependencies_of_kept :
    (final d : Dict (List ℕ)) (k : ℕ) (insts : List PlanInstruction)
    → All (λ inst. (k == inst.name) ≡ false) insts
    → get k (release_dependencies_of final d insts) ≡ get k d
unfolding release_dependencies_of
release_dependencies_of_kept final d k [] h = refl
release_dependencies_of_kept final d k (inst ∷ insts) h =
    let deps = fromkeys [] (derived_of final inst.inputs) in
    elim (Bool-cases (is_release inst.opcode)) [
      | inl frees ↦ rw frees (
          ground (
            arith,
            release_dependencies_of_kept final (set inst.name deps d) k insts h.1,
            get-set inst.name k deps d,
            h.0,
          ))
      | inr other ↦ rw other (release_dependencies_of_kept final d k insts h.1)
    ]

-- What is kept for each release.
release_dependencies_of-each :
    (final d : Dict (List ℕ)) (insts : List PlanInstruction)
    → DistinctNames insts
    → All
        (λ inst.
          is_release inst.opcode ≡ true
          → or_nil (get inst.name (release_dependencies_of final d insts))
            ≡ fromkeys [] (derived_of final inst.inputs))
        insts
unfolding release_dependencies_of
release_dependencies_of-each final d [] distinct = tt
release_dependencies_of-each final d (inst ∷ insts) distinct =
    let deps = fromkeys [] (derived_of final inst.inputs) in
    (
      λ frees. rw frees (
          rw (release_dependencies_of_kept final (set inst.name deps d) inst.name insts distinct.0)
            (ground (arith, get-set inst.name inst.name deps d))),
      release_dependencies_of-each final
          (if is_release inst.opcode then set inst.name deps d else d) insts distinct.1,
    )

-- A consumer is waited for: it is a dependency, or comes before one.
pub Waits : List PlanInstruction → List ℕ → ℕ → Type 0
Waits insts deps name =
    (elem name deps ≡ true) ⊎ ((m : ℕ) × (elem m deps ≡ true) × Before (by_name [] insts) name m)

module _ (insts : List PlanInstruction) where
  abbrev final : Dict (List ℕ)
  unfolding final_consumers_of by_name consumers_from
  final = final_consumers_of (by_name [] insts) (consumers_from [] insts)

  -- What a release derives covers the consumers of its tensors.
  derived_of-Waits :
      Acyclic (by_name [] insts)
      → (freed : PlanInstruction) (tensor : ℕ) → elem tensor freed.inputs ≡ true
      → (inst : PlanInstruction) → listed tensor inst.name (consumers_from [] insts) ≡ true
      → Waits insts (fromkeys [] (derived_of final freed.inputs)) inst.name
  unfolding Waits get final
  derived_of-Waits acyclic freed tensor reads inst h =
      let names = by_name [] insts in
      let frontier = final_consumers_of-listed names tensor (consumers_from [] insts) in
      let derived : (m : ℕ)
          → elem m (final_of names (or_nil (get tensor (consumers_from [] insts)))) ≡ true
          → elem m (fromkeys [] (derived_of final freed.inputs)) ≡ true =
        λ m e. ground (
          arith,
          elem-fromkeys m [] (derived_of final freed.inputs),
          elem-derived_of tensor m final freed.inputs reads (rw frontier e),
        ) in
      elim (final_of-covers names acyclic inst.name (or_nil (get tensor (consumers_from [] insts)))
        h) [
          | inl last ↦ inl (derived inst.name last)
          | inr (m, last, before) ↦ inr (m, derived m last, before)
        ]

pub All-map :
    (P : PlanInstruction → Type 0) (f : PlanInstruction → PlanInstruction)
    (xs : List PlanInstruction)
    → All (λ x. P (f x)) xs
    → All P (map f xs)
All-map P f [] h = tt
All-map P f (x ∷ xs) h = (h.0, All-map P f xs h.1)

with_releases-Waits :
    (insts : List PlanInstruction) (freed : PlanInstruction) (name : ℕ) (d : Dict (List ℕ))
    → is_release freed.opcode ≡ true
    → Waits insts (or_nil (get freed.name d)) name
    → Waits insts (with_releases d freed).depends_on name
unfolding with_releases Waits
with_releases-Waits insts freed name d frees h =
    let derived = or_nil (get freed.name d) in
    let kept : (m : ℕ)
        → elem m derived ≡ true
        → elem m (fromkeys [] (freed.depends_on ++ derived)) ≡ true =
      λ m e. ground (
        arith,
        elem-fromkeys m [] (freed.depends_on ++ derived),
        elem-append m freed.depends_on derived,
        e,
      ) in
    rw frees (elim h [
      | inl last ↦ inl (kept name last)
      | inr (m, last, before) ↦ inr (m, kept m last, before)
    ])

-- The fields that the statement asks of are kept.
with_releases-frees :
    (d : Dict (List ℕ)) (inst : PlanInstruction) (tensor : ℕ)
    → (is_release (with_releases d inst).opcode ≡ is_release inst.opcode)
      × (elem tensor (with_releases d inst).inputs ≡ elem tensor inst.inputs)
unfolding with_releases
with_releases-frees d inst tensor = elim (Bool-cases (is_release inst.opcode)) [
  | inl frees ↦ rw frees (frees, refl)
  | inr other ↦ rw other (other, refl)
]

All-each :
    (P : ℕ → PlanInstruction → Type 0) (xs : List PlanInstruction)
    → ((t : ℕ) → All (P t) xs)
    → All (λ x. (t : ℕ) → P t x) xs
All-each P [] h = tt
All-each P (x ∷ xs) h = (λ t. (h t).0, All-each P xs (λ t. (h t).1))

-- In a schedule whose instructions have different names, and none waits for itself, each release that
-- comes out of `apply_schedule_liveness` waits for each instruction that reads a tensor it frees,
-- other than to free it: the reader is a dependency of the release, or comes before one.
pub apply_schedule_liveness-Waits :
    (schedule : ExecutableSchedule)
    → Acyclic (by_name [] schedule.instructions)
    → DistinctNames schedule.instructions
    → All
        (λ freed.
          All
            (λ inst.
              (tensor : ℕ)
              → is_release freed.opcode ≡ true
              → elem tensor freed.inputs ≡ true
              → consumes tensor inst ≡ true
              → Waits schedule.instructions freed.depends_on inst.name)
            schedule.instructions)
        (apply_schedule_liveness schedule).instructions
unfolding apply_schedule_liveness run_schedule_liveness final
apply_schedule_liveness-Waits schedule acyclic distinct =
    let insts = schedule.instructions in
    let d = release_dependencies_of (final insts) [] insts in
    let Freed : PlanInstruction → Type 0 = λ freed.
      All
        (λ inst.
          (tensor : ℕ)
          → is_release freed.opcode ≡ true
          → elem tensor freed.inputs ≡ true
          → consumes tensor inst ≡ true
          → Waits insts freed.depends_on inst.name)
        insts in
    All-map Freed (with_releases d) insts (
      All-mono
        (λ freed kept.
          All-mono
            (λ inst consumed tensor frees reads consumes_it.
              let fields = with_releases-frees d freed tensor in
              let released = sym fields.0 ∙ frees in
              with_releases-Waits insts freed inst.name d released (
                rw (kept released) (
                  derived_of-Waits insts acyclic freed tensor (sym fields.1 ∙ reads) inst
                    (consumed tensor consumes_it))))
            insts
            (All-each
              (λ tensor inst.
                consumes tensor inst ≡ true
                → listed tensor inst.name (consumers_from [] insts) ≡ true)
              insts (λ tensor. listed-consumers_from tensor insts [])))
        insts (release_dependencies_of-each (final insts) [] insts distinct))
