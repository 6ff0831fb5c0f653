-- ===== src/Compile/Safety.antt =====
-- From the instructions to the slots: tensors of one slot, and those that share a storage with them,
-- are never in use together. A view whose base has no storage id is in another group than its base
-- (ir/alias.py:44), so it does not count as sharing its storage.
use tensor_torrent.Base.{
  ℕ, ◌<◌, ◌≡◌, ◌≢◌, sym, ◌⊎◌, inl, inr, true, false, none, some, arith, get_elem?, ok, ◌∙◌,
  Bool-cases, ltb, subst, ap, >>=-eq-ok,
}
use tensor_torrent.Base.Dict.{Dict, get, contains}
use tensor_torrent.Ir.{storage, Group, Instruction, HeterogeneousGraph}
use tensor_torrent.Ir.Alias.{run_alias_analysis}
use tensor_torrent.Ir.Alias.Storages.{InStorage, run_alias_analysis-storage}
use tensor_torrent.Ir.Liveness.{Interval, ranges_overlap, run_liveness_analysis}
use tensor_torrent.Ir.Liveness.Graph.{run_liveness_analysis_keeps}
use tensor_torrent.Ir.Liveness.Coverage.{Covers}
use tensor_torrent.Ir.Liveness.Coverage.Uses.{run_liveness_analysis-Covers}
use tensor_torrent.Ir.Liveness.Coverage.Kept.{Mentions}
use tensor_torrent.BufferReuse.Effective.{effective_intervals}
use tensor_torrent.BufferReuse.Effective.Widening.{interval_at}
use tensor_torrent.BufferReuse.Effective.Aliases.{
  effective_intervals-Covers, effective_intervals-Covers_alias,
}
use tensor_torrent.BufferReuse.Plan.Disjoint.{plan_buffer_reuse_apart}
use tensor_torrent.BufferReuse.Plan.{BufferReusePlan, plan_buffer_reuse}
use tensor_torrent.BufferReuse.Plan.Assigned.{contains_of_assigned}
use tensor_torrent.Compile.{Analyses, portable_analyses}

-- The tensors have one storage: by the fields of the graph that the analyses are given, or in that the
-- alias analysis gives them one group.
abbrev pub Shares : HeterogeneousGraph → Analyses → ℕ → ℕ → Type 0
Shares ir p a b =
    ((id : ℕ) × InStorage ir.tensors a id × InStorage ir.tensors b id)
    ⊎ ((group : Group) × (get a p.alias.groups ≡ some group) × (get b p.alias.groups ≡ some group))

-- The instruction at `i` uses the tensor `tid`, or another tensor that shares a storage with it.
pub record Uses (ir : HeterogeneousGraph) (p : Analyses) (tid i : ℕ) : Type 0 where
  pub name : ℕ
  pub inst : Instruction
  pub known : contains name p.ir.tensors ≡ true
  pub shared : (name ≡ tid) ⊎ Shares ir p name tid
  pub at : get_elem? p.ir.instructions i ≡ some inst
  pub mentions : Mentions name inst

-- Intervals that do not overlap lie one before the other.
Covers-ordered :
    (a b : Interval)
    → ranges_overlap a b ≡ false
    → ((i j : ℕ) → Covers i a → Covers j b → i < j) ⊎ ((i j : ℕ) → Covers i a → Covers j b → j < i)
unfolding ranges_overlap
Covers-ordered (some a0, some a1) (some b0, some b1) h = elim (Bool-cases (ltb a1 b0)) [
  | inl before ↦ inl (λ i j c d. ground arith)
  | inr other ↦ inr (λ i j c d. ground arith)
]
Covers-ordered (none, a1) b h = cc
Covers-ordered (some a0, none) b h = cc
Covers-ordered (some a0, some a1) (none, b1) h = cc
Covers-ordered (some a0, some a1) (some b0, none) h = cc

module _ (ir : HeterogeneousGraph) {p : Analyses} (h : portable_analyses ir ≡ ok p) where
  -- The graph that the liveness analysis is given.
  analysed :
      (g : HeterogeneousGraph) × (p.ir ≡ (run_liveness_analysis g).1)
      × (p.liveness ≡ (run_liveness_analysis g).0)
      × (p.reuse ≡ plan_buffer_reuse p.ir p.liveness (some p.alias))
      × (run_alias_analysis ir ≡ ok (p.alias, g))
  unfolding portable_analyses
  analysed =
      let ((alias, g), found, made) = >>=-eq-ok (run_alias_analysis ir) _ h in
      let same : alias ≡ p.alias = ground arith in
      (
        g,
        ground arith,
        ground arith,
        ground arith,
        subst (λ a. run_alias_analysis ir ≡ ok (a, g)) same found,
      )

  -- Tensors with one storage by the graph are in one group.
  group_of_Shares :
      (a b : ℕ)
      → Shares ir p a b
      → (group : Group) × (get a p.alias.groups ≡ some group) × (get b p.alias.groups ≡ some group)
  group_of_Shares a b (inr grouped) = grouped
  group_of_Shares a b (inl (id, in_a, in_b)) =
      let storage_of = run_alias_analysis-storage ir analysed.4 in
      (storage id, storage_of a id in_a, storage_of b id in_b)

  Uses-Covers :
      (tid i : ℕ)
      → contains tid p.ir.tensors ≡ true
      → Uses ir p tid i
      → Covers i (interval_at tid (effective_intervals p.ir p.liveness (some p.alias)))
  Uses-Covers tid i known u =
      let (g, from, live, made, found) = analysed in
      let (named, kept) = run_liveness_analysis_keeps g in
      let covered : Covers i (interval_at u.name p.liveness.intervals) =
        subst (λ l. Covers i (interval_at u.name l.intervals)) (sym live)
          (run_liveness_analysis-Covers g u.name i u.inst
            (sym (named u.name) ∙ (ap (λ q. contains u.name q.tensors) (sym from) ∙ u.known))
            (ap (λ l. get_elem? l i) (sym kept)
              ∙ (ap (λ q. get_elem? q.instructions i) (sym from) ∙ u.at))
            u.mentions) in
      elim u.shared [
        | inl same ↦
            effective_intervals-Covers p.ir p.liveness (some p.alias) i tid
              (subst (λ x. Covers i (interval_at x p.liveness.intervals)) same covered)
        | inr shares ↦
            let (group, own, other) = group_of_Shares u.name tid shares in
            effective_intervals-Covers_alias p.ir p.liveness p.alias i tid u.name group known
              u.known other own covered
      ]

  -- The plan of the analyses puts two tensors in one slot only where every instruction that uses the
  -- one, or a tensor that shares a storage with it, stands before every instruction that uses the
  -- other, or a tensor that shares a storage with that. Tensors share a storage where the graph's
  -- fields say so (both have one storage id, of their own or, for a view, of the tensor that it is a
  -- view of), and where the alias analysis gives them one group. A view of a tensor without a storage
  -- id may share none with it, in this sense.
  pub slot-Uses_ordered :
      (a b id : ℕ)
      → a ≢ b
      → get a p.reuse.assignment ≡ some id
      → get b p.reuse.assignment ≡ some id
      → ((i j : ℕ) → Uses ir p a i → Uses ir p b j → i < j)
        ⊎ ((i j : ℕ) → Uses ir p a i → Uses ir p b j → j < i)
  slot-Uses_ordered a b id ne in_a in_b =
      elim (Covers-ordered (interval_at a intervals) (interval_at b intervals) apart) [
        | inl before ↦
            inl (λ i j u w. before i j (Uses-Covers a i known_a u) (Uses-Covers b j known_b w))
        | inr after ↦
            inr (λ i j u w. after i j (Uses-Covers a i known_a u) (Uses-Covers b j known_b w))
      ]
    where
      plan : BufferReusePlan
      plan = plan_buffer_reuse p.ir p.liveness (some p.alias)

      intervals : Dict Interval
      intervals = effective_intervals p.ir p.liveness (some p.alias)

      planned_a : get a plan.assignment ≡ some id
      planned_a = subst (λ r. get a r.assignment ≡ some id) analysed.3 in_a

      planned_b : get b plan.assignment ≡ some id
      planned_b = subst (λ r. get b r.assignment ≡ some id) analysed.3 in_b

      known_a : contains a p.ir.tensors ≡ true
      known_a = contains_of_assigned p.ir p.liveness (some p.alias) a planned_a

      known_b : contains b p.ir.tensors ≡ true
      known_b = contains_of_assigned p.ir p.liveness (some p.alias) b planned_b

      apart : ranges_overlap (interval_at a intervals) (interval_at b intervals) ≡ false
      apart = plan_buffer_reuse_apart p.ir p.liveness (some p.alias) a b id ne planned_a planned_b
