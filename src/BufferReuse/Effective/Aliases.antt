-- ===== src/BufferReuse/Effective/Aliases.antt =====
-- The tensors of one alias group get one interval, which covers the uses of them all.
use tensor_torrent.Base.{
  ℕ, ◌≡◌, ◌≢◌, sym, subst, inl, inr, true, List, [], ◌∷◌, Option, none, some, arith, elem,
  elem-append, Bool-cases, ◌==◌, ==_iff, if◌then◌else◌,
}
use tensor_torrent.Base.Dict.{Dict, get, contains}
use tensor_torrent.Ir.{Group, TensorMeta, HeterogeneousGraph}
use tensor_torrent.Ir.Alias.{AliasAnalysis, group_eq}
use tensor_torrent.Ir.Alias.Groups.{group_eq_refl}
use tensor_torrent.Ir.Liveness.{Interval, LivenessAnalysis}
use tensor_torrent.Ir.Liveness.Coverage.{Covers}
use tensor_torrent.BufferReuse.Effective.{
  add_member, members_of, merge_members, merge_groups, effective_intervals,
}
use tensor_torrent.BufferReuse.Effective.Widening.{
  interval_at, merge_members-Covers, merge_members-Covers_member, merge_groups-Covers,
}

-- The members of the first entry for the group.
members_in : Group → List (Group × List ℕ) → List ℕ
members_in group [] = []
members_in group ((g, members) ∷ groups) =
    if group_eq g group then members else members_in group groups

module _ (tid : ℕ) (group : Group) where
  elem-add_member :
      (groups : List (Group × List ℕ))
      → elem tid (members_in group (add_member group tid groups)) ≡ true
  unfolding members_in add_member
  elem-add_member [] = ground (arith, group_eq_refl group)
  elem-add_member ((g, members) ∷ groups) =
      ground (arith, elem-append tid members (tid ∷ []), elem-add_member groups)

  elem-add_member_keep :
      (g : Group) (other : ℕ) (groups : List (Group × List ℕ))
      → elem tid (members_in group groups) ≡ true
      → elem tid (members_in group (add_member g other groups)) ≡ true
  unfolding members_in add_member
  elem-add_member_keep g other [] h = cc
  elem-add_member_keep g other ((g', members) ∷ groups) h =
      ground (arith, elem-append tid members (other ∷ []), elem-add_member_keep g other groups)

  elem-members_of_keep :
      (tensors : Dict TensorMeta) (rest : Dict Group) (groups : List (Group × List ℕ))
      → elem tid (members_in group groups) ≡ true
      → elem tid (members_in group (members_of tensors rest groups)) ≡ true
  unfolding members_of
  elem-members_of_keep tensors [] groups h = h
  elem-members_of_keep tensors ((other, g) ∷ rest) groups h =
      elem-members_of_keep tensors rest
        (if contains other tensors then add_member g other groups else groups)
        (ground (arith, elem-add_member_keep g other groups))

  -- A tensor of the graph is a member of its group.
  elem-members_of :
      (tensors : Dict TensorMeta) (rest : Dict Group) (groups : List (Group × List ℕ))
      → contains tid tensors ≡ true
      → get tid rest ≡ some group
      → elem tid (members_in group (members_of tensors rest groups)) ≡ true
  unfolding members_of get
  elem-members_of tensors [] groups known h = cc
  elem-members_of tensors ((other, g) ∷ rest) groups known h = elim (Bool-cases (other == tid)) [
    | inl same ↦ elem-members_of_keep tensors rest _ (ground (arith, elem-add_member groups))
    | inr differs ↦ elem-members_of tensors rest _ known (ground arith)
  ]

merge_groups-Covers_member :
    (i a b : ℕ) (group : Group) (groups : List (Group × List ℕ)) (intervals : Dict Interval)
    → a ≢ b
    → elem a (members_in group groups) ≡ true
    → elem b (members_in group groups) ≡ true
    → Covers i (interval_at b intervals)
    → Covers i (interval_at a (merge_groups intervals groups))
unfolding merge_groups members_in
merge_groups-Covers_member i a b group [] intervals ne in_a in_b c = cc
merge_groups-Covers_member i a b group ((g, members) ∷ groups) intervals ne in_a in_b c =
    elim (Bool-cases (group_eq g group)) [
      | inl same ↦
          merge_groups-Covers i a (merge_members intervals members) groups
            (merge_members-Covers_member i a b members intervals ne (ground arith) (ground arith) c)
      | inr differs ↦
          merge_groups-Covers_member i a b group groups (merge_members intervals members) ne
            (ground arith) (ground arith) (merge_members-Covers i b members intervals c)
    ]

pub effective_intervals-Covers :
    (graph : HeterogeneousGraph) (liveness : LivenessAnalysis) (alias : Option AliasAnalysis)
    (i tid : ℕ)
    → Covers i (interval_at tid liveness.intervals)
    → Covers i (interval_at tid (effective_intervals graph liveness alias))
unfolding effective_intervals
effective_intervals-Covers graph liveness none i tid c = c
effective_intervals-Covers graph liveness (some alias) i tid c =
    merge_groups-Covers i tid liveness.intervals (members_of graph.tensors alias.groups []) c

-- What the derived interval of a tensor covers, the effective interval of each tensor of its alias
-- group covers.
pub effective_intervals-Covers_alias :
    (graph : HeterogeneousGraph) (liveness : LivenessAnalysis) (alias : AliasAnalysis) (i a b : ℕ)
    (group : Group)
    → contains a graph.tensors ≡ true
    → contains b graph.tensors ≡ true
    → get a alias.groups ≡ some group
    → get b alias.groups ≡ some group
    → Covers i (interval_at b liveness.intervals)
    → Covers i (interval_at a (effective_intervals graph liveness (some alias)))
unfolding effective_intervals
effective_intervals-Covers_alias graph liveness alias i a b group has_a has_b in_a in_b c =
    elim (Bool-cases (a == b)) [
      | inl same ↦
          merge_groups-Covers i a liveness.intervals (members_of graph.tensors alias.groups [])
            (subst (λ x. Covers i (interval_at x liveness.intervals)) (sym ((==_iff a b).0 same)) c)
      | inr differs ↦
          merge_groups-Covers_member i a b group (members_of graph.tensors alias.groups [])
            liveness.intervals (ground arith)
            (elem-members_of a group graph.tensors alias.groups [] has_a in_a)
            (elem-members_of b group graph.tensors alias.groups [] has_b in_b) c
    ]
