-- ===== src/BufferReuse/Plan/Disjoint.antt =====
-- The tensors of one slot have disjoint intervals.
use tensor_torrent.Base.{
  ℕ, suc, ◌≤◌, ◌≡◌, ◌≢◌, ◌∙◌, subst, inl, inr, true, false, List, [], ◌∷◌, Option, some, arith,
  elem, All, Pairwise, Bool-cases, ◌==◌, ==_iff,
}
use tensor_torrent.Base.Dict.{Dict, get}
use tensor_torrent.Ir.Liveness.{Interval, or_unknown}
use tensor_torrent.BufferReuse.Plan.{
  BufferSlot, overlap_in, no_layout, candidates, layout_of, plan_buffer_reuse,
}
use tensor_torrent.Ir.{HeterogeneousGraph}
use tensor_torrent.Ir.Liveness.{LivenessAnalysis}
use tensor_torrent.Ir.Alias.{AliasAnalysis}
use tensor_torrent.BufferReuse.Effective.{effective_intervals}
use tensor_torrent.BufferReuse.Plan.Slots.{
  ranges_overlap_comm, Apart, SlotsApart, Numbered, InSlot, IsValid, assign_all-IsValid,
  no_layout-IsValid,
}

module _ (intervals : Dict Interval) where
  elem-Apart :
      (a b : ℕ) (tids : List ℕ)
      → All ((Apart intervals) a) tids
      → elem b tids ≡ true
      → (Apart intervals) a b
  elem-Apart a b [] h m = cc
  elem-Apart a b (tid ∷ tids) h m = elim (Bool-cases (tid == b)) [
    | inl same ↦ subst ((Apart intervals) a) ((==_iff tid b).0 same) h.0
    | inr differs ↦ elem-Apart a b tids h.1 (ground arith)
  ]

  Apart-comm : (a b : ℕ) → (Apart intervals) a b → (Apart intervals) b a
  Apart-comm a b h =
      ranges_overlap_comm (or_unknown (get b intervals)) (or_unknown (get a intervals)) ∙ h

  Pairwise-Apart :
      (a b : ℕ) (tids : List ℕ)
      → a ≢ b
      → Pairwise (Apart intervals) tids
      → elem a tids ≡ true
      → elem b tids ≡ true
      → (Apart intervals) a b
  Pairwise-Apart a b [] ne p in_a in_b = cc
  Pairwise-Apart a b (tid ∷ tids) ne p in_a in_b = elim (Bool-cases (tid == a)) [
    | inl is_a ↦
        subst (λ x. (Apart intervals) x b) ((==_iff tid a).0 is_a)
          (elem-Apart tid b tids p.0 (ground arith))
    | inr not_a ↦ elim (Bool-cases (tid == b)) [
      | inl is_b ↦
          subst ((Apart intervals) a) ((==_iff tid b).0 is_b)
            (Apart-comm tid a (elem-Apart tid a tids p.0 (ground arith)))
      | inr not_b ↦ Pairwise-Apart a b tids ne p.1 (ground arith) (ground arith)
    ]
  ]

  InSlot-le :
      (n id tid : ℕ) (slots : List BufferSlot)
      → (Numbered intervals) n slots
      → (InSlot intervals) id tid slots
      → n ≤ id
  InSlot-le n id tid [] v h = elim h [ ]
  InSlot-le n id tid (slot ∷ slots) v (inl h) = omega arith
  InSlot-le n id tid (slot ∷ slots) v (inr h) = omega (arith, InSlot-le (suc n) id tid slots v.1 h)

  InSlot-Apart :
      (n id a b : ℕ) (slots : List BufferSlot)
      → a ≢ b
      → (Numbered intervals) n slots
      → (SlotsApart intervals) slots
      → (InSlot intervals) id a slots
      → (InSlot intervals) id b slots
      → (Apart intervals) a b
  InSlot-Apart n id a b [] ne v p in_a in_b = elim in_a [ ]
  InSlot-Apart n id a b (slot ∷ slots) ne v p (inl in_a) (inl in_b) =
      Pairwise-Apart a b slot.assigned ne p.0 in_a.1 in_b.1
  InSlot-Apart n id a b (slot ∷ slots) ne v p (inl in_a) (inr in_b) =
      absurd (omega (arith, InSlot-le (suc n) id b slots v.1 in_b))
  InSlot-Apart n id a b (slot ∷ slots) ne v p (inr in_a) (inl in_b) =
      absurd (omega (arith, InSlot-le (suc n) id a slots v.1 in_a))
  InSlot-Apart n id a b (slot ∷ slots) ne v p (inr in_a) (inr in_b) =
      InSlot-Apart (suc n) id a b slots ne v.1 p.1 in_a in_b

-- Two tensors that the plan assigns to one slot have effective intervals that do not overlap.
pub plan_buffer_reuse_apart :
    (graph : HeterogeneousGraph) (liveness : LivenessAnalysis) (alias : Option AliasAnalysis)
    (a b id : ℕ)
    → a ≢ b
    → get a (plan_buffer_reuse graph liveness alias).assignment ≡ some id
    → get b (plan_buffer_reuse graph liveness alias).assignment ≡ some id
    → overlap_in (effective_intervals graph liveness alias) a b ≡ false
unfolding plan_buffer_reuse layout_of
plan_buffer_reuse_apart graph liveness alias a b id ne in_a in_b =
    InSlot-Apart intervals 0 id a b _ ne v.numbered v.apart (v.recorded a id in_a)
      (v.recorded b id in_b)
  where
    intervals : Dict Interval
    intervals = effective_intervals graph liveness alias

    v : IsValid intervals (layout_of graph liveness alias)
    v = assign_all-IsValid intervals no_layout (candidates graph) (no_layout-IsValid intervals)
