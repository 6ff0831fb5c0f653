-- ===== src/BufferReuse/Plan/Guard.antt =====
-- The regression guard `assert_reuse_safe` accepts each plan of the planner.
use tensor_torrent.Base.{
  ℕ, ◌≡◌, ◌≢◌, refl, false, List, [], ◌∷◌, ◌++◌, Option, none, some, arith, All, All-append,
  All-zip, All-mono, Pairwise, Pairwise-append_one, ◌==◌, length, ok,
}
use tensor_torrent.Base.Dict.{
  Dict, get, set, Distinct, set-Distinct, Distinct-entries, keys-ne, All-set, All-get,
}
use tensor_torrent.Ir.{HeterogeneousGraph}
use tensor_torrent.Ir.Alias.{AliasAnalysis}
use tensor_torrent.Ir.Liveness.{Interval, LivenessAnalysis, ranges_overlap}
use tensor_torrent.BufferReuse.Effective.{effective_intervals}
use tensor_torrent.BufferReuse.Plan.{
  BufferSlot, Candidate, Layout, overlap_in, settle, place, assign, assign_all, no_layout,
  candidates, layout_of, plan_buffer_reuse, joined, by_slot, check_left, check_slot, check_slots,
  assert_reuse_safe,
}
use tensor_torrent.BufferReuse.Plan.Disjoint.{plan_buffer_reuse_apart}

==_ne : (a b : ℕ) → (a == b) ≡ false → a ≢ b
==_ne a b h = ground arith

module _ (intervals : Dict Interval) where
  abbrev Apart : ℕ → ℕ → Type 0
  Apart a b = overlap_in intervals a b ≡ false

  check_left-ok :
      (left : ℕ) (rest : List ℕ) → All (Apart left) rest → check_left intervals left rest ≡ ok tt
  unfolding check_left ranges_overlap
  check_left-ok left [] h = refl
  check_left-ok left (right ∷ rest) h = ground (arith, check_left-ok left rest h.1)

  check_slot-ok : (tids : List ℕ) → Pairwise Apart tids → check_slot intervals tids ≡ ok tt
  unfolding check_slot
  check_slot-ok [] h = refl
  check_slot-ok (tid ∷ tids) h = rw (check_left-ok tid tids h.0) (check_slot-ok tids h.1)

  check_slots-ok :
      (groups : Dict (List ℕ))
      → All (λ g. Pairwise Apart g.1) groups
      → check_slots intervals groups ≡ ok tt
  unfolding check_slots
  check_slots-ok [] h = refl
  check_slots-ok ((id, tids) ∷ groups) h = rw (check_slot-ok tids h.0) (check_slots-ok groups h.1)

  -- Two entries of an assignment, in this order.
  abbrev SlotApart : ℕ × ℕ → ℕ × ℕ → Type 0
  SlotApart e f = e.1 ≡ f.1 → Apart e.0 f.0

  -- A slot's list so far, with the entries that are still to come.
  abbrev IsGood : Dict ℕ → ℕ × List ℕ → Type 0
  IsGood rest g = Pairwise Apart g.1 × All (λ e. g.0 ≡ e.1 → All (λ x. Apart x e.0) g.1) rest

  IsGood-rest : (e : ℕ × ℕ) (rest : Dict ℕ) (g : ℕ × List ℕ) → IsGood (e ∷ rest) g → IsGood rest g
  IsGood-rest e rest g h = (h.0, h.1.1)

  IsGood-new :
      (tid id : ℕ) (rest : Dict ℕ) → All (SlotApart (tid, id)) rest → IsGood rest (id, tid ∷ [])
  IsGood-new tid id rest apart = ((tt, tt), All-mono (λ e f same. (f same, tt)) rest apart)

  IsGood-joined :
      (tid id : ℕ) (rest : Dict ℕ) (tids : List ℕ)
      → All (SlotApart (tid, id)) rest
      → IsGood ((tid, id) ∷ rest) (id, tids)
      → IsGood rest (id, tids ++ tid ∷ [])
  IsGood-joined tid id rest tids apart h = (
    Pairwise-append_one Apart tids tid h.0 (h.1.0 refl),
    All-zip (λ e f g same. All-append (λ x. Apart x e.0) tids (tid ∷ []) (g same) (f same, tt)) rest
        apart h.1.1,
  )

  by_slot-Pairwise :
      (rest : Dict ℕ) (groups : Dict (List ℕ))
      → Pairwise SlotApart rest
      → All (IsGood rest) groups
      → All (λ g. Pairwise Apart g.1) (by_slot rest groups)
  unfolding by_slot
  by_slot-Pairwise [] groups apart h = All-mono (λ g good. good.0) groups h
  by_slot-Pairwise ((tid, id) ∷ rest) groups apart h =
      by_slot-Pairwise rest (set id (joined (get id groups) tid) groups) apart.1 (
        All-set (IsGood rest) id (joined (get id groups) tid) groups (good (get id groups) refl)
          (All-mono (IsGood-rest (tid, id) rest) groups h))
    where
      good : (found : Option (List ℕ)) → get id groups ≡ found → IsGood rest (id, joined found tid)
      good none e = IsGood-new tid id rest apart.0
      good (some tids) e =
          IsGood-joined tid id rest tids apart.0 (All-get (IsGood ((tid, id) ∷ rest)) id groups h e)

  entries-SlotApart :
      (assignment : Dict ℕ)
      → ((a b id : ℕ) → a ≢ b → get a assignment ≡ some id → get b assignment ≡ some id → Apart a b)
      → (d : Dict ℕ) → Distinct d
      → All (λ e. get e.0 assignment ≡ some e.1) d
      → Pairwise SlotApart d
  entries-SlotApart assignment apart [] dist h = tt
  entries-SlotApart assignment apart ((k, id) ∷ d) dist h = (
    All-zip (λ e ne found same. apart k e.0 id (==_ne k e.0 ne) h.0 (rw same found)) d
        (keys-ne k d dist.0) h.1,
    entries-SlotApart assignment apart d dist.1 h.1,
  )

settle-Distinct :
    (layout : Layout) (c : Candidate) (r : Option (List BufferSlot × ℕ))
    → Distinct layout.assignment
    → Distinct (settle layout c r).assignment
unfolding settle
settle-Distinct layout (tid, size) none h =
    set-Distinct tid (length layout.slots) layout.assignment h
settle-Distinct layout (tid, size) (some (slots', id)) h = set-Distinct tid id layout.assignment h

assign_all-Distinct :
    (intervals : Dict Interval) (layout : Layout) (cs : List Candidate)
    → Distinct layout.assignment
    → Distinct (assign_all intervals layout cs).assignment
unfolding assign_all assign
assign_all-Distinct intervals layout [] h = h
assign_all-Distinct intervals layout (c ∷ cs) h =
    assign_all-Distinct intervals (assign intervals layout c) cs
      (settle-Distinct layout c (place intervals c layout.slots) h)

-- The planner's own plan passes the guard that is given the same graph and the same aliases.
pub assert_reuse_safe-plan_buffer_reuse :
    (graph : HeterogeneousGraph) (liveness : LivenessAnalysis) (alias : Option AliasAnalysis)
    → assert_reuse_safe (plan_buffer_reuse graph liveness alias) liveness (some graph) alias ≡ ok tt
unfolding assert_reuse_safe layout_of plan_buffer_reuse
assert_reuse_safe-plan_buffer_reuse graph liveness alias =
    check_slots-ok intervals (by_slot assignment []) (
      by_slot-Pairwise intervals assignment []
        (entries-SlotApart intervals assignment
          (λ a b id. plan_buffer_reuse_apart graph liveness alias a b id) assignment distinct
          (Distinct-entries assignment distinct))
        tt)
  where
    intervals : Dict Interval
    intervals = effective_intervals graph liveness alias

    assignment : Dict ℕ
    assignment = (plan_buffer_reuse graph liveness alias).assignment

    distinct : Distinct assignment
    distinct = assign_all-Distinct intervals no_layout (candidates graph) tt
