-- ===== src/BufferReuse/Plan/Assigned.antt =====
-- Which tensors get a slot, and what the slots hold.
use tensor_torrent.Base.{
  ℕ, ◌+◌, ◌≤◌, ◌≡◌, refl, sym, ◌∙◌, inl, inr, Bool, true, false, ◌&&◌, ◌||◌, List, [], ◌∷◌, ◌++◌,
  Option, none, some, arith, elem, ◌==◌, length, Bool-cases, ltb,
}
use tensor_torrent.Base.Dict.{Dict, get, contains, get-set, contains_of_get}
use tensor_torrent.Ir.{TensorMeta, HeterogeneousGraph}
use tensor_torrent.Ir.Alias.{AliasAnalysis}
use tensor_torrent.Ir.Liveness.{Interval, LivenessAnalysis}
use tensor_torrent.BufferReuse.Effective.{effective_intervals}
use tensor_torrent.BufferReuse.Plan.{
  BufferSlot, Candidate, Layout, is_candidate, candidates_of, insert_candidate, sort_candidates,
  place, conflicts, behind, settle, assign, assign_all, new_slot, no_layout, sizes_total,
  capacity_total, candidates, layout_of, plan_buffer_reuse,
}

abbrev ids : List Candidate → List ℕ
ids [] = []
ids ((tid, size) ∷ cs) = tid ∷ ids cs

elem-insert_candidate :
    (x : ℕ) (c : Candidate) (cs : List Candidate)
    → elem x (ids (insert_candidate c cs)) ≡ (c.0 == x || elem x (ids cs))
unfolding insert_candidate
elem-insert_candidate x (tid, size) [] = refl
elem-insert_candidate x (tid, size) ((d, d_size) ∷ cs) =
    ground (arith, elem-insert_candidate x (tid, size) cs)

elem-sort_candidates :
    (x : ℕ) (cs : List Candidate) → elem x (ids (sort_candidates cs)) ≡ elem x (ids cs)
unfolding sort_candidates
elem-sort_candidates x [] = refl
elem-sort_candidates x ((tid, size) ∷ cs) =
    ground
      (arith, elem-insert_candidate x (tid, size) (sort_candidates cs), elem-sort_candidates x cs)

contains-settle :
    (x tid size : ℕ) (layout : Layout) (r : Option (List BufferSlot × ℕ))
    → contains x (settle layout (tid, size) r).assignment
      ≡ (contains x layout.assignment || tid == x)
unfolding settle
contains-settle x tid size layout (some (slots', id)) =
    ground (arith, get-set tid x id layout.assignment)
contains-settle x tid size layout none =
    ground (arith, get-set tid x (length layout.slots) layout.assignment)

contains-assign_all :
    (x : ℕ) (intervals : Dict Interval) (layout : Layout) (cs : List Candidate)
    → contains x (assign_all intervals layout cs).assignment
      ≡ (contains x layout.assignment || elem x (ids cs))
unfolding assign_all assign
contains-assign_all x intervals layout [] = ground arith
contains-assign_all x intervals layout ((tid, size) ∷ cs) = ground (
  arith,
  contains-assign_all x intervals (assign intervals layout (tid, size)) cs,
  contains-settle x tid size layout (place intervals (tid, size) layout.slots),
)

-- A tensor that may share a slot: an activation, not mutable, of some size.
abbrev pub wants_slot : ℕ → Dict TensorMeta → Bool
unfolding is_candidate
wants_slot x [] = false
wants_slot x ((tid, tensor) ∷ tensors) = (tid == x && is_candidate tensor) || wants_slot x tensors

elem-candidates_of :
    (x : ℕ) (tensors : Dict TensorMeta)
    → elem x (ids (candidates_of tensors)) ≡ wants_slot x tensors
unfolding candidates_of
elem-candidates_of x [] = refl
elem-candidates_of x ((tid, tensor) ∷ tensors) = ground (arith, elem-candidates_of x tensors)

-- A tensor gets a slot exactly when it is an activation of the graph that is not mutable and takes
-- at least one byte.
pub contains-plan_buffer_reuse :
    (graph : HeterogeneousGraph) (liveness : LivenessAnalysis) (alias : Option AliasAnalysis)
    (x : ℕ)
    → contains x (plan_buffer_reuse graph liveness alias).assignment ≡ wants_slot x graph.tensors
unfolding plan_buffer_reuse layout_of candidates get
contains-plan_buffer_reuse graph liveness alias x =
    contains-assign_all x (effective_intervals graph liveness alias) no_layout (candidates graph)
    ∙ (elem-sort_candidates x (candidates_of graph.tensors) ∙ elem-candidates_of x graph.tensors)

contains-wants_slot :
    (x : ℕ) (tensors : Dict TensorMeta) → wants_slot x tensors ≡ true → contains x tensors ≡ true
unfolding is_candidate get
contains-wants_slot x [] h = cc
contains-wants_slot x ((tid, tensor) ∷ tensors) h = ground (arith, contains-wants_slot x tensors)

-- Only tensors of the graph get a slot.
pub contains_of_assigned :
    (graph : HeterogeneousGraph) (liveness : LivenessAnalysis) (alias : Option AliasAnalysis)
    (x : ℕ) {id : ℕ}
    → get x (plan_buffer_reuse graph liveness alias).assignment ≡ some id
    → contains x graph.tensors ≡ true
contains_of_assigned graph liveness alias x h = contains-wants_slot x graph.tensors (
    sym (contains-plan_buffer_reuse graph liveness alias x)
    ∙ contains_of_get x (plan_buffer_reuse graph liveness alias).assignment h)

capacity_total-append :
    (slots : List BufferSlot) (slot : BufferSlot)
    → capacity_total (slots ++ slot ∷ []) ≡ capacity_total slots + slot.capacity_bytes
unfolding capacity_total
capacity_total-append [] slot = omega arith
capacity_total-append (x ∷ slots) slot = omega (arith, capacity_total-append slots slot)

abbrev capacity_found : List BufferSlot → Option (List BufferSlot × ℕ) → ℕ
capacity_found slots none = capacity_total slots
capacity_found slots (some (slots', id)) = capacity_total slots'

capacity_found-behind :
    (slot : BufferSlot) (slots : List BufferSlot) (r : Option (List BufferSlot × ℕ))
    → capacity_found slots r ≡ capacity_total slots
    → capacity_found (slot ∷ slots) (behind slot r) ≡ capacity_total (slot ∷ slots)
unfolding capacity_total
capacity_found-behind slot slots none h = refl
capacity_found-behind slot slots (some (slots', id)) h = omega arith

capacity_found-place :
    (intervals : Dict Interval) (c : Candidate) (slots : List BufferSlot)
    → capacity_found slots (place intervals c slots) ≡ capacity_total slots
unfolding place capacity_total
capacity_found-place intervals (tid, size) [] = refl
capacity_found-place intervals (tid, size) (slot ∷ slots) =
    elim (Bool-cases (ltb slot.capacity_bytes size || conflicts intervals tid slot.assigned)) [
      | inl skip ↦ rw skip (
          capacity_found-behind slot slots (place intervals (tid, size) slots)
            (capacity_found-place intervals (tid, size) slots))
      | inr take ↦ rw take (ground (arith, slots_total))
    ]
  where
    slots_total :
        capacity_total (record slot { assigned = slot.assigned ++ tid ∷ [] } ∷ slots)
        ≡ capacity_total (slot ∷ slots)
    slots_total = refl

capacity_total-settle :
    (tid size : ℕ) (layout : Layout) (r : Option (List BufferSlot × ℕ))
    → capacity_found layout.slots r ≡ capacity_total layout.slots
    → capacity_total (settle layout (tid, size) r).slots ≤ capacity_total layout.slots + size
unfolding settle
capacity_total-settle tid size layout none h =
    omega (arith, capacity_total-append layout.slots (new_slot layout.slots (tid, size)))
capacity_total-settle tid size layout (some (slots', id)) h = omega arith

capacity_total-assign_all :
    (intervals : Dict Interval) (layout : Layout) (cs : List Candidate)
    → capacity_total (assign_all intervals layout cs).slots
      ≤ capacity_total layout.slots + sizes_total cs
unfolding assign_all sizes_total assign
capacity_total-assign_all intervals layout [] = omega arith
capacity_total-assign_all intervals layout ((tid, size) ∷ cs) = omega (
  arith,
  capacity_total-assign_all intervals (assign intervals layout (tid, size)) cs,
  capacity_total-settle tid size layout (place intervals (tid, size) layout.slots)
      (capacity_found-place intervals (tid, size) layout.slots),
)

-- The slots take no more than the tensors one by one, so what the plan reports as saved makes up
-- the difference exactly.
pub plan_buffer_reuse_saves :
    (graph : HeterogeneousGraph) (liveness : LivenessAnalysis) (alias : Option AliasAnalysis)
    → let plan = plan_buffer_reuse graph liveness alias in
      capacity_total plan.slots + plan.saved_bytes ≡ sizes_total (candidates graph)
unfolding plan_buffer_reuse layout_of capacity_total
plan_buffer_reuse_saves graph liveness alias = omega (
  arith,
  capacity_total-assign_all (effective_intervals graph liveness alias) no_layout (candidates graph),
)
