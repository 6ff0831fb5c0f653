-- ===== src/BufferReuse/Plan.antt =====
-- `plan_buffer_reuse` and `assert_reuse_safe` of python/tensortorrent/runtime/buffer_reuse.py.
pub mod Slots
pub mod Disjoint
pub mod Assigned
pub mod Guard
use tensor_torrent.Base.{
  ℕ, ◌+◌, ◌-◌, Bool, true, false, not, ◌&&◌, ◌||◌, List, [], ◌∷◌, ◌++◌, Option, none, some, ltb,
  leb, ◌==◌, if◌then◌else◌, length, Result, ok, err, ◌>>=◌, ◌>>◌, raise_if, runtime_plan_error,
  key_error,
}
use tensor_torrent.Base.Dict.{Dict, get, set}
use tensor_torrent.Ir.{TensorKind, activation, parameter, workspace, TensorMeta, HeterogeneousGraph}
use tensor_torrent.Ir.Alias.{AliasAnalysis}
use tensor_torrent.Ir.Liveness.{Interval, LivenessAnalysis, ranges_overlap, or_unknown}
use tensor_torrent.BufferReuse.Effective.{effective_intervals}

pub record BufferSlot : Type 0 where
  pub slot_id : ℕ
  pub capacity_bytes : ℕ
  pub assigned : List ℕ

-- A line of the plan's notes.
pub data Note : Type 0 where
  activation_tensors slot_count naive_bytes pooled_bytes spared_bytes : ℕ → Note

pub record BufferReusePlan : Type 0 where
  pub assignment : Dict ℕ
  pub slots : List BufferSlot
  pub saved_bytes : ℕ
  pub notes : List Note

-- A tensor to place: its id and its size.
abbrev pub Candidate : Type 0
Candidate = ℕ × ℕ

is_candidate : TensorMeta → Bool
is_candidate tensor =
    (elim tensor.kind [ activation ↦ true | parameter ↦ false | workspace ↦ false ])
    && (not tensor.mutable && ltb 0 tensor.size_bytes)

candidates_of : Dict TensorMeta → List Candidate
unfolding is_candidate
candidates_of [] = []
candidates_of ((tid, tensor) ∷ tensors) =
    let rest = candidates_of tensors in
    if is_candidate tensor then (tid, tensor.size_bytes) ∷ rest else rest

-- The order of the sort keys `(-size_bytes, tid)`.
precedes : Candidate → Candidate → Bool
precedes (a, a_size) (b, b_size) = ltb b_size a_size || (a_size == b_size && leb a b)

insert_candidate : Candidate → List Candidate → List Candidate
unfolding precedes
insert_candidate c [] = c ∷ []
insert_candidate c (d ∷ ds) = if precedes c d then c ∷ d ∷ ds else d ∷ insert_candidate c ds

sort_candidates : List Candidate → List Candidate
unfolding insert_candidate
sort_candidates [] = []
sort_candidates (c ∷ cs) = insert_candidate c (sort_candidates cs)

-- The two intervals overlap, one being unknown where the dict has none.
abbrev pub overlap_in : Dict Interval → ℕ → ℕ → Bool
overlap_in intervals a b =
    ranges_overlap (or_unknown (get a intervals)) (or_unknown (get b intervals))

conflicts : Dict Interval → ℕ → List ℕ → Bool
conflicts intervals tid [] = false
conflicts intervals tid (other ∷ others) =
    overlap_in intervals tid other || conflicts intervals tid others

abbrev behind : BufferSlot → Option (List BufferSlot × ℕ) → Option (List BufferSlot × ℕ)
behind slot none = none
behind slot (some (slots, id)) = some (slot ∷ slots, id)

-- The first slot that has the room and no conflict: the slots with the tensor in it, and its id.
place : Dict Interval → Candidate → List BufferSlot → Option (List BufferSlot × ℕ)
unfolding conflicts
place intervals (tid, size) [] = none
place intervals (tid, size) (slot ∷ slots) =
    if ltb slot.capacity_bytes size || conflicts intervals tid slot.assigned
    then behind slot (place intervals (tid, size) slots)
    else some (record slot { assigned = slot.assigned ++ tid ∷ [] } ∷ slots, slot.slot_id)

pub record Layout : Type 0 where
  pub slots : List BufferSlot
  pub assignment : Dict ℕ

abbrev new_slot : List BufferSlot → Candidate → BufferSlot
new_slot slots (tid, size) = record {
  slot_id = length slots;
  capacity_bytes = size;
  assigned = tid ∷ [];
}

settle : Layout → Candidate → Option (List BufferSlot × ℕ) → Layout
settle layout (tid, size) (some (slots', id)) = record {
  slots = slots';
  assignment = set tid id layout.assignment;
}
settle layout (tid, size) none = record {
  slots = layout.slots ++ new_slot layout.slots (tid, size) ∷ [];
  assignment = set tid (length layout.slots) layout.assignment;
}

-- The body of the loop over the candidates: a slot that has a place, or else a new one.
assign : Dict Interval → Layout → Candidate → Layout
unfolding place settle
assign intervals layout c = settle layout c (place intervals c layout.slots)

pub assign_all : Dict Interval → Layout → List Candidate → Layout
unfolding assign
assign_all intervals layout [] = layout
assign_all intervals layout (c ∷ cs) = assign_all intervals (assign intervals layout c) cs

pub sizes_total : List Candidate → ℕ
sizes_total [] = 0
sizes_total ((tid, size) ∷ cs) = size + sizes_total cs

pub capacity_total : List BufferSlot → ℕ
capacity_total [] = 0
capacity_total (slot ∷ slots) = slot.capacity_bytes + capacity_total slots

abbrev no_layout : Layout
no_layout = record { slots = []; assignment = [] }

pub candidates : HeterogeneousGraph → List Candidate
unfolding sort_candidates candidates_of
candidates graph = sort_candidates (candidates_of graph.tensors)

layout_of : HeterogeneousGraph → LivenessAnalysis → Option AliasAnalysis → Layout
unfolding assign_all candidates
layout_of graph liveness alias =
    assign_all (effective_intervals graph liveness alias) no_layout (candidates graph)

unfoldable pub plan_buffer_reuse :
    HeterogeneousGraph → LivenessAnalysis → Option AliasAnalysis → BufferReusePlan
unfolding layout_of sizes_total capacity_total
plan_buffer_reuse graph liveness alias =
    let layout = layout_of graph liveness alias in
    let naive = sizes_total (candidates graph) in
    let reused = capacity_total layout.slots in
    let saved = naive - reused in
    record {
      assignment = layout.assignment;
      slots = layout.slots;
      saved_bytes = saved;
      notes =
          activation_tensors (length (candidates graph))
          ∷ slot_count (length layout.slots)
          ∷ naive_bytes naive
          ∷ pooled_bytes reused
          ∷ spared_bytes saved
          ∷ [];
    }

abbrev joined : Option (List ℕ) → ℕ → List ℕ
joined none tid = tid ∷ []
joined (some tids) tid = tids ++ tid ∷ []

-- `by_slot.setdefault(slot_id, []).append(tid)`, for each entry of the assignment.
by_slot : Dict ℕ → Dict (List ℕ) → Dict (List ℕ)
by_slot [] groups = groups
by_slot ((tid, slot_id) ∷ rest) groups =
    by_slot rest (set slot_id (joined (get slot_id groups) tid) groups)

-- `intervals[tid]`.
require : ℕ → Dict Interval → Result Interval
require tid intervals = elim (get tid intervals) [ none ↦ err key_error | some i ↦ ok i ]

check_left : Dict Interval → ℕ → List ℕ → Result (Unit {0})
unfolding require
check_left intervals left [] = ok tt
check_left intervals left (right ∷ rest) = do
  a ← require left intervals
  b ← require right intervals
  raise_if (ranges_overlap a b) runtime_plan_error
  check_left intervals left rest

check_slot : Dict Interval → List ℕ → Result (Unit {0})
unfolding check_left
check_slot intervals [] = ok tt
check_slot intervals (left ∷ rest) = do check_left intervals left rest; check_slot intervals rest

check_slots : Dict Interval → Dict (List ℕ) → Result (Unit {0})
unfolding check_slot
check_slots intervals [] = ok tt
check_slots intervals ((slot_id, tids) ∷ groups) = do
  check_slot intervals tids
  check_slots intervals groups

abbrev checked_intervals :
    LivenessAnalysis → Option HeterogeneousGraph → Option AliasAnalysis → Dict Interval
checked_intervals liveness none alias = liveness.intervals
checked_intervals liveness (some graph) alias = effective_intervals graph liveness alias

pub assert_reuse_safe :
    BufferReusePlan
    → LivenessAnalysis
    → Option HeterogeneousGraph
    → Option AliasAnalysis
    → Result (Unit {0})
unfolding check_slots by_slot
assert_reuse_safe plan liveness graph alias =
    check_slots (checked_intervals liveness graph alias) (by_slot plan.assignment [])
