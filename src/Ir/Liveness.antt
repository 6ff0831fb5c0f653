-- ===== src/Ir/Liveness.antt =====
-- `run_liveness_analysis` of python/tensortorrent/ir/liveness.py: the interval of each tensor from
-- the order of the instructions and their uses.
pub mod Coverage
pub mod Graph
use tensor_torrent.Base.{
  ℕ, zero, suc, ◌+◌, ◌-◌, max, Bool, true, false, not, ◌&&◌, ◌||◌, List, [], ◌∷◌, ◌++◌, Option,
  none, some, ltb, leb, ◌==◌, if◌then◌else◌, length,
}
use tensor_torrent.Base.Dict.{Dict, get, set, contains, set_default, keys}
use tensor_torrent.Ir.{TensorMeta, Instruction, HeterogeneousGraph}

abbrev pub Interval : Type 0
Interval = Option ℕ × Option ℕ

-- The two dicts `produced` and `last_use` of the loops.
pub record Times : Type 0 where
  pub produced : Dict ℕ
  pub last_use : Dict ℕ

-- `last_use[tid] = max(last_use.get(tid, index), index)`.
abbrev later : Option ℕ → ℕ → ℕ
later none index = index
later (some seen) index = max seen index

touch : ℕ → ℕ → Dict ℕ → Dict ℕ
touch tid index last_use = set tid (later (get tid last_use) index) last_use

visit_output : ℕ → Times → ℕ → Times
unfolding touch
visit_output index times tid = record {
  produced = set_default tid index times.produced;
  last_use = touch tid index times.last_use;
}

visit_outputs : ℕ → Times → List ℕ → Times
visit_outputs index times [] = times
visit_outputs index times (tid ∷ tids) = visit_outputs index (visit_output index times tid) tids

-- `set_default` does nothing where the name is in `produced` already. The default -1 of
-- `last_use.get(tid, -1)` is below every index.
visit_input : Dict TensorMeta → ℕ → Times → ℕ → Times
unfolding touch
visit_input tensors index times tid = record {
  produced =
      if not (contains tid times.produced) && contains tid tensors
      then set_default tid 0 times.produced
      else times.produced;
  last_use = touch tid index times.last_use;
}

visit_inputs : Dict TensorMeta → ℕ → Times → List ℕ → Times
visit_inputs tensors index times [] = times
visit_inputs tensors index times (tid ∷ tids) =
    visit_inputs tensors index (visit_input tensors index times tid) tids

visit_instruction : Dict TensorMeta → ℕ → Times → Instruction → Times
unfolding visit_outputs visit_inputs visit_output visit_input
visit_instruction tensors index times inst =
    visit_inputs tensors index (visit_outputs index times inst.outputs) inst.inputs

-- `for index, inst in enumerate(graph.instructions)`, from an index on.
pub visit_from : Dict TensorMeta → ℕ → Times → List Instruction → Times
visit_from tensors index times [] = times
visit_from tensors index times (inst ∷ insts) =
    visit_from tensors (suc index) (visit_instruction tensors index times inst) insts

-- `for tid in graph.outputs`: live to the end.
keep_output : ℕ → Times → ℕ → Times
unfolding touch
keep_output end times tid = record {
  produced = set_default tid 0 times.produced;
  last_use = touch tid end times.last_use;
}

pub keep_outputs : ℕ → Times → List ℕ → Times
keep_outputs end times [] = times
keep_outputs end times (tid ∷ tids) = keep_outputs end (keep_output end times tid) tids

keep_parameter : ℕ → Times → ℕ → Times
keep_parameter end times tid = record {
  produced = set_default tid 0 times.produced;
  last_use = set_default tid end times.last_use;
}

pub keep_parameters : ℕ → Times → List ℕ → Times
keep_parameters end times [] = times
keep_parameters end times (tid ∷ tids) = keep_parameters end (keep_parameter end times tid) tids

abbrev pub last_index : HeterogeneousGraph → ℕ
last_index graph = length graph.instructions - 1

abbrev no_times : Times
no_times = record { produced = []; last_use = [] }

visited_times : HeterogeneousGraph → Times
unfolding visit_from visit_instruction
visited_times graph = visit_from graph.tensors 0 no_times graph.instructions

-- Both dicts at the end of the three loops.
times_of : HeterogeneousGraph → Times
unfolding visited_times keep_outputs keep_output keep_parameters keep_parameter
times_of graph =
    keep_parameters (last_index graph)
      (keep_outputs (last_index graph) (visited_times graph) graph.outputs) graph.parameters

interval_of : Times → ℕ → Interval
interval_of times tid = (get tid times.produced, get tid times.last_use)

-- `intervals[tid] = (start, finish)` for each tensor of the graph.
intervals_of : Times → Dict TensorMeta → Dict Interval
unfolding interval_of
intervals_of times [] = []
intervals_of times ((tid, tensor) ∷ tensors) =
    (tid, interval_of times tid) ∷ intervals_of times tensors

-- A message of `mismatches`: the tensor, and the stored and the derived index.
pub data Mismatch : Type 0 where
  produced_at : (tid stored derived : ℕ) → Mismatch
  last_use_at : (tid stored derived : ℕ) → Mismatch

abbrev differs : (ℕ → ℕ → Mismatch) → Option ℕ → Option ℕ → List Mismatch
differs message (some stored) (some derived) =
    if stored == derived then [] else message stored derived ∷ []
differs message none derived = []
differs message (some stored) none = []

mismatches_of : Times → Dict TensorMeta → List Mismatch
unfolding interval_of
mismatches_of times [] = []
mismatches_of times ((tid, tensor) ∷ tensors) =
    (differs (produced_at tid) tensor.produced_at (interval_of times tid).0
      ++ differs (last_use_at tid) tensor.last_use_at (interval_of times tid).1)
    ++ mismatches_of times tensors

-- The tensors with the intervals written back.
write_back : Times → Dict TensorMeta → Dict TensorMeta
unfolding interval_of
write_back times [] = []
write_back times ((tid, tensor) ∷ tensors) =
    (
      tid,
      record tensor {
        produced_at = (interval_of times tid).0;
        last_use_at = (interval_of times tid).1;
      },
    )
    ∷ write_back times tensors

-- Not `a[1] < b[0] or b[1] < a[0]`, and true where an end is unknown.
unfoldable pub ranges_overlap : Interval → Interval → Bool
ranges_overlap (some a0, some a1) (some b0, some b1) = not (ltb a1 b0 || ltb b1 a0)
ranges_overlap (none, _) _ = true
ranges_overlap (some a0, none) _ = true
ranges_overlap (some a0, some a1) (none, _) = true
ranges_overlap (some a0, some a1) (some b0, none) = true

-- `sorted(intervals)`.
insert_sorted : ℕ → List ℕ → List ℕ
insert_sorted k [] = k ∷ []
insert_sorted k (j ∷ js) = if leb k j then k ∷ j ∷ js else j ∷ insert_sorted k js

sorted : List ℕ → List ℕ
unfolding insert_sorted
sorted [] = []
sorted (k ∷ ks) = insert_sorted k (sorted ks)

abbrev pub or_unknown : Option Interval → Interval
or_unknown none = (none, none)
or_unknown (some interval) = interval

pairs_with : Dict Interval → ℕ → List ℕ → List (ℕ × ℕ)
pairs_with intervals left [] = []
pairs_with intervals left (right ∷ rest) =
    let more = pairs_with intervals left rest in
    if ranges_overlap (or_unknown (get left intervals)) (or_unknown (get right intervals))
    then more
    else (left, right) ∷ more

all_pairs : Dict Interval → List ℕ → List (ℕ × ℕ)
unfolding pairs_with
all_pairs intervals [] = []
all_pairs intervals (left ∷ rest) = pairs_with intervals left rest ++ all_pairs intervals rest

-- Each key is looked up in the dict that it comes from, so none is missing.
non_overlapping_pairs : Dict Interval → List (ℕ × ℕ)
unfolding all_pairs sorted
non_overlapping_pairs intervals = all_pairs intervals (sorted (keys intervals))

pub record LivenessAnalysis : Type 0 where
  pub intervals : Dict Interval
  pub reuse_groups : List (ℕ × ℕ)
  pub mismatches : List Mismatch

-- The analysis, and the graph with the intervals written back.
unfoldable pub run_liveness_analysis : HeterogeneousGraph → LivenessAnalysis × HeterogeneousGraph
unfolding times_of intervals_of mismatches_of write_back non_overlapping_pairs
run_liveness_analysis graph =
    let times = times_of graph in
    let intervals = intervals_of times graph.tensors in
    (
      record {
        intervals = intervals;
        reuse_groups = non_overlapping_pairs intervals;
        mismatches = mismatches_of times graph.tensors;
      },
      record graph { tensors = write_back times graph.tensors },
    )
