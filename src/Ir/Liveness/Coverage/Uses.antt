-- ===== src/Ir/Liveness/Coverage/Uses.antt =====
-- What the interval of a tensor says of the instructions that use it.
use tensor_torrent.Base.{ℕ, ◌≡◌, true, [], ◌∷◌, some, arith, elem, get_elem?}
use native.Mathlib.Nat.{zero-add}
use tensor_torrent.Base.Dict.{Dict, get, contains}
use tensor_torrent.Ir.{TensorMeta, Instruction, HeterogeneousGraph}
use tensor_torrent.Ir.Liveness.{
  Times, visited_times, no_times, times_of, last_index, intervals_of, or_unknown,
  run_liveness_analysis,
}
use tensor_torrent.Ir.Liveness.Coverage.{Covers, Early, seen}
use tensor_torrent.Ir.Liveness.Coverage.Kept.{
  visit_from-Covers_use, visit_from-Early, Mentions, keep_outputs-Covers, keep_outputs-Covers_self,
  keep_parameters-Covers,
}

intervals_of-seen :
    (tid : ℕ) (times : Times) (tensors : Dict TensorMeta)
    → contains tid tensors ≡ true
    → get tid (intervals_of times tensors) ≡ some (seen tid times)
unfolding intervals_of get
intervals_of-seen tid times [] h = cc
intervals_of-seen tid times ((other, tensor) ∷ tensors) h =
    ground (arith, intervals_of-seen tid times tensors)

visited_times-Covers :
    (graph : HeterogeneousGraph) (tid i : ℕ) {inst : Instruction}
    → contains tid graph.tensors ≡ true
    → get_elem? graph.instructions i ≡ some inst
    → Mentions tid inst
    → Covers i (seen tid (visited_times graph))
unfolding visited_times get
visited_times-Covers graph tid i known at h =
    rw (← zero-add i)
      (visit_from-Covers_use tid graph.tensors 0 i no_times graph.instructions known at h tt)

visited_times-Early :
    (graph : HeterogeneousGraph) (tid : ℕ) → Early tid (last_index graph) (visited_times graph)
unfolding visited_times get
visited_times-Early graph tid =
    visit_from-Early tid graph.tensors 0 (last_index graph) no_times graph.instructions
      (omega arith) tt

-- The interval that the analysis gives a tensor of the graph has both ends, and the index of each
-- instruction that names the tensor lies between them.
pub run_liveness_analysis-Covers :
    (graph : HeterogeneousGraph) (tid i : ℕ) (inst : Instruction)
    → contains tid graph.tensors ≡ true
    → get_elem? graph.instructions i ≡ some inst
    → Mentions tid inst
    → Covers i (or_unknown (get tid (run_liveness_analysis graph).0.intervals))
unfolding run_liveness_analysis
run_liveness_analysis-Covers graph tid i inst known at h =
    rw (intervals_of-seen tid (times_of graph) graph.tensors known) (
      keep_parameters-Covers tid end i _ graph.parameters (
        keep_outputs-Covers tid end i _ graph.outputs
          (visited_times-Covers graph tid i known at h)))
  where
    end : ℕ
    end = last_index graph

-- The interval of a graph output has both ends, and it holds the index of the last instruction.
pub run_liveness_analysis-Covers_output :
    (graph : HeterogeneousGraph) (tid : ℕ)
    → contains tid graph.tensors ≡ true
    → elem tid graph.outputs ≡ true
    → Covers (last_index graph) (or_unknown (get tid (run_liveness_analysis graph).0.intervals))
unfolding run_liveness_analysis
run_liveness_analysis-Covers_output graph tid known out =
    rw (intervals_of-seen tid (times_of graph) graph.tensors known) (
      keep_parameters-Covers tid end end _ graph.parameters (
        keep_outputs-Covers_self tid end (visited_times graph) graph.outputs out
          (visited_times-Early graph tid)))
  where
    end : ℕ
    end = last_index graph
