-- ===== src/Ir/Liveness/Graph.antt =====
-- What the liveness analysis leaves of the graph, and what a second run finds.
use tensor_torrent.Base.{ℕ, suc, ◌≡◌, refl, ap, List, [], ◌∷◌, arith}
use tensor_torrent.Base.Dict.{Dict, get, contains}
use tensor_torrent.Ir.{TensorMeta, Instruction, HeterogeneousGraph}
use tensor_torrent.Ir.Liveness.{
  Times, visit_input, visit_inputs, visit_outputs, visit_instruction, visit_from, times_of,
  visited_times, intervals_of, write_back, mismatches_of, non_overlapping_pairs,
  run_liveness_analysis,
}

contains-write_back :
    (x : ℕ) (times : Times) (tensors : Dict TensorMeta)
    → contains x (write_back times tensors) ≡ contains x tensors
unfolding write_back get
contains-write_back x times [] = refl
contains-write_back x times ((tid, tensor) ∷ tensors) =
    ground (arith, contains-write_back x times tensors)

mismatches_of-write_back :
    (times : Times) (tensors : Dict TensorMeta)
    → mismatches_of times (write_back times tensors) ≡ []
unfolding mismatches_of write_back
mismatches_of-write_back times [] = refl
mismatches_of-write_back times ((tid, tensor) ∷ tensors) =
    ground (arith, mismatches_of-write_back times tensors)

intervals_of-write_back :
    (times : Times) (tensors : Dict TensorMeta)
    → intervals_of times (write_back times tensors) ≡ intervals_of times tensors
unfolding intervals_of write_back
intervals_of-write_back times [] = refl
intervals_of-write_back times ((tid, tensor) ∷ tensors) = cc (intervals_of-write_back times tensors)

write_back_idem :
    (times : Times) (tensors : Dict TensorMeta)
    → write_back times (write_back times tensors) ≡ write_back times tensors
unfolding write_back
write_back_idem times [] = refl
write_back_idem times ((tid, tensor) ∷ tensors) = cc (write_back_idem times tensors)

-- The tensors' names and the instructions stay.
pub run_liveness_analysis_keeps :
    (graph : HeterogeneousGraph)
    → ((x : ℕ) → contains x (run_liveness_analysis graph).1.tensors ≡ contains x graph.tensors)
      × ((run_liveness_analysis graph).1.instructions ≡ graph.instructions)
unfolding run_liveness_analysis
run_liveness_analysis_keeps graph =
    ((λ x. contains-write_back x (times_of graph) graph.tensors), refl)

-- The loops read of the tensors only which there are.
module _ (ts us : Dict TensorMeta) (same : (x : ℕ) → contains x ts ≡ contains x us) where
  visit_inputs-same :
      (index : ℕ) (times : Times) (tids : List ℕ)
      → visit_inputs ts index times tids ≡ visit_inputs us index times tids
  unfolding visit_inputs visit_input
  visit_inputs-same index times [] = refl
  visit_inputs-same index times (tid ∷ tids) =
      rw (same tid) (visit_inputs-same index (visit_input us index times tid) tids)

  visit_from-same :
      (index : ℕ) (times : Times) (insts : List Instruction)
      → visit_from ts index times insts ≡ visit_from us index times insts
  unfolding visit_from visit_instruction
  visit_from-same index times [] = refl
  visit_from-same index times (inst ∷ insts) =
      rw (visit_inputs-same index (visit_outputs index times inst.outputs) inst.inputs)
        (visit_from-same (suc index) (visit_instruction us index times inst) insts)

times_of-same :
    (graph : HeterogeneousGraph) (tensors : Dict TensorMeta)
    → ((x : ℕ) → contains x tensors ≡ contains x graph.tensors)
    → times_of (record graph { tensors = tensors }) ≡ times_of graph
unfolding times_of visited_times
times_of-same graph tensors same =
    rw (visit_from-same tensors graph.tensors same 0 _ graph.instructions)

-- A second run, on the graph with the intervals written back, derives the same intervals and the
-- same reuse groups, reports no mismatch and changes nothing.
pub run_liveness_analysis_twice :
    (graph : HeterogeneousGraph)
    → let (first, graph') = run_liveness_analysis graph in
      let (second, graph'') = run_liveness_analysis graph' in
      (second.intervals ≡ first.intervals)
      × (second.reuse_groups ≡ first.reuse_groups)
      × (second.mismatches ≡ [])
      × (graph'' ≡ graph')
unfolding run_liveness_analysis
run_liveness_analysis_twice graph =
    let times = times_of graph in
    let tensors = write_back times graph.tensors in
    let same = intervals_of-write_back times graph.tensors in
    rw (times_of-same graph tensors (λ x. contains-write_back x times graph.tensors)) (
      same,
      ap non_overlapping_pairs same,
      mismatches_of-write_back times graph.tensors,
      ap (λ ts. record graph { tensors = ts }) (write_back_idem times graph.tensors),
    )
