-- ===== src/Compile/Tests.antt =====
-- The properties of the analyses at a graph of four instructions in a chain.
use tensor_torrent.Base.{ℕ, ◌+◌, ◌<◌, ◌≡◌, refl, ◌⊎◌, false, [], some, arith, ok}
use tensor_torrent.Base.Dict.{get, set, set_default}
use tensor_torrent.Ir.{storage}
use tensor_torrent.Ir.Alias.{group_eq}
use tensor_torrent.Ir.Liveness.{ranges_overlap, or_unknown, last_index, run_liveness_analysis}
use tensor_torrent.Ir.Liveness.Coverage.{Covers}
use tensor_torrent.Ir.Liveness.Coverage.Uses.{
  run_liveness_analysis-Covers, run_liveness_analysis-Covers_output,
}
use tensor_torrent.Ir.Liveness.Graph.{run_liveness_analysis_twice}
use tensor_torrent.BufferReuse.Effective.{effective_intervals}
use tensor_torrent.BufferReuse.Effective.Widening.{interval_at}
use tensor_torrent.BufferReuse.Effective.Aliases.{effective_intervals-Covers_alias}
use tensor_torrent.BufferReuse.Plan.{
  overlap_in, plan_buffer_reuse, assert_reuse_safe, candidates, capacity_total, sizes_total,
}
use tensor_torrent.BufferReuse.Plan.Disjoint.{plan_buffer_reuse_apart}
use tensor_torrent.BufferReuse.Plan.Assigned.{plan_buffer_reuse_saves}
use tensor_torrent.BufferReuse.Plan.Guard.{assert_reuse_safe-plan_buffer_reuse}
use tensor_torrent.Compile.{}
use tensor_torrent.Compile.Safety.{Uses, slot-Uses_ordered}
use tensor_torrent.Compile.Samples.{
  chain, instruction, planned, planned_ok, viewed_alias, viewed_liveness,
}

slot-Uses_ordered_example :
    ((i j : ℕ) → Uses chain planned 1 i → Uses chain planned 3 j → i < j)
    ⊎ ((i j : ℕ) → Uses chain planned 1 i → Uses chain planned 3 j → j < i)
unfolding planned get set ranges_overlap effective_intervals group_eq set_default
slot-Uses_ordered_example = slot-Uses_ordered chain planned_ok 1 3 0 (λ e. omega arith) refl refl

plan_buffer_reuse_apart_example :
    overlap_in (effective_intervals planned.ir planned.liveness (some planned.alias)) 2 4 ≡ false
unfolding planned plan_buffer_reuse get set ranges_overlap effective_intervals group_eq set_default
plan_buffer_reuse_apart_example =
    plan_buffer_reuse_apart planned.ir planned.liveness (some planned.alias) 2 4 1
      (λ e. omega arith) refl refl

assert_reuse_safe-plan_buffer_reuse_example :
    assert_reuse_safe
      (plan_buffer_reuse planned.ir planned.liveness (some planned.alias))
      planned.liveness
      (some planned.ir)
      (some planned.alias)
    ≡ ok tt
assert_reuse_safe-plan_buffer_reuse_example =
    assert_reuse_safe-plan_buffer_reuse planned.ir planned.liveness (some planned.alias)

plan_buffer_reuse_saves_example :
    capacity_total (plan_buffer_reuse planned.ir planned.liveness (some planned.alias)).slots
      + (plan_buffer_reuse planned.ir planned.liveness (some planned.alias)).saved_bytes
    ≡ sizes_total (candidates planned.ir)
plan_buffer_reuse_saves_example =
    plan_buffer_reuse_saves planned.ir planned.liveness (some planned.alias)

run_liveness_analysis-Covers_example :
    Covers 2 (or_unknown (get 3 (run_liveness_analysis chain).0.intervals))
unfolding get
run_liveness_analysis-Covers_example =
    run_liveness_analysis-Covers chain 3 2 (instruction 12 3 4) refl refl refl

run_liveness_analysis-Covers_output_example :
    Covers (last_index chain) (or_unknown (get 5 (run_liveness_analysis chain).0.intervals))
unfolding get
run_liveness_analysis-Covers_output_example = run_liveness_analysis-Covers_output chain 5 refl refl

run_liveness_analysis_twice_example :
    let (first, graph') = run_liveness_analysis chain in
    let (second, graph'') = run_liveness_analysis graph' in
    (second.intervals ≡ first.intervals)
    × (second.reuse_groups ≡ first.reuse_groups)
    × (second.mismatches ≡ [])
    × (graph'' ≡ graph')
run_liveness_analysis_twice_example = run_liveness_analysis_twice chain

effective_intervals-Covers_alias_example :
    Covers 3 (interval_at 1 (effective_intervals chain viewed_liveness (some viewed_alias)))
unfolding get
effective_intervals-Covers_alias_example =
    effective_intervals-Covers_alias chain viewed_liveness viewed_alias 3 1 2 (storage 7) refl refl
      refl refl (omega arith, omega arith)
