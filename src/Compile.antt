-- ===== src/Compile.antt =====
-- The analyses of `portable_compile_from_ir` of python/tensortorrent/compile/artifacts.py, in its order.
-- Each analysis writes into the graph, and the next one reads what it wrote.
pub mod Safety
pub mod Samples
mod Tests
mod Views
use tensor_torrent.Base.{Option, some, Result, ok, ◌>>=◌}
use tensor_torrent.Ir.{HeterogeneousGraph}
use tensor_torrent.Ir.Alias.{AliasAnalysis, run_alias_analysis}
use tensor_torrent.Ir.Liveness.{LivenessAnalysis, run_liveness_analysis}
use tensor_torrent.BufferReuse.Plan.{BufferReusePlan, plan_buffer_reuse}

pub record Analyses : Type 0 where
  pub ir : HeterogeneousGraph
  pub alias : AliasAnalysis
  pub liveness : LivenessAnalysis
  pub reuse : BufferReusePlan

-- What follows the alias analysis.
analyses_of : AliasAnalysis → HeterogeneousGraph → Analyses
analyses_of alias ir =
    let (liveness, ir') = run_liveness_analysis ir in
    record {
      ir = ir';
      alias = alias;
      liveness = liveness;
      reuse = plan_buffer_reuse ir' liveness (some alias);
    }

pub portable_analyses : HeterogeneousGraph → Result Analyses
unfolding analyses_of
portable_analyses ir = do found ← run_alias_analysis ir; ok (analyses_of found.0 found.1)
