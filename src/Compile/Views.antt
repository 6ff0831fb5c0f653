-- ===== src/Compile/Views.antt =====
-- A view of a tensor without a storage id, and what the analyses make of it: the base's slot is given
-- to a tensor that is written while the view is still to be read.
use tensor_torrent.Base.{inr, Result, ok, err, ◌≡◌, refl, [], ◌∷◌, none, some}
use tensor_torrent.Base.Dict.{get, set, set_default}
use tensor_torrent.Ir.{storage, compute, HeterogeneousGraph}
use tensor_torrent.Ir.Alias.Storages.{run_alias_analysis-storage}
use tensor_torrent.Ir.Alias.{AliasAnalysis, group_eq, run_alias_analysis}
use tensor_torrent.Ir.Liveness.{ranges_overlap, run_liveness_analysis}
use tensor_torrent.BufferReuse.Effective.{effective_intervals}
use tensor_torrent.BufferReuse.Plan.{plan_buffer_reuse}
use tensor_torrent.Compile.{portable_analyses}
use tensor_torrent.Compile.Samples.{tensor, or_empty}

-- 10 writes 1, 11 makes 2, a view of 1, 12 writes 3, and 13 reads the view and 3.
abbrev viewing : HeterogeneousGraph
viewing = record {
  tensors = (1, tensor none) ∷ (2, tensor (some 1)) ∷ (3, tensor none) ∷ (4, tensor none) ∷ [];
  instructions =
      record { opcode = compute; name = 10; inputs = []; outputs = 1 ∷ [] }
      ∷ record { opcode = compute; name = 11; inputs = 1 ∷ []; outputs = 2 ∷ [] }
      ∷ record { opcode = compute; name = 12; inputs = []; outputs = 3 ∷ [] }
      ∷ record { opcode = compute; name = 13; inputs = 2 ∷ 3 ∷ []; outputs = 4 ∷ [] }
      ∷ [];
  parameters = [];
  outputs = 4 ∷ [];
  state_bindings = [];
}

viewing-slots :
    (get 1 (or_empty (portable_analyses viewing)).reuse.assignment ≡ some 0)
    × (get 3 (or_empty (portable_analyses viewing)).reuse.assignment ≡ some 0)
unfolding or_empty portable_analyses run_alias_analysis run_liveness_analysis plan_buffer_reuse get
    set ranges_overlap effective_intervals group_eq set_default
viewing-slots = (refl, refl)

-- 1 has a storage, 2 is a view of 1.
abbrev stored : HeterogeneousGraph
stored = record viewing {
  tensors = (1, record (tensor none) { storage_id = some 7 }) ∷ (2, tensor (some 1)) ∷ [];
}

unfoldable analysed_or_empty :
    Result (AliasAnalysis × HeterogeneousGraph) → AliasAnalysis × HeterogeneousGraph
analysed_or_empty (ok found) = found
analysed_or_empty (err e) = (record { groups = []; view_of = []; mutable_groups = [] }, viewing)

unfoldable analysed_stored : AliasAnalysis × HeterogeneousGraph
unfolding analysed_or_empty
analysed_stored = analysed_or_empty (run_alias_analysis stored)

stored-ok : run_alias_analysis stored ≡ ok (analysed_stored.0, analysed_stored.1)
unfolding run_alias_analysis analysed_stored get set
stored-ok = refl

run_alias_analysis-storage_example : get 2 analysed_stored.0.groups ≡ some (storage 7)
unfolding get
run_alias_analysis-storage_example =
    run_alias_analysis-storage stored stored-ok 2 7 (
      inr
        (tensor (some 1), 1, record (tensor none) { storage_id = some 7 }, refl, refl, refl, refl))
