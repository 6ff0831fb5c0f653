-- ===== src/Ir/Alias/Graph.antt =====
-- What the alias analysis leaves of the graph.
use tensor_torrent.Base.{
  ℕ, ◌≡◌, refl, ap, ◌∙◌, inl, inr, true, List, [], ◌∷◌, some, arith, Option-cases, ok,
}
use tensor_torrent.Base.Dict.{Dict, get, contains, keys, get-set, contains_of_get}
use tensor_torrent.Ir.{TensorMeta, HeterogeneousGraph}
use tensor_torrent.Ir.Alias.{
  AliasAnalysis, State, or_else, group_of, analyse, analyse_all, first_loop, first_state,
  run_alias_analysis,
}

contains-analyse :
    (x : ℕ) (bindings : Dict ℕ) (s : State) (tid : ℕ) (tensor : TensorMeta)
    → contains tid s.tensors ≡ true
    → contains x (analyse bindings s tid tensor).tensors ≡ contains x s.tensors
unfolding analyse
contains-analyse x bindings s tid tensor h =
    let own = or_else tensor.storage_id (get tid bindings) in
    let (group, found) = group_of s tid tensor tensor.view_of own in
    ground (
      arith,
      get-set tid x
          (record tensor { alias_group = some group; storage_id = or_else tensor.storage_id found })
          s.tensors,
    )

contains-analyse_all :
    (x : ℕ) (bindings : Dict ℕ) (s : State) (tids : List ℕ)
    → contains x (analyse_all bindings s tids).tensors ≡ contains x s.tensors
unfolding analyse_all
contains-analyse_all x bindings s [] = refl
contains-analyse_all x bindings s (tid ∷ tids) = elim (Option-cases (get tid s.tensors)) [
  | inl missing ↦ rw (missing, analyse_all) (contains-analyse_all x bindings s tids)
  | inr (tensor, found) ↦
      rw (found, analyse_all)
        (contains-analyse_all x bindings (analyse bindings s tid tensor) tids
          ∙ contains-analyse x bindings s tid tensor (contains_of_get tid s.tensors found))
]

-- The tensors' names, the instructions and the outputs stay.
pub run_alias_analysis_keeps :
    (graph : HeterogeneousGraph) {alias : AliasAnalysis} {graph' : HeterogeneousGraph}
    → run_alias_analysis graph ≡ ok (alias, graph')
    → ((x : ℕ) → contains x graph'.tensors ≡ contains x graph.tensors)
      × (graph'.instructions ≡ graph.instructions)
      × (graph'.outputs ≡ graph.outputs)
unfolding run_alias_analysis first_loop
run_alias_analysis_keeps graph {graph' = graph'} h =
    let looped : graph'.tensors ≡ (first_loop graph).tensors = ground arith in
    (
      (λ x.
          ap (contains x) looped
          ∙ contains-analyse_all x graph.state_bindings (first_state graph) (keys graph.tensors)),
      ground arith,
      ground arith,
    )
