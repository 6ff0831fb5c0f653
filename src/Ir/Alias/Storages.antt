-- ===== src/Ir/Alias/Storages.antt =====
-- The alias analysis puts the tensors that have one storage by the graph in one group.
use tensor_torrent.Base.{
  ℕ, ◌≡◌, refl, ap, ◌∙◌, sym, subst, ◌⊎◌, inl, inr, true, false, List, [], ◌∷◌, none, some, arith,
  elem, ◌==◌, ==_iff, Bool-cases, Option-cases, ok,
}
use tensor_torrent.Base.Dict.{Dict, get, keys, get-set, contains_of_get, elem-keys}
use tensor_torrent.Ir.{storage, TensorMeta, HeterogeneousGraph}
use tensor_torrent.Ir.Alias.{
  AliasAnalysis, State, or_else, group_of, analyse, analyse_all, first_loop, first_state,
  run_alias_analysis,
}

-- By the tensors' own fields, the tensor has the storage: it is no view and has the storage's id, or it
-- is a view of a tensor that has it.
abbrev pub InStorage : Dict TensorMeta → ℕ → ℕ → Type 0
InStorage tensors x id =
    ((t : TensorMeta) × (get x tensors ≡ some t) × (t.view_of ≡ none) × (t.storage_id ≡ some id))
    ⊎ ((t : TensorMeta) × (source : ℕ) × (base : TensorMeta) × (get x tensors ≡ some t)
        × (t.view_of ≡ some source)
        × (get source tensors ≡ some base)
        × (base.storage_id ≡ some id))

module _ (bindings : Dict ℕ) (s : State) (tid : ℕ) (tensor : TensorMeta)
    (at : get tid s.tensors ≡ some tensor) where
  abbrev next : State
  next = analyse bindings s tid tensor

  -- What a tensor is a view of stays, and so does a storage that it has.
  kept :
      (x : ℕ) (t : TensorMeta)
      → get x s.tensors ≡ some t
      → (t' : TensorMeta) × (get x next.tensors ≡ some t')
        × (t'.view_of ≡ t.view_of)
        × ((id : ℕ) → t.storage_id ≡ some id → t'.storage_id ≡ some id)
  unfolding analyse
  kept x t found =
      let own = or_else tensor.storage_id (get tid bindings) in
      let (group, stored) = group_of s tid tensor tensor.view_of own in
      let new : TensorMeta = record tensor {
        alias_group = some group;
        storage_id = or_else tensor.storage_id stored;
      } in
      elim (Bool-cases (tid == x)) [
        | inl same ↦
            let known : get x s.tensors ≡ some tensor =
              subst (λ y. get y s.tensors ≡ some tensor) ((==_iff tid x).0 same) at in
            (
              new,
              rw (get-set tid x new s.tensors, same) refl,
              cc (known, found),
              λ id h. let had : tensor.storage_id ≡ some id = cc (known, found, h) in rw had refl,
            )
        | inr other ↦ (t, rw (get-set tid x new s.tensors, other) found, refl, λ id h. h)
      ]

  InStorage-analyse : (x id : ℕ) → InStorage s.tensors x id → InStorage next.tensors x id
  InStorage-analyse x id (inl (t, found, no_view, stored)) =
      let (t', found', view', stored') = kept x t found in
      inl (t', found', view' ∙ no_view, stored' id stored)
  InStorage-analyse x id (inr (t, source, base, found, viewed, found_base, stored)) =
      let (t', found', view', stored') = kept x t found in
      let (base', found_base', view_base', stored_base') = kept source base found_base in
      inr (t', source, base', found', view' ∙ viewed, found_base', stored_base' id stored)

  group_of-storage :
      (id : ℕ)
      → InStorage s.tensors tid id
      → (group_of s tid tensor tensor.view_of (or_else tensor.storage_id (get tid bindings))).0
        ≡ storage id
  unfolding group_of
  group_of-storage id (inl (t, found, no_view, stored)) =
      let view' : tensor.view_of ≡ none = cc (at, found, no_view) in
      let stored' : tensor.storage_id ≡ some id = cc (at, found, stored) in
      rw (view', stored', group_of) refl
  group_of-storage id (inr (t, source, base, found, viewed, found_base, stored)) =
      let view' : tensor.view_of ≡ some source = cc (at, found, viewed) in
      rw (view', group_of, found_base, stored) refl

  groups-analyse :
      (x id : ℕ)
      → InStorage s.tensors x id
      → ((tid == x) ≡ true) ⊎ (get x s.groups ≡ some (storage id))
      → get x next.groups ≡ some (storage id)
  unfolding analyse
  groups-analyse x id has given = elim (Bool-cases (tid == x)) [
    | inl same ↦
        let here = subst (λ y. InStorage s.tensors y id) (sym ((==_iff tid x).0 same)) has in
        rw (get-set tid x _ s.groups, same) (ap some (group_of-storage id here))
    | inr other ↦ rw (get-set tid x _ s.groups, other) (ground (arith, given))
  ]

InStorage-found :
    (tensors : Dict TensorMeta) (x id : ℕ)
    → InStorage tensors x id
    → (t : TensorMeta) × (get x tensors ≡ some t)
InStorage-found tensors x id (inl h) = (h.0, h.1)
InStorage-found tensors x id (inr h) = (h.0, h.3)

groups-analyse_all :
    (bindings : Dict ℕ) (s : State) (x id : ℕ) (tids : List ℕ)
    → InStorage s.tensors x id
    → (elem x tids ≡ true) ⊎ (get x s.groups ≡ some (storage id))
    → get x (analyse_all bindings s tids).groups ≡ some (storage id)
unfolding analyse_all
groups-analyse_all bindings s x id [] has given = ground (arith, given)
groups-analyse_all bindings s x id (tid ∷ tids) has given =
    elim (Option-cases (get tid s.tensors)) [
      | inl unknown ↦
          let (t, found) = InStorage-found s.tensors x id has in
          let other : (tid == x) ≡ false =
            ground
              (arith, ==_iff tid x, ap (λ y. get y s.tensors) {x = tid} {y = x}, unknown, found) in
          rw (analyse_all, unknown)
            (groups-analyse_all bindings s x id tids has (ground (arith, given, other)))
      | inr (tensor, at) ↦
          rw (analyse_all, at)
            (groups-analyse_all bindings (analyse bindings s tid tensor) x id tids
              (InStorage-analyse bindings s tid tensor at x id has)
              (elim (Bool-cases (tid == x)) [
                | inl same ↦ inr (groups-analyse bindings s tid tensor at x id has (inl same))
                | inr other ↦ elim given [
                  | inl later ↦ inl (ground (arith, later, other))
                  | inr grouped ↦
                      inr (groups-analyse bindings s tid tensor at x id has (inr grouped))
                ]
              ]))
    ]

-- Where the analysis returns, a tensor that has a storage id in the graph and is no view, or that is a
-- view of a tensor that has one, is in the group of that storage.
pub run_alias_analysis-storage :
    (graph : HeterogeneousGraph) {alias : AliasAnalysis} {graph' : HeterogeneousGraph}
    → run_alias_analysis graph ≡ ok (alias, graph')
    → (x id : ℕ) → InStorage graph.tensors x id
    → get x alias.groups ≡ some (storage id)
unfolding run_alias_analysis first_loop
run_alias_analysis-storage graph {alias} h x id has =
    let looped : alias.groups ≡ (first_loop graph).groups = ground arith in
    let (t, found) = InStorage-found graph.tensors x id has in
    ap (get x) looped
    ∙ groups-analyse_all graph.state_bindings (first_state graph) x id (keys graph.tensors) has
        (inl (elem-keys x graph.tensors ∙ contains_of_get x graph.tensors found))
