-- ===== src/Ir/Alias.antt =====
-- `run_alias_analysis` of python/tensortorrent/ir/alias.py: the tensors that share a storage.
pub mod Groups
pub mod Graph
pub mod Storages
use tensor_torrent.Base.{
  ℕ, Bool, true, false, not, ◌&&◌, ◌||◌, List, [], ◌∷◌, ◌++◌, Option, none, some, ◌==◌,
  if◌then◌else◌, Result, ok, err, ◌>>=◌, ◌>>◌, raise_if, unsupported_feature_error,
}
use tensor_torrent.Base.Dict.{Dict, get, set, contains, keys}
use tensor_torrent.Ir.{
  TensorKind, parameter, activation, workspace, Group, storage, view, plain, TensorMeta,
  HeterogeneousGraph,
}

-- Equality of the texts of two groups.
unfoldable pub group_eq : Group → Group → Bool
group_eq (storage a) (storage b) = a == b
group_eq (view a) (view b) = group_eq a b
group_eq (plain a) (plain b) = a == b
group_eq (storage a) (view b) = false
group_eq (storage a) (plain b) = false
group_eq (view a) (storage b) = false
group_eq (view a) (plain b) = false
group_eq (plain a) (storage b) = false
group_eq (plain a) (view b) = false

pub record AliasAnalysis : Type 0 where
  pub groups : Dict Group
  pub view_of : Dict ℕ
  pub mutable_groups : List Group

-- `a or b`.
abbrev or_else {ℓ} : {A : Type ℓ} → Option A → Option A → Option A
or_else (some a) b = some a
or_else none b = b

abbrev or_value {ℓ} : {A : Type ℓ} → Option A → A → A
or_value (some a) b = a
or_value none b = b

-- The variables of the first loop; `tensors` are the graph's, with the ids written back so far.
record State : Type 0 where
  tensors : Dict TensorMeta
  groups : Dict Group
  view_of : Dict ℕ
  mutable_groups : List Group

-- The group and the storage of one tensor: a view, a tensor with a storage, any other.
group_of : State → ℕ → TensorMeta → Option ℕ → Option ℕ → Group × Option ℕ
group_of s tid tensor (some source) own =
    let root = or_value (get source s.groups) (plain source) in
    let found : Option ℕ = elim (get source s.tensors) [
      | none ↦ own
      | some other ↦ other.storage_id
    ] in
    (elim found [ none ↦ view root | some id ↦ storage id ], found)
group_of s tid tensor none (some id) = (storage id, some id)
group_of s tid tensor none none = (or_value tensor.alias_group (plain tid), none)

abbrev note_view : ℕ → Option ℕ → Dict ℕ → Dict ℕ
note_view tid none view_of = view_of
note_view tid (some source) view_of = set tid source view_of

-- The body of the first loop.
analyse : Dict ℕ → State → ℕ → TensorMeta → State
unfolding group_of
analyse bindings s tid tensor =
    let own = or_else tensor.storage_id (get tid bindings) in
    let (group, found) = group_of s tid tensor tensor.view_of own in
    record {
      tensors =
          set tid
            (record tensor {
              alias_group = some group;
              storage_id = or_else tensor.storage_id found;
            })
            s.tensors;
      groups = set tid group s.groups;
      view_of = note_view tid tensor.view_of s.view_of;
      mutable_groups = if tensor.mutable then group ∷ s.mutable_groups else s.mutable_groups;
    }

-- `for tid, tensor in graph.tensors.items()`; the loop's own writes change no key.
analyse_all : Dict ℕ → State → List ℕ → State
unfolding analyse
analyse_all bindings s [] = s
analyse_all bindings s (tid ∷ tids) = elim (get tid s.tensors) [
  | none ↦ analyse_all bindings s tids
  | some tensor ↦ analyse_all bindings (analyse bindings s tid tensor) tids
]

is_parameter : TensorKind → Bool
is_parameter parameter = true
is_parameter activation = false
is_parameter workspace = false

-- Another tensor of the group is a parameter.
shares_parameter : Dict TensorMeta → ℕ → Group → Dict Group → Bool
unfolding is_parameter
shares_parameter tensors tid group [] = false
shares_parameter tensors tid group ((other, g) ∷ groups) =
    ((group_eq g group && not (other == tid))
      && (elim (get other tensors) [ none ↦ false | some meta ↦ is_parameter meta.kind ]))
    || shares_parameter tensors tid group groups

-- The second loop: a mutable tensor beside a parameter raises.
check_mutations : Dict Group → Dict TensorMeta → Dict TensorMeta → Result (Unit {0})
unfolding shares_parameter
check_mutations groups tensors [] = ok tt
check_mutations groups tensors ((tid, tensor) ∷ rest) = do
  raise_if
      (tensor.mutable && (elim (get tid groups) [
        | none ↦ false
        | some group ↦ shares_parameter tensors tid group groups
      ]))
      unsupported_feature_error
  check_mutations groups tensors rest

abbrev first_state : HeterogeneousGraph → State
first_state graph = record {
  tensors = graph.tensors;
  groups = [];
  view_of = [];
  mutable_groups = [];
}

first_loop : HeterogeneousGraph → State
unfolding analyse_all
first_loop graph = analyse_all graph.state_bindings (first_state graph) (keys graph.tensors)

-- The analysis, and the graph with the groups and the storages written back.
unfoldable pub run_alias_analysis : HeterogeneousGraph → Result (AliasAnalysis × HeterogeneousGraph)
unfolding first_loop check_mutations
run_alias_analysis graph =
    let s = first_loop graph in
    do
      check_mutations s.groups s.tensors s.tensors
      ok (
        record { groups = s.groups; view_of = s.view_of; mutable_groups = s.mutable_groups },
        record graph { tensors = s.tensors },
      )
