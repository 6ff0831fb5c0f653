-- ===== src/BufferReuse/Effective.antt =====
-- `_effective_intervals` of python/tensortorrent/runtime/buffer_reuse.py: an alias group is live for the
-- union of its members' intervals.
pub mod Widening
pub mod Aliases
use tensor_torrent.Base.{
  ℕ, min, max, List, [], ◌∷◌, ◌++◌, Option, none, some, ltb, if◌then◌else◌, length,
}
use tensor_torrent.Base.Dict.{Dict, get, set, contains}
use tensor_torrent.Ir.{Group, TensorMeta, HeterogeneousGraph}
use tensor_torrent.Ir.Alias.{AliasAnalysis, group_eq}
use tensor_torrent.Ir.Liveness.{Interval, LivenessAnalysis, or_unknown}

-- `groups.setdefault(group, []).append(tid)`.
add_member : Group → ℕ → List (Group × List ℕ) → List (Group × List ℕ)
add_member group tid [] = (group, tid ∷ []) ∷ []
add_member group tid ((g, members) ∷ groups) =
    if group_eq g group
    then (g, members ++ tid ∷ []) ∷ groups
    else (g, members) ∷ add_member group tid groups

members_of : Dict TensorMeta → Dict Group → List (Group × List ℕ) → List (Group × List ℕ)
unfolding add_member
members_of tensors [] groups = groups
members_of tensors ((tid, group) ∷ rest) groups =
    members_of tensors rest (if contains tid tensors then add_member group tid groups else groups)

abbrev lesser : Option ℕ → Option ℕ → Option ℕ
lesser none b = b
lesser (some a) none = some a
lesser (some a) (some b) = some (min a b)

abbrev greater : Option ℕ → Option ℕ → Option ℕ
greater none b = b
greater (some a) none = some a
greater (some a) (some b) = some (max a b)

-- `min(starts)` over the known starts of the members, if there is one.
least_start : Dict Interval → List ℕ → Option ℕ
least_start intervals [] = none
least_start intervals (m ∷ ms) = lesser (or_unknown (get m intervals)).0 (least_start intervals ms)

-- `max(finishes)`.
greatest_finish : Dict Interval → List ℕ → Option ℕ
greatest_finish intervals [] = none
greatest_finish intervals (m ∷ ms) =
    greater (or_unknown (get m intervals)).1 (greatest_finish intervals ms)

set_all : Interval → List ℕ → Dict Interval → Dict Interval
set_all merged [] intervals = intervals
set_all merged (m ∷ ms) intervals = set_all merged ms (set m merged intervals)

-- One round of the loop over `groups.values()`.
pub merge_members : Dict Interval → List ℕ → Dict Interval
unfolding least_start greatest_finish set_all
merge_members intervals members =
    if ltb (length members) 2 then intervals else elim (least_start intervals members) [
      | none ↦ intervals
      | some start ↦ elim (greatest_finish intervals members) [
        | none ↦ intervals
        | some finish ↦ set_all (some start, some finish) members intervals
      ]
    ]

pub merge_groups : Dict Interval → List (Group × List ℕ) → Dict Interval
unfolding merge_members
merge_groups intervals [] = intervals
merge_groups intervals ((group, members) ∷ groups) =
    merge_groups (merge_members intervals members) groups

unfoldable pub effective_intervals :
    HeterogeneousGraph → LivenessAnalysis → Option AliasAnalysis → Dict Interval
unfolding merge_groups members_of
effective_intervals graph liveness none = liveness.intervals
effective_intervals graph liveness (some alias) =
    merge_groups liveness.intervals (members_of graph.tensors alias.groups [])
