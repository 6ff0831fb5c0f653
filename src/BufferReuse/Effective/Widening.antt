-- ===== src/BufferReuse/Effective/Widening.antt =====
-- The effective intervals contain the derived ones.
use tensor_torrent.Base.{
  ℕ, ◌≡◌, ◌≢◌, refl, inl, inr, true, false, List, [], ◌∷◌, some, arith, elem, Bool-cases, ◌==◌,
  ==_iff, if◌then◌else◌, ltb, length,
}
use tensor_torrent.Base.Dict.{Dict, get, set, get-set}
use tensor_torrent.Ir.{Group}
use tensor_torrent.Ir.Alias.{}
use tensor_torrent.Ir.Liveness.{Interval, or_unknown}
use tensor_torrent.Ir.Liveness.Coverage.{Covers}
use tensor_torrent.BufferReuse.Effective.{
  least_start, greatest_finish, set_all, merge_members, merge_groups,
}

abbrev pub interval_at : ℕ → Dict Interval → Interval
interval_at tid intervals = or_unknown (get tid intervals)

get-set_all :
    (tid : ℕ) (merged : Interval) (ms : List ℕ) (intervals : Dict Interval)
    → get tid (set_all merged ms intervals)
      ≡ (if elem tid ms then some merged else get tid intervals)
unfolding set_all
get-set_all tid merged [] intervals = refl
get-set_all tid merged (m ∷ ms) intervals =
    ground
      (arith, get-set_all tid merged ms (set m merged intervals), get-set m tid merged intervals)

-- The union of the members' intervals covers what one of them covers.
union-Covers :
    (i tid : ℕ) (ms : List ℕ) (intervals : Dict Interval)
    → elem tid ms ≡ true
    → Covers i (interval_at tid intervals)
    → Covers i (least_start intervals ms, greatest_finish intervals ms)
unfolding least_start greatest_finish
union-Covers i tid [] intervals h c = cc
union-Covers i tid (m ∷ ms) intervals h c = elim (Bool-cases (m == tid)) [
  | inl same ↦ rw ((==_iff m tid).0 same) (ground arith)
  | inr other ↦ ground (arith, union-Covers i tid ms intervals)
]

two_members :
    (a b : ℕ) (ms : List ℕ)
    → a ≢ b
    → elem a ms ≡ true
    → elem b ms ≡ true
    → ltb (length ms) 2 ≡ false
two_members a b [] ne in_a in_b = cc
two_members a b (m ∷ []) ne in_a in_b = ground arith
two_members a b (m ∷ n ∷ ms) ne in_a in_b = ground arith

-- Where no end of the union is known nothing is known of a member, so nothing is lost.
merged : Dict Interval → List ℕ → Interval
merged intervals ms = (least_start intervals ms, greatest_finish intervals ms)

get-merge_members :
    (i tid : ℕ) (ms : List ℕ) (intervals : Dict Interval)
    → Covers i (merged intervals ms)
    → get tid (merge_members intervals ms) ≡ (
        if ltb (length ms) 2
        then get tid intervals
        else if elem tid ms
        then some (merged intervals ms)
        else get tid intervals)
unfolding merge_members merged
get-merge_members i tid ms intervals c =
    ground
      (arith, get-set_all tid (least_start intervals ms, greatest_finish intervals ms) ms intervals)

get-merge_members_other :
    (tid : ℕ) (ms : List ℕ) (intervals : Dict Interval)
    → elem tid ms ≡ false
    → get tid (merge_members intervals ms) ≡ get tid intervals
unfolding merge_members
get-merge_members_other tid ms intervals h =
    ground
      (arith, get-set_all tid (least_start intervals ms, greatest_finish intervals ms) ms intervals)

module _ (i : ℕ) where
  -- The interval of a member after the round covers what the interval of a member covered before.
  pub merge_members-Covers_member :
      (a b : ℕ) (ms : List ℕ) (intervals : Dict Interval)
      → a ≢ b
      → elem a ms ≡ true
      → elem b ms ≡ true
      → Covers i (interval_at b intervals)
      → Covers i (interval_at a (merge_members intervals ms))
  unfolding merged
  merge_members-Covers_member a b ms intervals ne in_a in_b c =
      let wide = union-Covers i b ms intervals in_b c in
      rw (get-merge_members i a ms intervals wide, two_members a b ms ne in_a in_b, in_a) wide

  pub merge_members-Covers :
      (tid : ℕ) (ms : List ℕ) (intervals : Dict Interval)
      → Covers i (interval_at tid intervals)
      → Covers i (interval_at tid (merge_members intervals ms))
  unfolding merged
  merge_members-Covers tid ms intervals c = elim (Bool-cases (elem tid ms)) [
    | inl member ↦
        let wide = union-Covers i tid ms intervals member c in
        rw (get-merge_members i tid ms intervals wide) (ground arith)
    | inr other ↦ rw (get-merge_members_other tid ms intervals other) c
  ]

  pub merge_groups-Covers :
      (tid : ℕ) (intervals : Dict Interval) (groups : List (Group × List ℕ))
      → Covers i (interval_at tid intervals)
      → Covers i (interval_at tid (merge_groups intervals groups))
  unfolding merge_groups
  merge_groups-Covers tid intervals [] c = c
  merge_groups-Covers tid intervals ((group, members) ∷ groups) c =
      merge_groups-Covers tid (merge_members intervals members) groups
        (merge_members-Covers tid members intervals c)
