-- ===== src/Copies/Keys.antt =====
-- The dict of python/tensortorrent/runtime/copies.py under writes and removals.
use tensor_torrent.Base.{
  ◌≡◌, refl, sym, ◌∙◌, inl, inr, true, [], ◌∷◌, none, some, if◌then◌else◌, Bool-cases, arith,
}
use tensor_torrent.Copies.{ResidentCopy, Key, same_key, Copies, find, assign, without}

pub find-assign :
    (key k : Key) (copy : ResidentCopy) (copies : Copies)
    → find k (assign key copy copies) ≡ (if same_key key k then some copy else find k copies)
unfolding find assign
find-assign key k copy [] = refl
find-assign key k copy ((j, old) ∷ copies) = ground (arith, find-assign key k copy copies)

pub find-without :
    (key k : Key) (copies : Copies)
    → find k (without key copies) ≡ (if same_key key k then none else find k copies)
unfolding find without
find-without key k [] = ground arith
find-without key k ((j, old) ∷ copies) = ground (arith, find-without key k copies)

pub find-same :
    (key k : Key) (copies : Copies) → same_key key k ≡ true → find key copies ≡ find k copies
unfolding find
find-same key k [] same = refl
find-same key k ((j, old) ∷ copies) same = ground (arith, find-same key k copies same, same)

pub find_absent :
    (key k : Key) (copies : Copies)
    → find key copies ≡ none
    → find k copies ≡ (if same_key key k then none else find k copies)
find_absent key k copies absent = elim (Bool-cases (same_key key k)) [
  | inl same ↦ rw same (sym (find-same key k copies same) ∙ absent)
  | inr other ↦ rw other
]
