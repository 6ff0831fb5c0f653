-- ===== src/Handles/Fresh.antt =====
-- Which handles are taken.
use tensor_torrent.Base.{
  ℕ, ◌≤◌, ◌≡◌, ◌≢◌, refl, inl, inr, List, [], ◌∷◌, none, some, arith, ==_iff, Option-cases, Result,
  ok, err, runtime_plan_error,
}
use tensor_torrent.Base.Dict.{get, get-set, get-remove}
use tensor_torrent.Handles.{TensorHandleTable, new_table, insert, get_value, drop, set_value}

pub data Call : Type 0 where
  inserts : (value : ℕ) → Call
  drops : (handle_id : ℕ) → Call
  sets : (handle_id value : ℕ) → Call

abbrev kept_or : TensorHandleTable → ℕ → ℕ → Result ℕ → TensorHandleTable
kept_or table handle_id value (ok old) = set_value table handle_id value
kept_or table handle_id value (err e) = table

-- `set` is called for a handle that the table knows.
unfoldable pub step : TensorHandleTable → Call → TensorHandleTable
step table (inserts value) = (insert table value).0
step table (drops handle_id) = (drop table handle_id).0
step table (sets handle_id value) = kept_or table handle_id value (get_value table handle_id)

unfoldable pub run : TensorHandleTable → List Call → TensorHandleTable
run table [] = table
run table (call ∷ calls) = run (step table call) calls

-- Every handle from `next` on is free.
abbrev Free : TensorHandleTable → Type 0
Free table = (h : ℕ) → table.next ≤ h → get h table.values ≡ none

get_value-absent :
    (table : TensorHandleTable) (x : ℕ)
    → get x table.values ≡ none
    → get_value table x ≡ err runtime_plan_error
unfolding get_value
get_value-absent table x h = ground arith

get_value-found :
    (table : TensorHandleTable) (x : ℕ) {v : ℕ}
    → get x table.values ≡ some v
    → get_value table x ≡ ok v
unfolding get_value
get_value-found table x h = ground arith

sets-Free :
    (table : TensorHandleTable)
    → Free table
    → (x value : ℕ) → Free (kept_or table x value (get_value table x))
unfolding set_value
sets-Free table free x value = elim (Option-cases (get x table.values)) [
  | inl unknown ↦ rw (get_value-absent table x unknown) free
  | inr (old, known) ↦
      rw (get_value-found table x known)
        (λ h le. ground (arith, get-set x h value table.values, free h, free x, ==_iff x h, known))
]

step-Free : (table : TensorHandleTable) → Free table → (call : Call) → Free (step table call)
unfolding step insert drop set_value
step-Free table free (inserts value) h le =
    ground (arith, get-set table.next h value table.values, free h)
step-Free table free (drops x) h le = ground (arith, get-remove x h table.values, free h)
step-Free table free (sets x value) h le = sets-Free table free x value h le

run-Free : (table : TensorHandleTable) → Free table → (calls : List Call) → Free (run table calls)
unfolding run
run-Free table free [] = free
run-Free table free (call ∷ calls) = run-Free (step table call) (step-Free table free call) calls

new_table-Free : Free new_table
unfolding new_table get
new_table-Free h le = refl

-- After any insertions, drops and replacements of known handles, an insertion gives a handle that is
-- not in the table; afterwards it has the value, and every other handle has what it had.
pub insert-run :
    (calls : List Call) (value : ℕ)
    → let table = run new_table calls in
      let (table', handle_id) = insert table value in
      (get_value table handle_id ≡ err runtime_plan_error)
      × (get_value table' handle_id ≡ ok value)
      × ((x : ℕ) → x ≢ handle_id → get_value table' x ≡ get_value table x)
unfolding insert get_value
insert-run calls value =
    let table = run new_table calls in
    let free = run-Free new_table new_table-Free calls in
    (
      ground (arith, free table.next (omega arith)),
      ground (
        arith,
        get-set table.next table.next value table.values,
        (==_iff table.next table.next).1 refl,
      ),
      λ x ne. ground (arith, get-set table.next x value table.values, ==_iff table.next x, ne),
    )
