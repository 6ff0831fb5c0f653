-- ===== src/Handles/Tests.antt =====
-- Two insertions, a drop, and a replacement.
use tensor_torrent.Base.{ℕ, ◌≡◌, ◌≢◌, List, [], ◌∷◌, ok, err, runtime_plan_error}
use tensor_torrent.Handles.{new_table, insert, get_value}
use tensor_torrent.Handles.Fresh.{Call, inserts, drops, sets, run, insert-run}

abbrev calls : List Call
calls = inserts 40 ∷ inserts 41 ∷ drops 1 ∷ sets 2 42 ∷ []

insert-run_example :
    let table = run new_table calls in
    let (table', handle_id) = insert table 50 in
    (get_value table handle_id ≡ err runtime_plan_error)
    × (get_value table' handle_id ≡ ok 50)
    × ((x : ℕ) → x ≢ handle_id → get_value table' x ≡ get_value table x)
insert-run_example = insert-run calls 50
