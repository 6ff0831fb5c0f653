-- ===== src/Handles.antt =====
-- `TensorHandleTable` of python/tensortorrent/runtime/handles.py: opaque handle ids for values. A
-- value is a number that stands for the Python object. Each method runs under the table's lock.
pub mod Fresh
mod Tests
use tensor_torrent.Base.{
  ℕ, ◌+◌, List, [], ◌∷◌, length, Option, none, some, Result, ok, err, runtime_plan_error,
}
use tensor_torrent.Base.Dict.{Dict, get, set, remove}

pub record TensorHandleTable : Type 0 where
  pub values : Dict ℕ
  pub next : ℕ

unfoldable pub new_table : TensorHandleTable
new_table = record { values = []; next = 1 }

-- The table, and the handle.
pub insert : TensorHandleTable → ℕ → TensorHandleTable × ℕ
insert table value =
    (record { values = set table.next value table.values; next = table.next + 1 }, table.next)

pub get_value : TensorHandleTable → ℕ → Result ℕ
get_value table handle_id = elim (get handle_id table.values) [
  | none ↦ err runtime_plan_error
  | some value ↦ ok value
]

-- The table, and the value that was dropped.
pub drop : TensorHandleTable → ℕ → TensorHandleTable × Option ℕ
drop table handle_id =
    (record table { values = remove handle_id table.values }, get handle_id table.values)

pub set_value : TensorHandleTable → ℕ → ℕ → TensorHandleTable
set_value table handle_id value = record table { values = set handle_id value table.values }

-- `len`.
pub size_of : TensorHandleTable → ℕ
size_of table = length table.values
