-- ===== src/Copies/Calls.antt =====
-- The calls that change the store of python/tensortorrent/runtime/copies.py, and what they make of a
-- map from keys to values, where no other thread changes the store within a call.
use tensor_torrent.Base.{
  ℕ, leb, ◌≡◌, ◌⊎◌, Bool, true, false, not, ◌&&◌, Option, none, some, if◌then◌else◌, Result, ok,
  err, runtime_plan_error,
}
use tensor_torrent.Copies.Values.{Value, TensorDescriptor}
use tensor_torrent.Copies.{
  CopyOwnership, Key, same_key, Copies, find, CopyStore, put, replicate, alias, replace_handle,
  drop, move,
}
use tensor_torrent.Schedule.{MemoryTier}
use tensor_torrent.Copies.Keys.{}

pub data Call : Type 0 where
  put_call :
      (tensor_id resource_id : ℕ)
      → Value
      → MemoryTier
      → Bool
      → CopyOwnership
      → Option ℕ
      → Option TensorDescriptor
      → Call
  replicate_call :
      (tensor_id resource_id : ℕ) → Value → MemoryTier → CopyOwnership → Option ℕ → Call
  alias_call : (tensor_id source_resource alias_resource : ℕ) → Call
  replace_call : (tensor_id resource_id : ℕ) → Value → Option MemoryTier → Option ℕ → Call
  drop_call : (tensor_id resource_id : ℕ) → Call
  move_call : (tensor_id source_resource dest_resource : ℕ) → Value → MemoryTier → Call

-- The store that a call leaves.
abbrev pub store_of {ℓ} : {A : Type ℓ} → Result (CopyStore × A) → Result CopyStore
store_of (err e) = err e
store_of (ok (store, result)) = ok store

-- What no other thread makes of the store.
abbrev pub alone : CopyStore → CopyStore
alone store = store

unfoldable pub perform : Call → CopyStore → Result CopyStore
unfolding put replicate alias replace_handle drop move
perform (put_call t r v tier a o e p) store = store_of (put store t r v tier a o e p)
perform (replicate_call t r v tier o e) store = store_of (replicate store t r v tier o e)
perform (alias_call t s r) store = store_of (alias store t s r)
perform (replace_call t r v tier e) store = store_of (replace_handle store t r v tier e)
perform (drop_call t r) store = store_of (drop store t r)
perform (move_call t s d v tier) store = store_of (move alone alone store t s d v tier)

-- The value at a key.
unfoldable pub value_at : Copies → Key → Option Value
unfolding find
value_at copies key = elim (find key copies) [ none ↦ none | some copy ↦ some copy.value ]

abbrev is_some : Option Value → Bool
is_some none = false
is_some (some value) = true

-- A call is let through when the publish API is not required, or the mutation is trusted, and the copy
-- that it starts from is there.
unfoldable pub allowed : Call → CopyStore → Bool
unfolding value_at
allowed call store = not (store.require_publish_api && leb store.trusted_depth 0) && elim call [
  | put_call t r v tier a o e p ↦ true
  | replicate_call t r v tier o e ↦ true
  | alias_call t s r ↦ is_some (value_at store.copies (t, s))
  | replace_call t r v tier e ↦ is_some (value_at store.copies (t, r))
  | drop_call t r ↦ true
  | move_call t s d v tier ↦ is_some (value_at store.copies (t, s))
]

-- A call on a map from keys to values.
unfoldable pub updated : Call → (Key → Option Value) → Key → Option Value
updated (put_call t r v tier a o e p) values k = if same_key (t, r) k then some v else values k
updated (replicate_call t r v tier o e) values k = if same_key (t, r) k then some v else values k
updated (alias_call t s r) values k = if same_key (t, r) k then values (t, s) else values k
updated (replace_call t r v tier e) values k = if same_key (t, r) k then some v else values k
updated (drop_call t r) values k = if same_key (t, r) k then none else values k
updated (move_call t s d v tier) values k =
    if same_key (t, d) k then some v else if same_key (t, s) k then none else values k

-- What a call makes of a store.
unfoldable pub Performs : Call → CopyStore → Type 0
unfolding perform allowed updated value_at
Performs call store =
    (allowed call store ≡ false) × (perform call store ≡ err runtime_plan_error)
    ⊎ (allowed call store ≡ true)
      × ((next : CopyStore) × (perform call store ≡ ok next)
          × ((k : Key) → value_at next.copies k ≡ updated call (value_at store.copies) k)
          × (next.require_publish_api ≡ store.require_publish_api)
          × (next.trusted_depth ≡ store.trusted_depth))
