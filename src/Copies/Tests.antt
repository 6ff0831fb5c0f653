-- ===== src/Copies/Tests.antt =====
-- A store with two copies.
use tensor_torrent.Base.{◌≡◌, refl, true, false, [], ◌∷◌, none, some, ok, err, runtime_plan_error}
use tensor_torrent.Copies.Values.{
  Value, torch_tensor, other_object, torch, allocation_id_of, physical_capacity_bytes,
}
use tensor_torrent.Copies.{
  activation, ResidentCopy, CopyStore, find, check_direct, alias, get_copy, require, resources_in,
  resources_for, drop,
}
use tensor_torrent.Schedule.{system_ram}
use tensor_torrent.Copies.Counts.{
  unseen_bytes, live_bytes, raise_to, sum_of, allocations_from, activation_live_bytes,
  tensor_ids_of, activation_tensor_ids,
}
use tensor_torrent.Copies.Guard.{perform-Performs}
use tensor_torrent.Copies.Calls.{move_call, Performs}
use tensor_torrent.Copies.Bytes.{live_bytes-alias}

abbrev tensor : Value
tensor = torch_tensor (record {
  numel = 4;
  element_size = 2;
  storage_offset = some 0;
  shape = 2 ∷ 2 ∷ [];
  stride = 2 ∷ 1 ∷ [];
  storage = some (record { device = 9; data_ptr = 100; nbytes = 16 });
  type_name = 8;
  id = 7;
})

abbrev handle : Value
handle = other_object (record {
  nbytes = some 32;
  allocation_nbytes = none;
  allocation_key = none;
  type_name = 6;
  id = 5;
})

abbrev copy_of_tensor : ResidentCopy
copy_of_tensor = record {
  tensor_id = 3;
  resource_id = 4;
  value = tensor;
  nbytes = 8;
  tier = system_ram;
  ready_event = none;
  authoritative = true;
  ownership = activation;
  allocation_id = some (torch 9 100 16);
  storage_offset = 0;
  shape = 2 ∷ 2 ∷ [];
  stride = 2 ∷ 1 ∷ [];
}

abbrev copy_of_handle : ResidentCopy
copy_of_handle = record {
  tensor_id = 5;
  resource_id = 1;
  value = handle;
  nbytes = 32;
  tier = system_ram;
  ready_event = none;
  authoritative = true;
  ownership = activation;
  allocation_id = none;
  storage_offset = 0;
  shape = [];
  stride = [];
}

abbrev store : CopyStore
store = record {
  copies = ((3, 4), copy_of_tensor) ∷ ((5, 1), copy_of_handle) ∷ [];
  require_publish_api = false;
  trusted_depth = 0;
}

-- The storage's bytes are counted, not the tensor's.
live : live_bytes store ≡ 48
unfolding live_bytes unseen_bytes physical_capacity_bytes allocation_id_of
live = refl

-- The handle is on the disk.
activations : activation_live_bytes store [] [] none ≡ 16
unfolding activation_live_bytes allocations_from raise_to sum_of physical_capacity_bytes
activations = refl

ids : activation_tensor_ids store [] ≡ 3 ∷ []
unfolding activation_tensor_ids tensor_ids_of
ids = refl

resources : resources_for store 3 ≡ 4 ∷ []
unfolding resources_for resources_in
resources = refl

-- The copy is gone when the wait is over.
vanished :
    require
      (λ s. record s { copies = [] })
      (record store { copies = ((3, 4), record copy_of_tensor { ready_event = some 2 }) ∷ [] })
      3
      4
    ≡ err runtime_plan_error
unfolding require get_copy find
vanished = refl

blocked : drop (record store { require_publish_api = true }) 3 4 ≡ err runtime_plan_error
unfolding drop check_direct
blocked = refl

perform-Performs_example : Performs (move_call 3 4 2 handle system_ram) store
perform-Performs_example = perform-Performs (move_call 3 4 2 handle system_ram) store

live_bytes-alias_example :
    (next : CopyStore) × (copy : ResidentCopy) × (alias store 3 4 2 ≡ ok (next, copy))
    × (copy.value ≡ tensor)
    × (live_bytes next ≡ live_bytes store)
unfolding check_direct find allocation_id_of
live_bytes-alias_example = live_bytes-alias store 3 4 2 copy_of_tensor refl refl refl refl
