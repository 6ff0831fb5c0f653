-- ===== src/Serve/Manager.antt =====
-- `ModelManager` of python/tensortorrent/serve/model_manager.py. A slot is an object that the manager
-- and the requests share, so it stands in a store, at an address. A method is one step for each
-- stretch that it runs under the lock: `unload` is `begin_unload`, then the drain, in which other
-- calls run, then `end_unload`. `closes` lists the calls of `module.close()`, by the address of the slot
-- that the call is made for: a call that marks a slot as closed closes its module once the lock is free
-- again, and the model lists it with the mark. A module that was loaded into two slots is closed for
-- each of them. The version is the caller's, for the code draws it at random; a model id of 0 is the
-- empty text. The checks of the types of arguments and of the drain's timeout are left out.
pub mod World
use tensor_torrent.Base.{
  ℕ, suc, ◌+◌, ◌-◌, min, Bool, true, false, not, ◌&&◌, ◌||◌, List, [], ◌∷◌, Option, none, some, ltb,
  leb, ◌==◌, if◌then◌else◌, Result, ok, err, ◌>>=◌, ◌>>◌, raise_if, value_error,
  tensor_torrent_error,
}
use tensor_torrent.Base.Dict.{Dict, get, set, remove, keys}
use tensor_torrent.Capacity.Ledger.{CapacityLedger, max_concurrent}

-- `compiled_module` is the address of the slot's module, and `ledger` the module's ledger when the slot
-- is made. Two slots may have one module.
pub record ModelSlot : Type 0 where
  pub model_id : ℕ
  pub version : ℕ
  pub compiled_module : ℕ
  pub ledger : CapacityLedger
  pub warm : Bool
  pub concurrency_limit : ℕ
  pub in_flight : ℕ
  pub retired : Bool
  pub closed : Bool

pub record ModelManager : Type 0 where
  pub store : Dict ModelSlot
  pub next : ℕ
  pub models : Dict ℕ
  pub retired : Dict ℕ
  pub closes : List ℕ

unfoldable pub new_manager : ModelManager
new_manager = record { store = []; next = 0; models = []; retired = []; closes = [] }

-- `slot.closed = True` and `_close_slot(slot)`.
pub close : ModelManager → ℕ → ModelSlot → ModelManager
close m addr slot = record m {
  store = set addr (record slot { closed = true }) m.store;
  closes = addr ∷ m.closes;
}

pub fresh_slot : ℕ → ℕ → ℕ → CapacityLedger → ℕ → ModelSlot
fresh_slot model_id version compiled_module ledger limit = record {
  model_id = model_id;
  version = version;
  compiled_module = compiled_module;
  ledger = ledger;
  warm = false;
  concurrency_limit = limit;
  in_flight = 0;
  retired = false;
  closed = false;
}

-- The object at an address.
pub at : ModelManager → ℕ → Option (ℕ × ModelSlot)
at m addr = elim (get addr m.store) [ none ↦ none | some slot ↦ some (addr, slot) ]

-- `self._models.get(model_id)`.
pub current_slot : ModelManager → ℕ → Option (ℕ × ModelSlot)
unfolding at
current_slot m model_id = elim (get model_id m.models) [ none ↦ none | some addr ↦ at m addr ]

-- The prior generation, if there is one: an idle one is closed, a busy one waits in `retired`.
pub retire_old : ModelManager → Option (ℕ × ModelSlot) → ModelManager
unfolding close
retire_old m none = m
retire_old m (some (addr, old)) =
    if old.in_flight == 0 then close m addr (record old { retired = true }) else record m {
      store = set addr (record old { retired = true }) m.store;
      retired = set old.version addr m.retired;
    }

pub publish : ModelManager → ℕ → ModelSlot → ModelManager
publish m model_id slot = record m {
  store = set m.next slot m.store;
  next = suc m.next;
  models = set model_id m.next m.models;
}

-- The new manager; the method returns the version.
pub load : ModelManager → ℕ → ℕ → CapacityLedger → ℕ → ℕ → Result ModelManager
unfolding fresh_slot retire_old publish current_slot
load m model_id compiled_module ledger concurrency_limit version = do
  raise_if (model_id == 0) value_error
  raise_if (ltb concurrency_limit 1) value_error
  raise_if (ltb (max_concurrent ledger) 1) tensor_torrent_error
  ok (
      retire_old
        (publish m model_id (
          fresh_slot model_id version compiled_module ledger
            (min concurrency_limit (max_concurrent ledger))))
        (current_slot m model_id))

pub retire_slot : ModelManager → ℕ → ℕ → ModelSlot → ModelManager
retire_slot m model_id addr slot = record m {
  store = set addr (record slot { retired = true }) m.store;
  models = remove model_id m.models;
  retired = if ltb 0 slot.in_flight then set slot.version addr m.retired else m.retired;
}

-- The first stretch of `unload`: the address of the slot that is being unloaded.
pub begin_unload : ModelManager → ℕ → Result (ModelManager × ℕ)
begin_unload m model_id = elim (current_slot m model_id) [
  | none ↦ err tensor_torrent_error
  | some (addr, slot) ↦ ok (retire_slot m model_id addr slot, addr)
]

-- Closes the slot where it is idle and not closed, and takes it off `retired`.
pub close_idle : ModelManager → ℕ → ModelSlot → ModelManager
unfolding close
close_idle m addr slot =
    if slot.in_flight == 0 && not slot.closed
    then close (record m { retired = remove slot.version m.retired }) addr slot
    else m

-- The last stretch of `unload`, after the drain or its timeout.
pub end_unload : ModelManager → ℕ → ModelManager
unfolding at close_idle
end_unload m addr = elim (at m addr) [ none ↦ m | some (a, slot) ↦ close_idle m a slot ]

pub count_one : ModelManager → ℕ → ModelSlot → ModelManager
count_one m addr slot = record m {
  store = set addr (record slot { in_flight = slot.in_flight + 1 }) m.store;
}

-- The address of the slot that the request holds from now on.
pub acquire : ModelManager → ℕ → Result (ModelManager × ℕ)
acquire m model_id = elim (current_slot m model_id) [
  | none ↦ err tensor_torrent_error
  | some (addr, slot) ↦
      if leb slot.concurrency_limit slot.in_flight
      then err tensor_torrent_error
      else ok (count_one m addr slot, addr)
]

-- The count goes down; a retired slot that becomes idle is closed.
pub drop_one : ModelManager → ℕ → ModelSlot → ModelManager
unfolding close_idle
drop_one m addr slot =
    let less = record slot { in_flight = slot.in_flight - 1 } in
    let counted = record m { store = set addr less m.store } in
    if slot.retired then close_idle counted addr less else counted

pub release_slot : ModelManager → ℕ → ModelManager
unfolding at drop_one
release_slot m addr = elim (at m addr) [
  | none ↦ m
  | some (a, slot) ↦ if leb slot.in_flight 0 then m else drop_one m a slot
]

-- The slot that `release` goes on to release, if any: the current one, unless it is retired.
pub release_target : ModelManager → ℕ → Option ℕ
release_target m model_id = elim (current_slot m model_id) [
  | none ↦ none
  | some (addr, slot) ↦ if slot.retired then none else some addr
]

pub heat : ModelManager → ℕ → ModelSlot → ModelManager
heat m addr slot = record m { store = set addr (record slot { warm = true }) m.store }

-- The last stretch of `warm`: the slot is marked if it is still the current one.
pub mark_warm : ModelManager → ℕ → ℕ → ModelManager
mark_warm m model_id addr = elim (current_slot m model_id) [
  | none ↦ m
  | some (current, slot) ↦ if current == addr then heat m current slot else m
]

-- The last loop of `shutdown`, over the addresses in `retired`.
pub sweep : ModelManager → List ℕ → ModelManager
unfolding end_unload
sweep m [] = m
sweep m (addr ∷ addrs) = sweep (end_unload m addr) addrs
