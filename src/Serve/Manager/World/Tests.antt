-- ===== src/Serve/Manager/World/Tests.antt =====
-- A history: model 7 is loaded, acquired twice, replaced by a new generation, and the requests end.
use tensor_torrent.Base.{
  arith, ℕ, ◌≤◌, ◌≡◌, refl, true, false, Bool, List, [], ◌∷◌, some, elem, count, erase,
}
use tensor_torrent.Base.Dict.{get, set, remove}
use tensor_torrent.Capacity.Ledger.{CapacityLedger, explicit, max_concurrent}
use tensor_torrent.Serve.Manager.{
  ModelSlot, new_manager, close_idle, close, retire_slot, retire_old, publish, fresh_slot,
  count_one, at, load, acquire, begin_unload, end_unload, current_slot,
}
use tensor_torrent.Serve.Manager.World.{Event, step, loads, begins_unload, ends_unload, acquires}
use tensor_torrent.Serve.Manager.World.Histories.{
  no_calls, run, in_flight-run, close-run, retired-run, current_slot-run,
}
use tensor_torrent.Serve.Manager.World.Doubles.{release_times, release_times-run}

abbrev ledger : CapacityLedger
ledger = record {
  budgets = record {
    host_bytes = 100;
    device_bytes = 0;
    disk_bytes = 0;
    host_source_kind = explicit;
    host_reflects_live_remaining = false;
  };
  per_request = record { host_bytes = 10; device_bytes = 0; disk_bytes = 0 };
  used_host = 0;
  used_device = 0;
  used_disk = 0;
  inflight = 0;
}

abbrev replaced : List Event
replaced = loads 7 50 ledger 3 100 ∷ acquires 7 ∷ acquires 7 ∷ loads 7 51 ledger 2 200 ∷ []

abbrev slot_of : ℕ → ℕ → ℕ → ℕ → Bool → Bool → ModelSlot
slot_of version compiled_module limit in_flight retired closed = record {
  model_id = 7;
  version = version;
  compiled_module = compiled_module;
  ledger = ledger;
  warm = false;
  concurrency_limit = limit;
  in_flight = in_flight;
  retired = retired;
  closed = closed;
}

abbrev old_slot : ModelSlot
old_slot = slot_of 100 50 3 2 true false

replaced-old : get 0 (run no_calls replaced).manager.store ≡ some old_slot
unfolding run step get set load current_slot acquire retire_old publish fresh_slot count_one
    max_concurrent at new_manager
replaced-old = refl

in_flight-run_example : (2 ≡ count 0 (run no_calls replaced).held) × (2 ≤ 3)
in_flight-run_example = in_flight-run replaced 0 replaced-old

close-run_example :
    (elem 0 (run no_calls replaced).held ≡ true → false ≡ false)
    × (count 0 (run no_calls replaced).manager.closes ≡ 0)
close-run_example = close-run replaced 0 replaced-old

-- An idle model is unloaded, and the drain is over.
abbrev unloaded : List Event
unloaded = loads 7 50 ledger 3 100 ∷ begins_unload 7 ∷ ends_unload 0 ∷ []

unloaded-slot : get 0 (run no_calls unloaded).manager.store ≡ some (slot_of 100 50 3 0 true true)
unfolding run step get set remove load current_slot begin_unload end_unload close_idle close
    retire_slot retire_old publish fresh_slot max_concurrent at new_manager
unloaded-slot = refl

retired-run_example : (slot_of 100 50 3 0 true true).closed ≡ true
unfolding run step get set remove load current_slot begin_unload end_unload close_idle close
    retire_slot retire_old publish fresh_slot max_concurrent at new_manager erase
retired-run_example = retired-run unloaded 0 unloaded-slot refl refl refl

replaced-current :
    current_slot (run no_calls replaced).manager 7 ≡ some (1, slot_of 200 51 2 0 false false)
unfolding run step get set load current_slot acquire retire_old publish fresh_slot count_one
    max_concurrent at new_manager
replaced-current = refl

current_slot-run_example :
    ((slot_of 200 51 2 0 false false).model_id ≡ 7) × (false ≡ false) × (false ≡ false)
current_slot-run_example = current_slot-run replaced 7 replaced-current

release_times-run_example :
    (release_times 2 (run no_calls replaced).manager 0).closes
    ≡ 0 ∷ (run no_calls replaced).manager.closes
unfolding run step get set load current_slot acquire retire_old publish fresh_slot count_one
    max_concurrent at new_manager
release_times-run_example = release_times-run replaced 0 replaced-old refl (omega arith) 2

-- A module that is loaded again is closed for the idle generation that it replaces, and it is the
-- module of the new one.
abbrev reloaded : List Event
reloaded = loads 7 50 ledger 3 100 ∷ loads 7 50 ledger 3 200 ∷ []

reloaded-closes :
    (get 0 (run no_calls reloaded).manager.store ≡ some (slot_of 100 50 3 0 true true))
    × ((run no_calls reloaded).manager.closes ≡ 0 ∷ [])
    × (current_slot (run no_calls reloaded).manager 7 ≡ some (1, slot_of 200 50 3 0 false false))
unfolding run step get set load current_slot retire_old publish fresh_slot close max_concurrent at
    new_manager
reloaded-closes = (refl, refl, refl)
