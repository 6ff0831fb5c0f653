-- ===== src/Capacity/Ledger/Tests.antt =====
-- The ledger on small numbers, and the theorems at inputs where their hypotheses hold.
use tensor_torrent.Base.{
  ℕ, ◌+◌, ◌≤◌, min, ◌≡◌, ◌≢◌, refl, true, false, List, [], ◌∷◌, none, some, arith, Result, ok, err,
  runtime_plan_error, memory_capacity_error, ◌⊎◌,
}
use tensor_torrent.Capacity.Ledger.{
  CapacityLease, CapacityBudgets, CapacityLedger, explicit, idle_ledger, new_ledger, max_concurrent,
  try_acquire, release, no_lease,
}
use tensor_torrent.Capacity.Ledger.Accounting.{
  Call, acquires, releases, run, Holds, Fits, IsWithin, new_ledger_reserves, run_within_budgets,
  try_acquire_decides, release-try_acquire,
}
use tensor_torrent.Capacity.Ledger.Concurrency.{granted, granted-eq-max_concurrent}

abbrev lease : ℕ → ℕ → ℕ → CapacityLease
lease host device disk = record { host_bytes = host; device_bytes = device; disk_bytes = disk }

abbrev budgets : CapacityBudgets
budgets = record {
  host_bytes = 100;
  device_bytes = 50;
  disk_bytes = 0;
  host_source_kind = explicit;
  host_reflects_live_remaining = false;
}

-- 100 host bytes less 40 for the shared parameters, 50 device bytes less 10; 20 and 20 per request.
ledger : CapacityLedger
unfolding idle_ledger
ledger = idle_ledger budgets (lease 20 20 0) (lease 40 10 0)

new_ledger-budgets : new_ledger budgets (lease 20 20 0) (some (lease 40 10 0)) ≡ ok ledger
unfolding new_ledger ledger
new_ledger-budgets = refl

new_ledger-too_small : new_ledger budgets no_lease (some (lease 0 51 0)) ≡ err memory_capacity_error
unfolding new_ledger
new_ledger-too_small = refl

max_concurrent-ledger : max_concurrent ledger ≡ 2
unfolding max_concurrent ledger
max_concurrent-ledger = refl

release-nothing : release ledger none ≡ err runtime_plan_error
unfolding release ledger
release-nothing = refl

-- The check of `release` sees the totals alone: a lease that was never acquired can be released
-- while a greater one is out.
after_unmatched : Result CapacityLedger
after_unmatched = release (try_acquire ledger none).0 (some (lease 15 0 0))

release-unmatched : after_unmatched ≢ err runtime_plan_error
unfolding after_unmatched release try_acquire ledger
release-unmatched = λ e. cc

idle-Holds : Holds [] ledger
unfolding ledger
idle-Holds = record { host = refl; device = refl; disk = refl; count = refl }

idle-IsWithin : IsWithin ledger
unfolding ledger
idle-IsWithin = record { host = omega arith; device = omega arith; disk = omega arith }

new_ledger_reserves_example :
    ((new_ledger budgets (lease 20 20 0) (some (lease 40 10 0)) ≡ err memory_capacity_error)
      × (¬ Fits budgets [] (lease 40 10 0)))
    ⊎ ((l : CapacityLedger) × (new_ledger budgets (lease 20 20 0) (some (lease 40 10 0)) ≡ ok l)
        × (l.budgets.host_bytes + 40 ≡ 100)
        × (l.budgets.device_bytes + 10 ≡ 50)
        × (l.budgets.disk_bytes + 0 ≡ 0)
        × (l.inflight ≡ 0))
new_ledger_reserves_example = new_ledger_reserves budgets (lease 20 20 0) (some (lease 40 10 0))

abbrev calls : List Call
calls = acquires none ∷ releases (some (lease 5 0 0)) ∷ acquires none ∷ acquires none ∷ []

run_within_budgets_example :
    (40 + (run ledger calls).used_host ≤ 100)
    × (10 + (run ledger calls).used_device ≤ 50)
    × (0 + (run ledger calls).used_disk ≤ 0)
run_within_budgets_example =
    run_within_budgets budgets (lease 20 20 0) (some (lease 40 10 0)) calls new_ledger-budgets

try_acquire_decides_example :
    (Fits ledger.budgets [] (lease 20 60 0)
      × ((try_acquire ledger (some (lease 20 60 0))).1 ≡ true)
      × Holds (lease 20 60 0 ∷ []) (try_acquire ledger (some (lease 20 60 0))).0)
    ⊎ ((¬ Fits ledger.budgets [] (lease 20 60 0))
        × (try_acquire ledger (some (lease 20 60 0)) ≡ (ledger, false)))
try_acquire_decides_example =
    try_acquire_decides ledger (some (lease 20 60 0)) [] idle-Holds idle-IsWithin

-- Two leases are out, and the older one comes back.
busy : CapacityLedger
unfolding ledger
busy = record ledger { used_host = 27; used_device = 20; inflight = 2 }

busy-Holds : Holds (lease 7 0 0 ∷ lease 20 20 0 ∷ []) busy
unfolding busy
busy-Holds = record { host = refl; device = refl; disk = refl; count = refl }

release-try_acquire_example : release (try_acquire busy none).0 none ≡ ok busy
unfolding try_acquire busy
release-try_acquire_example = release-try_acquire busy none refl

granted-eq-max_concurrent_example : granted 7 ledger ≡ min 7 (max_concurrent ledger)
granted-eq-max_concurrent_example =
    granted-eq-max_concurrent 7 budgets (lease 20 20 0) (some (lease 40 10 0)) (omega arith)
      new_ledger-budgets
