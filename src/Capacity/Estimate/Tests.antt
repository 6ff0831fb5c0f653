-- ===== src/Capacity/Estimate/Tests.antt =====
-- 60 bytes of state under a budget of 100, activations of 10, and a device that holds the state.
use tensor_torrent.Base.{◌+◌, ◌≤◌, ◌≡◌, refl, true, false, List, [], ◌∷◌, none, ok}
use tensor_torrent.Capacity.Ledger.{
  CapacityBudgets, CapacityLedger, explicit, max_concurrent, new_ledger,
}
use tensor_torrent.Capacity.Ledger.Concurrency.{}
use tensor_torrent.Capacity.Estimate.{
  Peak, activations, device_peak, host_peak, Footprint, RequestConfig, activation_of, device_of,
  host_of, estimate_request_capacity, build_module_capacity_ledger,
}
use tensor_torrent.Capacity.Estimate.Cover.{estimate_request_capacity-covers}

abbrev footprint : Footprint
footprint = record { state_bytes = 60; streaming = false; cpu_only = false; resident_device = 60 }

abbrev config : RequestConfig
config = record { region_cap = none; prefetch_distance = 1; activation_budget_bytes = none }

abbrev peaks : List Peak
peaks = activations 10 ∷ host_peak 72 ∷ device_peak 80 ∷ []

abbrev budgets : CapacityBudgets
budgets = record {
  host_bytes = 100;
  device_bytes = 200;
  disk_bytes = 0;
  host_source_kind = explicit;
  host_reflects_live_remaining = false;
}

-- 12 bytes on the host and 20 on the device for each request, out of 40 and 140.
abbrev ledger : CapacityLedger
ledger = record {
  budgets = record budgets { host_bytes = 40; device_bytes = 140 };
  per_request = record { host_bytes = 12; device_bytes = 20; disk_bytes = 0 };
  used_host = 0;
  used_device = 0;
  used_disk = 0;
  inflight = 0;
}

built : build_module_capacity_ledger budgets footprint config peaks ≡ ok ledger
unfolding build_module_capacity_ledger estimate_request_capacity new_ledger activation_of host_of
    device_of
built = refl

three : max_concurrent ledger ≡ 3
unfolding max_concurrent
three = refl

estimate_request_capacity-covers_example :
    let lease = estimate_request_capacity footprint config peaks in
    (activation_of peaks ≤ lease.host_bytes)
    × (host_of peaks ≤ 60 + lease.host_bytes)
    × (false ≡ true → lease.device_bytes ≡ 0)
    × (false ≡ false → device_of peaks ≤ 60 + lease.device_bytes)
estimate_request_capacity-covers_example = estimate_request_capacity-covers footprint config peaks
