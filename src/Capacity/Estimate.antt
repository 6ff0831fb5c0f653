-- ===== src/Capacity/Estimate.antt =====
-- The estimates of python/tensortorrent/runtime/capacity.py. A simulated peak is filed under what its
-- key says: activations, a device memory, or any other. What the footprint, the configuration and
-- compile/fit.py give stands in records; `region_cap` is the cap on a streamed region, from
-- `streaming_region_budget` or else from the program, if there is one.
pub mod Cover
mod Tests
use tensor_torrent.Base.{
  ℕ, ◌+◌, ◌-◌, ◌*◌, ◌/◌, max, Bool, true, false, ◌&&◌, ◌||◌, List, [], ◌∷◌, Option, none, some, ltb,
  ◌==◌, if◌then◌else◌, Result,
}
use tensor_torrent.Capacity.Ledger.{
  CapacityLease, CapacityBudgets, CapacityLedger, BudgetSourceKind, explicit, cgroup_v2, cgroup_v1,
  os_available, total_fallback, new_ledger,
}

pub data Peak : Type 0 where
  activations device_peak host_peak : (amount : ℕ) → Peak

-- `state_bytes, streaming, cpu_only, resident_device`.
pub record Footprint : Type 0 where
  pub state_bytes : ℕ
  pub streaming : Bool
  pub cpu_only : Bool
  pub resident_device : ℕ

pub record RequestConfig : Type 0 where
  pub region_cap : Option ℕ
  pub prefetch_distance : ℕ
  pub activation_budget_bytes : Option ℕ

abbrev pub host_budget_reflects_live_remaining : BudgetSourceKind → Bool
host_budget_reflects_live_remaining kind = elim kind [
  | os_available ↦ true
  | cgroup_v2 ↦ true
  | cgroup_v1 ↦ true
  | explicit ↦ false
  | total_fallback ↦ false
]

-- `peaks.get("activations", 0)`: a dict has the key once at most.
pub activation_of : List Peak → ℕ
activation_of [] = 0
activation_of (activations amount ∷ peaks) = amount
activation_of (device_peak amount ∷ peaks) = activation_of peaks
activation_of (host_peak amount ∷ peaks) = activation_of peaks

pub device_of : List Peak → ℕ
device_of [] = 0
device_of (device_peak amount ∷ peaks) = max amount (device_of peaks)
device_of (activations amount ∷ peaks) = device_of peaks
device_of (host_peak amount ∷ peaks) = device_of peaks

pub host_of : List Peak → ℕ
host_of [] = 0
host_of (host_peak amount ∷ peaks) = max amount (host_of peaks)
host_of (activations amount ∷ peaks) = host_of peaks
host_of (device_peak amount ∷ peaks) = host_of peaks

abbrev or_zero : Option ℕ → ℕ
or_zero none = 0
or_zero (some n) = n

window_of : RequestConfig → ℕ
window_of config = or_zero config.region_cap * (1 + config.prefetch_distance)

host_need : Footprint → RequestConfig → List Peak → ℕ
unfolding window_of
host_need f config peaks =
    let resident = max (activation_of peaks) (host_of peaks - f.state_bytes) in
    if f.streaming then max resident (window_of config) else resident

device_need : Footprint → List Peak → ℕ
device_need f peaks =
    let rest = max (activation_of peaks) (device_of peaks - f.resident_device) in
    let whole = if device_of peaks == 0 then activation_of peaks else device_of peaks in
    if f.cpu_only then 0 else if ltb 0 f.resident_device then rest else whole

disk_need : RequestConfig → List Peak → ℕ
disk_need config peaks = elim config.activation_budget_bytes [
  | none ↦ 0
  | some budget ↦ max (activation_of peaks) (budget / 8)
]

-- One byte for a lease that would be empty.
nonempty_lease : ℕ → ℕ → ℕ → CapacityLease
nonempty_lease host device disk = record {
  host_bytes = if (host == 0 && device == 0) && disk == 0 then 1 else host;
  device_bytes = device;
  disk_bytes = disk;
}

pub estimate_request_capacity : Footprint → RequestConfig → List Peak → CapacityLease
unfolding host_need device_need disk_need nonempty_lease
estimate_request_capacity f config peaks =
    nonempty_lease (host_need f config peaks) (device_need f peaks) (disk_need config peaks)

-- What is reserved once for the shared parameters.
pub base_of : CapacityBudgets → Footprint → CapacityLease
base_of budgets f = record {
  host_bytes = if f.streaming || budgets.host_reflects_live_remaining then 0 else f.state_bytes;
  device_bytes = f.resident_device;
  disk_bytes = 0;
}

-- The budgets are those of `resolve_capacity_budgets`.
pub build_module_capacity_ledger :
    CapacityBudgets → Footprint → RequestConfig → List Peak → Result CapacityLedger
unfolding base_of
build_module_capacity_ledger budgets f config peaks =
    new_ledger budgets (estimate_request_capacity f config peaks) (some (base_of budgets f))
