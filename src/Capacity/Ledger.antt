-- ===== src/Capacity/Ledger.antt =====
-- `CapacityLease`, `CapacityBudgets` and `CapacityLedger` of python/tensortorrent/runtime/capacity.py.
mod Tests
pub mod Accounting
pub mod Concurrency
use tensor_torrent.Base.{
  ℕ, ◌+◌, ◌-◌, ◌/◌, min, Bool, true, false, ◌&&◌, ◌||◌, List, [], ◌∷◌, Option, none, some, ltb, leb,
  if◌then◌else◌, Result, ok, err, raise_if, ◌>>◌, memory_capacity_error, runtime_plan_error,
  tensor_torrent_error,
}

pub record CapacityLease : Type 0 where
  pub host_bytes : ℕ
  pub device_bytes : ℕ
  pub disk_bytes : ℕ

pub data BudgetSourceKind : Type 0 where
  explicit cgroup_v2 cgroup_v1 os_available total_fallback : BudgetSourceKind

pub record CapacityBudgets : Type 0 where
  pub host_bytes : ℕ
  pub device_bytes : ℕ
  pub disk_bytes : ℕ
  pub host_source_kind : BudgetSourceKind
  pub host_reflects_live_remaining : Bool

pub record CapacityLedger : Type 0 where
  pub budgets : CapacityBudgets
  pub per_request : CapacityLease
  pub used_host : ℕ
  pub used_device : ℕ
  pub used_disk : ℕ
  pub inflight : ℕ

abbrev pub no_lease : CapacityLease
no_lease = record { host_bytes = 0; device_bytes = 0; disk_bytes = 0 }

-- The loop over the three resources: the first reservation beyond its budget raises.
reserve : CapacityBudgets → CapacityLease → Result (Unit {0})
reserve budgets base = do
  raise_if (ltb budgets.host_bytes base.host_bytes) memory_capacity_error
  raise_if (ltb budgets.device_bytes base.device_bytes) memory_capacity_error
  raise_if (ltb budgets.disk_bytes base.disk_bytes) memory_capacity_error

abbrev or_no_lease : Option CapacityLease → CapacityLease
or_no_lease none = no_lease
or_no_lease (some base) = base

-- The attributes that `__init__` sets: the budgets less the shared reservation, and no lease out.
idle_ledger : CapacityBudgets → CapacityLease → CapacityLease → CapacityLedger
idle_ledger budgets per_request base = record {
  budgets = record budgets {
    host_bytes = budgets.host_bytes - base.host_bytes;
    device_bytes = budgets.device_bytes - base.device_bytes;
    disk_bytes = budgets.disk_bytes - base.disk_bytes;
  };
  per_request = per_request;
  used_host = 0;
  used_device = 0;
  used_disk = 0;
  inflight = 0;
}

-- `CapacityLedger.__init__`.
unfoldable pub new_ledger :
    CapacityBudgets → CapacityLease → Option CapacityLease → Result CapacityLedger
unfolding reserve idle_ledger
new_ledger budgets per_request base = do
  reserve budgets (or_no_lease base)
  ok (idle_ledger budgets per_request (or_no_lease base))

abbrev pub or_per_request : CapacityLedger → Option CapacityLease → CapacityLease
or_per_request l none = l.per_request
or_per_request l (some lease) = lease

-- The quotient of one resource, where the lease needs it.
limit_of : ℕ → ℕ → List ℕ → List ℕ
limit_of budget need limits = if ltb 0 need then (budget / need) ∷ limits else limits

-- `max(0, min(limits))`, and `1 << 30` for no limit.
least_limit : List ℕ → ℕ
least_limit [] = 1_073_741_824
least_limit (x ∷ []) = x
least_limit (x ∷ y ∷ rest) = min x (least_limit (y ∷ rest))

limits : CapacityBudgets → CapacityLease → List ℕ
unfolding limit_of
limits budgets need = limit_of budgets.host_bytes need.host_bytes (
    limit_of budgets.device_bytes need.device_bytes
      (limit_of budgets.disk_bytes need.disk_bytes []))

unfoldable pub max_concurrent : CapacityLedger → ℕ
unfolding limits least_limit
max_concurrent l = least_limit (limits l.budgets l.per_request)

-- The three early returns of `try_acquire`.
refuses : CapacityLedger → CapacityLease → Bool
refuses l lease =
    ltb l.budgets.host_bytes (l.used_host + lease.host_bytes)
    || ((ltb 0 lease.device_bytes
          && ltb l.budgets.device_bytes (l.used_device + lease.device_bytes))
        || (ltb 0 lease.disk_bytes && ltb l.budgets.disk_bytes (l.used_disk + lease.disk_bytes)))

charge : CapacityLedger → CapacityLease → CapacityLedger
charge l lease = record l {
  used_host = l.used_host + lease.host_bytes;
  used_device = l.used_device + lease.device_bytes;
  used_disk = l.used_disk + lease.disk_bytes;
  inflight = l.inflight + 1;
}

pub try_acquire : CapacityLedger → Option CapacityLease → CapacityLedger × Bool
unfolding refuses charge
try_acquire l need =
    let lease = or_per_request l need in
    if refuses l lease then (l, false) else (charge l lease, true)

pub release : CapacityLedger → Option CapacityLease → Result CapacityLedger
release l need =
    let lease = or_per_request l need in
    do
      raise_if
          ((leb l.inflight 0 || ltb l.used_host lease.host_bytes)
            || (ltb l.used_device lease.device_bytes || ltb l.used_disk lease.disk_bytes))
          runtime_plan_error
      ok (record l {
        used_host = l.used_host - lease.host_bytes;
        used_device = l.used_device - lease.device_bytes;
        used_disk = l.used_disk - lease.disk_bytes;
        inflight = l.inflight - 1;
      })

-- The new ledger, and what the call returned or raised.
pub acquire_or_raise : CapacityLedger → Option CapacityLease → CapacityLedger × Result (Unit {0})
acquire_or_raise l need =
    let (l', done) = try_acquire l need in (l', if done then ok tt else err tensor_torrent_error)
