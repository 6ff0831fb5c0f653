-- ===== src/Hardware/Budget/Ceilings.antt =====
-- How the allowed bytes compare with what there is.
use tensor_torrent.Base.{
  ℕ, suc, ◌+◌, ◌*◌, ◌≤◌, ◌<◌, ◌≡◌, refl, min, ◌++◌, Option, none, some, arith,
}
use tensor_torrent.Capacity.Ledger.{cgroup_v2, cgroup_v1, os_available}
use tensor_torrent.Hardware.Budget.{
  HostMemory, mib, candidate, least, source_of, resolve_host_memory_budget,
  resolve_device_memory_budget,
}

abbrev pub AtMostSome : ℕ → Option ℕ → Type 0
AtMostSome n none = Unit {0}
AtMostSome n (some m) = n ≤ m

least-candidates :
    (a b : Option ℕ) (n : ℕ)
    → let raw = (least (candidate a cgroup_v2 ++ candidate b cgroup_v1) (n, os_available)).0 in
      (raw ≤ n) × AtMostSome raw a × AtMostSome raw b
unfolding least
least-candidates none none n = (omega arith, tt, tt)
least-candidates none (some b) n = (ground arith, tt, ground arith)
least-candidates (some a) none n = (ground arith, ground arith, tt)
least-candidates (some a) (some b) n = (ground arith, ground arith, ground arith)

-- Without an explicit budget the host's is taken from no more than the operating system and each
-- cgroup with a limit leave.
pub source_of-least :
    (host : HostMemory)
    → ((source_of none host).0 ≤ host.available)
      × AtMostSome (source_of none host).0 host.cgroup_v2_available
      × AtMostSome (source_of none host).0 host.cgroup_v1_available
unfolding source_of
source_of-least host =
    least-candidates host.cgroup_v2_available host.cgroup_v1_available host.available

-- What a host budget is taken from is never exceeded if it is at least 128 MiB, and it is used up
-- with the reserve if 128 MiB are left beside that; below 128 MiB it is exceeded.
pub resolve_host_memory_budget-allowed :
    (budget reserve : Option ℕ) (host : HostMemory)
    → let raw = (source_of budget host).0 in
      let resolved = resolve_host_memory_budget budget reserve host in
      (128 * mib ≤ raw → resolved.allowed_bytes ≤ raw)
      × (128 * mib + resolved.reserved_bytes ≤ raw
          → resolved.allowed_bytes + resolved.reserved_bytes ≡ raw)
      × (raw < 128 * mib → raw < resolved.allowed_bytes)
unfolding resolve_host_memory_budget
resolve_host_memory_budget-allowed budget reserve host =
    (λ h. ground arith, λ h. ground arith, λ h. ground arith)

-- A device budget leaves what it does not allow: of the free bytes the headroom, or all of them where
-- they are less than it; without free bytes a tenth of the total and the headroom, to the byte, where
-- nine tenths have room for it, and else everything. An explicit budget is allowed as it is, whatever
-- the headroom. Where the free bytes are not known, or the budget is explicit and within the total,
-- what is allowed and what is reserved make up the total.
pub resolve_device_memory_budget-allowed :
    (total headroom free budget : ℕ)
    → let with_free = resolve_device_memory_budget total (some free) none headroom in
      let without = resolve_device_memory_budget total none none headroom in
      let given = resolve_device_memory_budget total (some free) (some budget) headroom in
      (with_free.allowed_bytes + min headroom free ≡ free)
      × (10 * headroom ≤ 9 * total
          → (10 * (without.allowed_bytes + headroom) ≤ 9 * total)
            × (9 * total < 10 * suc (without.allowed_bytes + headroom)))
      × (9 * total < 10 * headroom → without.allowed_bytes ≡ 0)
      × (without.allowed_bytes + without.reserved_bytes ≡ total)
      × (given.allowed_bytes ≡ budget)
      × (budget ≤ total → given.allowed_bytes + given.reserved_bytes ≡ total)
unfolding resolve_device_memory_budget
resolve_device_memory_budget-allowed total headroom free budget = (
  ground arith,
  λ h. (omega arith, omega arith),
  λ h. omega arith,
  omega arith,
  refl,
  λ h. omega arith,
)
