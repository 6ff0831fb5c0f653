-- ===== src/Hardware/Budget/Tests.antt =====
-- A host with 4 GiB free in a cgroup that leaves 1 GiB, and an explicit budget of 64 MiB.
use tensor_torrent.Base.{suc, min, ◌+◌, ◌*◌, ◌≤◌, ◌<◌, ◌≡◌, refl, none, some}
use tensor_torrent.Hardware.Budget.{
  HostMemory, mib, default_reserve, source_of, resolve_host_memory_budget,
  resolve_device_memory_budget,
}
use tensor_torrent.Hardware.Budget.Ceilings.{
  AtMostSome, source_of-least, resolve_host_memory_budget-allowed,
  resolve_device_memory_budget-allowed,
}

abbrev host : HostMemory
host = record {
  total = 8192 * mib;
  available = 4096 * mib;
  cgroup_v2_available = some (1024 * mib);
  cgroup_v1_available = none;
  reserve_env = none;
}

source_of-least_example :
    ((source_of none host).0 ≤ host.available)
    × AtMostSome (source_of none host).0 host.cgroup_v2_available
    × AtMostSome (source_of none host).0 host.cgroup_v1_available
source_of-least_example = source_of-least host

resolve_host_memory_budget-allowed_example :
    let raw = (source_of (some (64 * mib)) host).0 in
    let resolved = resolve_host_memory_budget (some (64 * mib)) none host in
    (128 * mib ≤ raw → resolved.allowed_bytes ≤ raw)
    × (128 * mib + resolved.reserved_bytes ≤ raw
        → resolved.allowed_bytes + resolved.reserved_bytes ≡ raw)
    × (raw < 128 * mib → raw < resolved.allowed_bytes)
resolve_host_memory_budget-allowed_example =
    resolve_host_memory_budget-allowed (some (64 * mib)) none host

-- 1000 bytes, 600 of them free, a headroom of 50, and an explicit budget of 700.
resolve_device_memory_budget-allowed_example :
    let with_free = resolve_device_memory_budget 1000 (some 600) none 50 in
    let without = resolve_device_memory_budget 1000 none none 50 in
    let given = resolve_device_memory_budget 1000 (some 600) (some 700) 50 in
    (with_free.allowed_bytes + min 50 600 ≡ 600)
    × (10 * 50 ≤ 9 * 1000
        → (10 * (without.allowed_bytes + 50) ≤ 9 * 1000)
          × (9 * 1000 < 10 * suc (without.allowed_bytes + 50)))
    × (9 * 1000 < 10 * 50 → without.allowed_bytes ≡ 0)
    × (without.allowed_bytes + without.reserved_bytes ≡ 1000)
    × (given.allowed_bytes ≡ 700)
    × (700 ≤ 1000 → given.allowed_bytes + given.reserved_bytes ≡ 1000)
resolve_device_memory_budget-allowed_example = resolve_device_memory_budget-allowed 1000 50 600 700

under_budget : (resolve_host_memory_budget (some (64 * mib)) none host).allowed_bytes ≡ 128 * mib
unfolding resolve_host_memory_budget source_of default_reserve
under_budget = refl
