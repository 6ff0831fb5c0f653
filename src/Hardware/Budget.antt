-- ===== src/Hardware/Budget.antt =====
-- python/tensortorrent/hardware/budget.py: the budgets of host and device memory. What is read from
-- cgroups, psutil and the environment is an argument; the detail texts are left out. The floats
-- `raw * 0.05` and `total * 0.9` are cut to integers, which gives the floor of the exact product
-- below 2^50 bytes.
pub mod Ceilings
mod Tests
use tensor_torrent.Base.{
  ℕ, ◌-◌, ◌*◌, ◌/◌, min, max, Bool, true, false, List, [], ◌∷◌, ◌++◌, Option, none, some, leb, ltb,
  if◌then◌else◌,
}
use tensor_torrent.Capacity.Ledger.{
  BudgetSourceKind, explicit, cgroup_v2, cgroup_v1, os_available, total_fallback,
}

pub record ResolvedBudget : Type 0 where
  pub total_bytes : ℕ
  pub allowed_bytes : ℕ
  pub reserved_bytes : ℕ
  pub source_kind : BudgetSourceKind
  pub noted : Bool

-- What the machine reports: `virtual_memory()`, and the cgroups' remaining bytes where they have a
-- limit. `reserve_env` is the environment's override, where it is a number.
pub record HostMemory : Type 0 where
  pub total : ℕ
  pub available : ℕ
  pub cgroup_v2_available : Option ℕ
  pub cgroup_v1_available : Option ℕ
  pub reserve_env : Option ℕ

abbrev pub mib : ℕ
mib = 1_048_576

pub default_reserve : Option ℕ → ℕ → ℕ
default_reserve (some override) raw = override
default_reserve none raw = max (256 * mib) (min (2048 * mib) (raw / 20))

abbrev pub reserve_of : Option ℕ → HostMemory → ℕ → ℕ
reserve_of (some reserve) host raw = reserve
reserve_of none host raw = default_reserve host.reserve_env raw

abbrev candidate : Option ℕ → BudgetSourceKind → List (ℕ × BudgetSourceKind)
candidate none kind = []
candidate (some available) kind = (available, kind) ∷ []

-- `min(candidates, key=…)`: the first of the least. The operating system's is the last candidate,
-- so there is always one.
least : List (ℕ × BudgetSourceKind) → ℕ × BudgetSourceKind → ℕ × BudgetSourceKind
least [] last = last
least (c ∷ cs) last =
    let (other, kind) = least cs last in if leb c.0 other then c else (other, kind)

pub source_of : Option ℕ → HostMemory → ℕ × BudgetSourceKind
unfolding least
source_of (some bytes) host = (bytes, explicit)
source_of none host =
    least
      (candidate host.cgroup_v2_available cgroup_v2 ++ candidate host.cgroup_v1_available cgroup_v1)
      (host.available, os_available)

pub resolve_host_memory_budget : Option ℕ → Option ℕ → HostMemory → ResolvedBudget
resolve_host_memory_budget budget reserve host =
    let (raw, kind) = source_of budget host in
    let reserved = reserve_of reserve host raw in
    record {
      total_bytes = host.total;
      allowed_bytes = max (128 * mib) (raw - reserved);
      reserved_bytes = reserved;
      source_kind = kind;
      noted = false;
    }

pub resolve_device_memory_budget : ℕ → Option ℕ → Option ℕ → ℕ → ResolvedBudget
resolve_device_memory_budget total free (some budget) headroom = record {
  total_bytes = total;
  allowed_bytes = budget;
  reserved_bytes = total - budget;
  source_kind = explicit;
  noted = false;
}
resolve_device_memory_budget total (some free) none headroom = record {
  total_bytes = total;
  allowed_bytes = free - headroom;
  reserved_bytes = headroom;
  source_kind = os_available;
  noted = false;
}
resolve_device_memory_budget total none none headroom = record {
  total_bytes = total;
  allowed_bytes = total * 9 / 10 - headroom;
  reserved_bytes = total - (total * 9 / 10 - headroom);
  source_kind = total_fallback;
  noted = true;
}

-- `disabled` says that the environment turns the floor off.
pub vram_capacity_floor_bytes : Bool → ℕ → ℕ → ℕ
vram_capacity_floor_bytes true total headroom = 0
vram_capacity_floor_bytes false total headroom = total - headroom

pub default_vram_headroom_bytes : Option ℕ → Bool → ℕ
default_vram_headroom_bytes (some override) display = override
default_vram_headroom_bytes none true = 768 * mib
default_vram_headroom_bytes none false = 256 * mib
