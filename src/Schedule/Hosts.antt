-- ===== src/Schedule/Hosts.antt =====
-- The helpers of python/tensortorrent/runtime/schedule/build.py that say where a load goes. What they
-- ask of a resource's text is in `Letters`; the machine is its dict of memories, in order.
use tensor_torrent.Base.{
  ℕ, Bool, true, false, ◌&&◌, ◌||◌, [], ◌∷◌, Option, none, some, leb, not, if◌then◌else◌,
}
use tensor_torrent.Base.Dict.{Dict, get}
use tensor_torrent.Schedule.{
  MemoryTier, on_disk, system_ram, pinned_ram, numa_ram, on_device, unknown, TransferBackend,
  disk_pread, device_p2p_or_host_staged, host_device_copy, host_memcpy,
}

-- Tests on a resource's text, in lower letters where the code lowers them: "disk", "nvme" or "pack" in
-- it; "pinned" in it; `is_device_resource`; `is_host_resource`; its backend's id is "cpu"; it starts
-- with "numa_ram". `cpu` is the text "cpu".
pub record Letters : Type 0 where
  pub names_disk : ℕ → Bool
  pub names_pinned : ℕ → Bool
  pub is_device_resource : ℕ → Bool
  pub is_host_resource : ℕ → Bool
  pub is_cpu_backend : ℕ → Bool
  pub starts_with_numa_ram : ℕ → Bool
  pub cpu : ℕ

pub data MemoryClass : Type 0 where
  pinned_host_class numa_ram_class system_ram_class other_class : MemoryClass

pub record Memory : Type 0 where
  pub memory_class : MemoryClass
  pub allocatable_bytes : ℕ

abbrev pub Machine : Type 0
Machine = Option (Dict Memory)

unfoldable pub tier_for_device : Letters → ℕ → MemoryTier
tier_for_device letters name =
    if letters.names_disk name
    then on_disk
    else if letters.names_pinned name
    then pinned_ram
    else if letters.is_device_resource name
    then on_device
    else if letters.is_host_resource name
    then system_ram
    else if letters.is_cpu_backend name
    then unknown
    else on_device

abbrev pub is_tier_disk : MemoryTier → Bool
is_tier_disk on_disk = true
is_tier_disk system_ram = false
is_tier_disk pinned_ram = false
is_tier_disk numa_ram = false
is_tier_disk on_device = false
is_tier_disk unknown = false

abbrev pub is_tier_device : MemoryTier → Bool
is_tier_device on_disk = false
is_tier_device system_ram = false
is_tier_device pinned_ram = false
is_tier_device numa_ram = false
is_tier_device on_device = true
is_tier_device unknown = false

unfoldable pub transfer_backend : Letters → (src dst : ℕ) → TransferBackend
unfolding tier_for_device
transfer_backend letters src dst =
    let src_tier = tier_for_device letters src in
    let dst_tier = tier_for_device letters dst in
    if is_tier_disk src_tier || is_tier_disk dst_tier
    then disk_pread
    else if is_tier_device src_tier && is_tier_device dst_tier
    then device_p2p_or_host_staged
    else if is_tier_device src_tier || is_tier_device dst_tier
    then host_device_copy
    else host_memcpy

abbrev is_pinned_class : MemoryClass → Bool
is_pinned_class pinned_host_class = true
is_pinned_class numa_ram_class = false
is_pinned_class system_ram_class = false
is_pinned_class other_class = false

abbrev is_ram_class : MemoryClass → Bool
is_ram_class pinned_host_class = false
is_ram_class numa_ram_class = true
is_ram_class system_ram_class = true
is_ram_class other_class = false

abbrev memories_of : Machine → Dict Memory
memories_of none = []
memories_of (some memories) = memories

unfoldable pub first_pinned_in : Letters → Dict Memory → Option ℕ
first_pinned_in letters [] = none
first_pinned_in letters ((name, mem) ∷ memories) =
    let later = first_pinned_in letters memories in
    if is_pinned_class mem.memory_class || letters.names_pinned name then some name else later

unfoldable pub first_pinned_host : Letters → Machine → Option ℕ
unfolding first_pinned_in
first_pinned_host letters machine = first_pinned_in letters (memories_of machine)

unfoldable pub first_numa_in : Letters → Dict Memory → Option ℕ
first_numa_in letters [] = none
first_numa_in letters ((name, mem) ∷ memories) =
    let later = first_numa_in letters memories in
    if is_ram_class mem.memory_class || letters.starts_with_numa_ram name then some name else later

unfoldable pub first_numa_host : Letters → Machine → Option ℕ
unfolding first_numa_in
first_numa_host letters machine = first_numa_in letters (memories_of machine)

unfoldable pub memory_allocatable_bytes : Machine → ℕ → Option ℕ
memory_allocatable_bytes machine name = elim (get name (memories_of machine)) [
  | none ↦ none
  | some mem ↦ some mem.allocatable_bytes
]

-- The inner function `_pageable`.
unfoldable pub pageable : Letters → Machine → ℕ × MemoryTier
unfolding first_numa_host
pageable letters machine = elim (first_numa_host letters machine) [
  | some numa ↦ (numa, system_ram)
  | none ↦ (letters.cpu, system_ram)
]

-- `cap is None or need <= 0 or need <= int(cap)`.
abbrev has_room : Option ℕ → ℕ → Bool
has_room none need = true
has_room (some cap) need = leb need 0 || leb need cap

unfoldable pub load_host_for_destination :
    Letters → Machine → (dest nbytes : ℕ) → (force_pageable : Bool) → ℕ × MemoryTier
unfolding tier_for_device pageable first_pinned_host memory_allocatable_bytes
load_host_for_destination letters machine dest nbytes force_pageable =
    let tier = tier_for_device letters dest in
    if not (is_tier_device tier)
    then (dest, tier)
    else if force_pageable
    then pageable letters machine
    else elim (first_pinned_host letters machine) [
      | none ↦ pageable letters machine
      | some pinned ↦
          if has_room (memory_allocatable_bytes machine pinned) nbytes
          then (pinned, pinned_ram)
          else pageable letters machine
    ]
