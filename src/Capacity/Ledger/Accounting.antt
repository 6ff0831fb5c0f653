-- ===== src/Capacity/Ledger/Accounting.antt =====
-- The ledger against its specification: the list of the leases that are out.
use tensor_torrent.Base.{
  ℕ, suc, ◌+◌, ◌-◌, ◌≤◌, ◌≡◌, refl, ◌∙◌, ◌⊎◌, inl, inr, true, false, List, [], ◌∷◌, ◌++◌, Option,
  some, arith, length, Result, ok, err, tensor_torrent_error, memory_capacity_error,
}
use tensor_torrent.Capacity.Ledger.{
  CapacityLease, CapacityBudgets, CapacityLedger, or_no_lease, or_per_request, new_ledger,
  try_acquire, release, acquire_or_raise, idle_ledger,
}

-- What the leases of a list take together.
abbrev pub host_total : List CapacityLease → ℕ
host_total [] = 0
host_total (lease ∷ held) = lease.host_bytes + host_total held

abbrev pub device_total : List CapacityLease → ℕ
device_total [] = 0
device_total (lease ∷ held) = lease.device_bytes + device_total held

abbrev pub disk_total : List CapacityLease → ℕ
disk_total [] = 0
disk_total (lease ∷ held) = lease.disk_bytes + disk_total held

-- The ledger's counters are those of the leases that are out.
pub record Holds (held : List CapacityLease) (l : CapacityLedger) : Type 0 where
  pub host : l.used_host ≡ host_total held
  pub device : l.used_device ≡ device_total held
  pub disk : l.used_disk ≡ disk_total held
  pub count : l.inflight ≡ length held

-- The counters stay within the budgets.
pub record IsWithin (l : CapacityLedger) : Type 0 where
  pub host : l.used_host ≤ l.budgets.host_bytes
  pub device : l.used_device ≤ l.budgets.device_bytes
  pub disk : l.used_disk ≤ l.budgets.disk_bytes

-- One more lease fits beside the leases that are out.
abbrev pub Fits : CapacityBudgets → List CapacityLease → CapacityLease → Type 0
Fits budgets held lease =
    (host_total held + lease.host_bytes ≤ budgets.host_bytes)
    × (device_total held + lease.device_bytes ≤ budgets.device_bytes)
    × (disk_total held + lease.disk_bytes ≤ budgets.disk_bytes)

-- A call on the ledger: the lease that it acquires or releases.
pub data Call : Type 0 where
  acquires : Option CapacityLease → Call
  releases : Option CapacityLease → Call

abbrev after : CapacityLedger → Result CapacityLedger → CapacityLedger
after l (ok l') = l'
after l (err e) = l

-- The state after a call; a call that raises leaves it alone.
pub step : CapacityLedger → Call → CapacityLedger
step l (acquires need) = (try_acquire l need).0
step l (releases need) = after l (release l need)

pub run : CapacityLedger → List Call → CapacityLedger
run l [] = l
run l (c ∷ cs) = run (step l c) cs

Fits-cases :
    (budgets : CapacityBudgets) (held : List CapacityLease) (lease : CapacityLease)
    → Fits budgets held lease ⊎ (¬ Fits budgets held lease)
Fits-cases budgets held lease = ground arith

-- A lease among others in the totals.
totals_middle :
    (before rest : List CapacityLease) (lease : CapacityLease)
    → (host_total (before ++ lease ∷ rest) ≡ lease.host_bytes + host_total (before ++ rest))
      × (device_total (before ++ lease ∷ rest) ≡ lease.device_bytes + device_total (before ++ rest))
      × (disk_total (before ++ lease ∷ rest) ≡ lease.disk_bytes + disk_total (before ++ rest))
      × (length (before ++ lease ∷ rest) ≡ suc (length (before ++ rest)))
totals_middle [] rest lease = omega arith
totals_middle (x ∷ before) rest lease = omega (arith, totals_middle before rest lease)

pub new_ledger-Holds :
    (budgets : CapacityBudgets) (per_request : CapacityLease) (base : Option CapacityLease)
    {l : CapacityLedger}
    → new_ledger budgets per_request base ≡ ok l
    → Holds [] l × IsWithin l
unfolding new_ledger
new_ledger-Holds budgets per_request base h = ground arith

-- The constructor raises MemoryCapacityError exactly when the base reservation does not fit the
-- budgets; otherwise what is left and the reservation make up the budgets.
pub new_ledger_reserves :
    (budgets : CapacityBudgets) (per_request : CapacityLease) (base : Option CapacityLease)
    → ((new_ledger budgets per_request base ≡ err memory_capacity_error)
        × (¬ Fits budgets [] (or_no_lease base)))
      ⊎ ((l : CapacityLedger) × (new_ledger budgets per_request base ≡ ok l)
          × (l.budgets.host_bytes + (or_no_lease base).host_bytes ≡ budgets.host_bytes)
          × (l.budgets.device_bytes + (or_no_lease base).device_bytes ≡ budgets.device_bytes)
          × (l.budgets.disk_bytes + (or_no_lease base).disk_bytes ≡ budgets.disk_bytes)
          × (l.inflight ≡ 0))
unfolding new_ledger
new_ledger_reserves budgets per_request base = elim (Fits-cases budgets [] (or_no_lease base)) [
  | inl fits ↦ inr (
    idle_ledger budgets per_request (or_no_lease base),
    ground arith,
    omega arith,
    omega arith,
    omega arith,
    refl,
  )
  | inr not_fits ↦ inl (ground arith, not_fits)
]

pub try_acquire-IsWithin :
    (l : CapacityLedger) (need : Option CapacityLease)
    → IsWithin l
    → IsWithin (try_acquire l need).0
unfolding try_acquire
try_acquire-IsWithin l need w = ground arith

step-IsWithin : (l : CapacityLedger) (c : Call) → IsWithin l → IsWithin (step l c)
unfolding step release
step-IsWithin l (acquires need) w = try_acquire-IsWithin l need w
step-IsWithin l (releases need) w = ground arith

budgets-step : (l : CapacityLedger) (c : Call) → (step l c).budgets ≡ l.budgets
unfolding step try_acquire release
budgets-step l (acquires need) = ground arith
budgets-step l (releases need) = ground arith

run-IsWithin : (l : CapacityLedger) (cs : List Call) → IsWithin l → IsWithin (run l cs)
unfolding run
run-IsWithin l [] w = w
run-IsWithin l (c ∷ cs) w = run-IsWithin (step l c) cs (step-IsWithin l c w)

budgets-run : (l : CapacityLedger) (cs : List Call) → (run l cs).budgets ≡ l.budgets
unfolding run
budgets-run l [] = refl
budgets-run l (c ∷ cs) = budgets-run (step l c) cs ∙ budgets-step l c

-- Whatever is acquired and released after the construction, matched or not, the base reservation
-- and the bytes charged to the requests stay within the resolved budgets.
pub run_within_budgets :
    (budgets : CapacityBudgets) (per_request : CapacityLease) (base : Option CapacityLease)
    (cs : List Call) {l : CapacityLedger}
    → new_ledger budgets per_request base ≡ ok l
    → ((or_no_lease base).host_bytes + (run l cs).used_host ≤ budgets.host_bytes)
      × ((or_no_lease base).device_bytes + (run l cs).used_device ≤ budgets.device_bytes)
      × ((or_no_lease base).disk_bytes + (run l cs).used_disk ≤ budgets.disk_bytes)
unfolding new_ledger
run_within_budgets budgets per_request base cs {l} h =
    ground
      (arith, run-IsWithin l cs (new_ledger-Holds budgets per_request base h).1, budgets-run l cs)

-- Against the leases that are out: `try_acquire` admits a lease exactly when it fits beside them,
-- and then it is one of them; a lease that does not fit leaves the ledger as it was.
pub try_acquire_decides :
    (l : CapacityLedger) (need : Option CapacityLease) (held : List CapacityLease)
    → Holds held l
    → IsWithin l
    → (Fits l.budgets held (or_per_request l need)
        × ((try_acquire l need).1 ≡ true)
        × Holds (or_per_request l need ∷ held) (try_acquire l need).0)
      ⊎ ((¬ Fits l.budgets held (or_per_request l need)) × (try_acquire l need ≡ (l, false)))
unfolding try_acquire
try_acquire_decides l need held v w = ground arith

-- A lease that is out, wherever it stands among the others, can be released, and then the others
-- are out.
pub release_held :
    (l : CapacityLedger) (before rest : List CapacityLease) (lease : CapacityLease)
    → Holds (before ++ lease ∷ rest) l
    → (l' : CapacityLedger) × (release l (some lease) ≡ ok l') × Holds (before ++ rest) l'
unfolding release
release_held l before rest lease v = (
  record l {
    used_host = l.used_host - lease.host_bytes;
    used_device = l.used_device - lease.device_bytes;
    used_disk = l.used_disk - lease.disk_bytes;
    inflight = l.inflight - 1;
  },
  ground (arith, totals_middle before rest lease),
  ground (arith, totals_middle before rest lease),
)

-- Acquiring and then releasing a lease restores the ledger.
pub release-try_acquire :
    (l : CapacityLedger) (need : Option CapacityLease)
    → (try_acquire l need).1 ≡ true
    → release (try_acquire l need).0 need ≡ ok l
unfolding try_acquire release
release-try_acquire l need h = ground arith

-- `acquire_or_raise` raises exactly when `try_acquire` returns False, and then it leaves the ledger
-- as it was.
pub acquire_or_raise_lem :
    (l : CapacityLedger) (need : Option CapacityLease)
    → (((try_acquire l need).1 ≡ true)
        × (acquire_or_raise l need ≡ ((try_acquire l need).0, ok tt)))
      ⊎ (((try_acquire l need).1 ≡ false)
          × (acquire_or_raise l need ≡ (l, err tensor_torrent_error)))
unfolding try_acquire acquire_or_raise
acquire_or_raise_lem l need = ground arith
