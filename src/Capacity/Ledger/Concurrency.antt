-- ===== src/Capacity/Ledger/Concurrency.antt =====
-- `CapacityLedger.max_concurrent` against the leases that `try_acquire` really grants.
use tensor_torrent.Base.{
  ℕ, zero, suc, ◌+◌, ◌*◌, ◌≤◌, ◌<◌, min, ◌≡◌, refl, inl, inr, ◌↔◌, false, none, arith,
  if◌then◌else◌, ok, List, [], ◌∷◌, All, ◌≢◌, replicate, sym, subst, Option,
}
use native.Mathlib.Nat.{le-div_iff_mul-le}
use tensor_torrent.Capacity.Ledger.{
  CapacityLease, CapacityBudgets, CapacityLedger, new_ledger, max_concurrent, try_acquire, limit_of,
  limits, least_limit,
}
use tensor_torrent.Capacity.Ledger.Accounting.{
  host_total, device_total, disk_total, Holds, IsWithin, Fits, try_acquire_decides,
  try_acquire-IsWithin, new_ledger-Holds,
}

-- How many of `n` calls of `try_acquire()` in a row return True.
pub granted : ℕ → CapacityLedger → ℕ
granted zero l = 0
granted (suc n) l = let (l', done) = try_acquire l none in (if done then 1 else 0) + granted n l'

-- A lease that takes something.
abbrev pub IsNonzero : CapacityLease → Type 0
IsNonzero lease = 0 < lease.host_bytes + lease.device_bytes + lease.disk_bytes

-- `k` leases that take `need` each fit the budgets together.
abbrev AllFit : ℕ → CapacityBudgets → CapacityLease → Type 0
AllFit k budgets need =
    (k * need.host_bytes ≤ budgets.host_bytes)
    × (k * need.device_bytes ≤ budgets.device_bytes)
    × (k * need.disk_bytes ≤ budgets.disk_bytes)

-- A resource's limit bounds `k` exactly when `k` times its need fits; no need, no limit.
limit_of_iff :
    (k b n : ℕ) (limits : List ℕ)
    → All (λ x. k ≤ x) (limit_of b n limits) ↔ ((k * n ≤ b) × All (λ x. k ≤ x) limits)
unfolding limit_of
limit_of_iff k b zero limits = ground arith
limit_of_iff k b (suc n) limits =
    ground (arith, le-div_iff_mul-le {k = suc n} {x = k} {y = b} (omega arith))

least_limit_iff :
    (k : ℕ) (limits : List ℕ) → limits ≢ [] → (k ≤ least_limit limits) ↔ All (λ x. k ≤ x) limits
unfolding least_limit
least_limit_iff k [] h = absurd (h refl)
least_limit_iff k (x ∷ []) h = omega arith
least_limit_iff k (x ∷ y ∷ rest) h = ground (arith, least_limit_iff k (y ∷ rest) (λ e. cc))

module _ (budgets : CapacityBudgets) (need : CapacityLease) where
  limits-ne-nil : IsNonzero need → limits budgets need ≢ []
  unfolding limits
  limits-ne-nil h = ground arith

  limits_iff : (k : ℕ) → All (λ x. k ≤ x) (limits budgets need) ↔ AllFit k budgets need
  unfolding limits
  limits_iff k = grind (arith, limit_of_iff)

  totals_replicate :
      (k : ℕ)
      → (host_total (replicate k need) ≡ k * need.host_bytes)
        × (device_total (replicate k need) ≡ k * need.device_bytes)
        × (disk_total (replicate k need) ≡ k * need.disk_bytes)
  totals_replicate zero = omega arith
  totals_replicate (suc k) = omega (arith, totals_replicate k)

  -- One more lease fits beside `k` equal ones exactly when `suc k` of them fit together.
  Fits-iff : (k : ℕ) → Fits budgets (replicate k need) need ↔ AllFit (suc k) budgets need
  Fits-iff k = grind (arith, totals_replicate k)

le-max_concurrent :
    (k : ℕ) (l : CapacityLedger)
    → IsNonzero l.per_request
    → (k ≤ max_concurrent l) ↔ AllFit k l.budgets l.per_request
unfolding max_concurrent
le-max_concurrent k l h = ground (
  arith,
  least_limit_iff k (limits l.budgets l.per_request) (limits-ne-nil l.budgets l.per_request h),
  limits_iff l.budgets l.per_request k,
)

try_acquire_keeps :
    (l : CapacityLedger)
    → ((try_acquire l none).0.budgets ≡ l.budgets)
      × ((try_acquire l none).0.per_request ≡ l.per_request)
unfolding try_acquire
try_acquire_keeps l = ground arith

max_concurrent-try_acquire :
    (l : CapacityLedger) → max_concurrent (try_acquire l none).0 ≡ max_concurrent l
unfolding max_concurrent
max_concurrent-try_acquire l = cc ((try_acquire_keeps l).0, (try_acquire_keeps l).1)

-- The full ledger refuses, and stays as it is.
granted_full : (n : ℕ) (l : CapacityLedger) → try_acquire l none ≡ (l, false) → granted n l ≡ 0
unfolding granted
granted_full zero l h = refl
granted_full (suc n) l h = ground (arith, granted_full n l h)

-- One more of the ledger's own leases fits beside `k` of them exactly below the maximum.
room :
    (k : ℕ) (l : CapacityLedger)
    → IsNonzero l.per_request
    → Fits l.budgets (replicate k l.per_request) l.per_request ↔ (suc k ≤ max_concurrent l)
room k l h = ground (arith, Fits-iff l.budgets l.per_request k, le-max_concurrent (suc k) l h)

-- With `k` leases out already.
granted_from :
    (n k : ℕ) (l : CapacityLedger)
    → IsNonzero l.per_request
    → Holds (replicate k l.per_request) l
    → IsWithin l
    → k ≤ max_concurrent l
    → granted n l + k ≡ min (n + k) (max_concurrent l)
unfolding granted
granted_from zero k l h v w f = omega arith
granted_from (suc n) k l h v w f =
    elim (try_acquire_decides l none (replicate k l.per_request) v w) [
      | inl (fits, done, v') ↦
          let l' = (try_acquire l none).0 in
          let same = sym (try_acquire_keeps l).1 in
          ground (
            arith,
            max_concurrent-try_acquire l,
            (room k l h).0 fits,
            granted_from n (suc k) l' (subst IsNonzero same h)
                (subst (λ x. Holds (replicate (suc k) x) l') same v')
                (try_acquire-IsWithin l none w),
          )
      | inr (full, same) ↦ ground (arith, room k l h, granted_full n l same)
    ]

per_request-new_ledger :
    (budgets : CapacityBudgets) (per_request : CapacityLease) (base : Option CapacityLease)
    {l : CapacityLedger}
    → new_ledger budgets per_request base ≡ ok l
    → l.per_request ≡ per_request
unfolding new_ledger
per_request-new_ledger budgets per_request base h = ground arith

-- From a new ledger whose requests take something, the number of the first `n` calls of
-- `try_acquire()` that return True is `n`, but `max_concurrent()` at most.
pub granted-eq-max_concurrent :
    (n : ℕ) (budgets : CapacityBudgets) (per_request : CapacityLease) (base : Option CapacityLease)
    {l : CapacityLedger}
    → IsNonzero per_request
    → new_ledger budgets per_request base ≡ ok l
    → granted n l ≡ min n (max_concurrent l)
granted-eq-max_concurrent n budgets per_request base {l} h e =
    let (v, w) = new_ledger-Holds budgets per_request base e in
    let kept = per_request-new_ledger budgets per_request base e in
    omega (arith, granted_from n 0 l (subst IsNonzero (sym kept) h) v w (omega arith))
