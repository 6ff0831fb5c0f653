-- ===== src/Capacity.antt =====
-- python/tensortorrent/runtime/capacity.py: the leases, the budgets and the ledger that charges the
-- in-flight forwards of one module. A byte count is a natural number: the constructors of
-- `CapacityLease` and `CapacityBudgets` clamp each field to at least 0. The ledger's methods run
-- under its lock, so each is one step on the state.
pub mod Ledger
pub mod Estimate
