-- ===== src/Hardware.antt =====
-- python/tensortorrent/hardware: the memory budgets.
pub mod Budget
