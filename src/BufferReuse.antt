-- ===== src/BufferReuse.antt =====
-- python/tensortorrent/runtime/buffer_reuse.py: which activations share a buffer slot. `Effective` has
-- the intervals that the planner and its check use, `Plan` the planner and the check.
pub mod Effective
pub mod Plan
