-- ===== src/Lib.antt =====
-- TensorTorrent: models and theorems of the parts of the Python runtime that decide who may use
-- which memory, and when.
--
-- A model is compiled by lowering it to a portable graph (python/tensortorrent/ir/graph.py). The
-- alias analysis groups the tensors that share a storage, the liveness analysis derives the interval
-- of instructions in which a tensor is used, and the buffer planner places the activations in slots
-- that tensors with disjoint intervals share (compile/artifacts.py runs the three). At run time a
-- capacity ledger admits the requests that fit the memory budgets, a gate holds back the closing of a
-- module until its runners have left, and the model manager replaces and unloads models under the
-- requests that use them.
--
-- The paths below are under python/tensortorrent.
--
-- Base         lists, dicts in insertion order, exceptions as results, and the lemmas on them.
-- Capacity     runtime/capacity.py: Ledger is CapacityLedger, with the lock's stretches as single
--              functions; Accounting and Concurrency have its laws; Estimate is
--              estimate_request_capacity and build_module_capacity_ledger.
-- Ir           ir/graph.py, with Alias (ir/alias.py; Storages shows what one storage means for the
--              groups) and Liveness (ir/liveness.py); Coverage shows that the intervals cover the
--              uses, Graph what an analysis leaves as it was.
-- BufferReuse  runtime/buffer_reuse.py: Effective is _effective_intervals, Plan is plan_buffer_reuse
--              and assert_reuse_safe.
-- Compile      the order of the analyses in compile/artifacts.py, and what follows from all three; Views
--              is a graph that shows where an alias is missed.
-- Serve        serve/model_manager.py: Manager has the methods, World the callers around them.
-- InFlight     runtime/inflight.py.
-- Allocator    runtime/allocation_pool.py: the buffer behind each slot of the plan.
-- Schedule     runtime/schedule: types.py, streams.py, in Validate the checks of validate.py, in Hosts
--              the placement of loads (build.py), in Liveness run_schedule_liveness and
--              apply_schedule_liveness (ir/liveness.py), and in Spill spill_plan.py, with Replay, a
--              walk over the instructions that it puts out, and Order, their order; Finish puts these
--              together as the end of build.py does.
-- Handles      the handle table of runtime/handles.py.
-- Hardware     hardware/budget.py: how much host and device memory may be used.
-- Copies       runtime/copies.py: the values that are resident, by tensor and resource; Values has the
--              helpers on values, Counts the byte counts, Calls a map that the store is compared to.
--
-- Names of tensors, models, storages and versions are numbers: the code compares, sorts and stores
-- them, and no more. Byte counts are natural numbers, for Python's do not overflow and the
-- constructors clamp them at 0; a subtraction that could go below 0 stands behind the code's guard.
-- Dicts are association lists in insertion order. A shared object that is changed in place stands in
-- a store, at an address (Serve), or is passed on as a new value (the graph's tensors). Nearly
-- every loop of the modelled code is over a list, so it is structural recursion. Two are not, and run
-- on fuel: the worklist of `ancestors`, with a round for each dependency of the schedule and of the
-- instruction (an instruction's dependencies are pushed once), and the eviction loop of the spill
-- planner, with a round for each live tensor (a round evicts one).
--
-- Threads: each method of the ledger, the gate and the manager holds its lock while it reads and
-- writes; `CopyStore.move` takes its lock three times. A stretch under the lock is one step, and a
-- history is any sequence of steps. The waits of `unload` and of the gate are the time between two
-- steps; a timeout is a step that comes early.
--
-- Not modelled: PyTorch (kernels, streams, storages), the Rust crates, files and devices, the HTTP
-- service, and the code that reads the configuration and the machine, whose results are arguments.
-- `module.close()` is a record of the call. The version that `load` draws at random is an argument, as
-- are what other threads do between the stretches of `CopyStore.require` and `CopyStore.move`, the
-- addresses that `torch.empty` gives, and the texts that the spill planner forms or reads by their
-- letters.
pub mod Base
pub mod Capacity
pub mod Ir
pub mod BufferReuse
pub mod Compile
pub mod Serve
pub mod Schedule
pub mod Handles
pub mod Copies
pub mod Hardware
pub mod InFlight
pub mod Allocator
