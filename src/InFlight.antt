-- ===== src/InFlight.antt =====
-- `InFlightGate` of python/tensortorrent/runtime/inflight.py: runners enter and leave, a closer waits
-- until none is inside. Each method runs under one condition; a wait that has not ended is a step
-- that is refused.
pub mod Histories
mod Tests
use tensor_torrent.Base.{
  ℕ, ◌+◌, ◌-◌, Bool, true, false, leb, ◌==◌, Result, ok, err, ◌>>=◌, ◌>>◌, raise_if, runtime_error,
}

pub record InFlightGate : Type 0 where
  pub inflight : ℕ
  pub closed : Bool

unfoldable pub new_gate : InFlightGate
new_gate = record { inflight = 0; closed = false }

pub enter : InFlightGate → Result InFlightGate
enter gate = do
  raise_if gate.closed runtime_error
  ok (record gate { inflight = gate.inflight + 1 })

pub leave : InFlightGate → Result InFlightGate
leave gate = do
  raise_if (leb gate.inflight 0) runtime_error
  ok (record gate { inflight = gate.inflight - 1 })

-- The first assignment of `mark_closed_and_wait`.
pub mark_closed : InFlightGate → InFlightGate
mark_closed gate = record gate { closed = true }

-- The test of both waits, negated: the wait is over.
pub is_idle : InFlightGate → Bool
is_idle gate = leb gate.inflight 0
