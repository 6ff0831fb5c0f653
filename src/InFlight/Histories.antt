-- ===== src/InFlight/Histories.antt =====
-- Runners and closers of one gate, in any order.
use tensor_torrent.Base.{
  ℕ, ◌+◌, ◌-◌, ◌≡◌, refl, Bool, true, false, not, runtime_error, ◌&&◌, ◌||◌, List, [], ◌∷◌, arith,
  leb, if◌then◌else◌, Result, ok, err,
}
use tensor_torrent.InFlight.{InFlightGate, new_gate, enter, leave, mark_closed, is_idle}

-- The gate, the runners inside, the closers that have closed the gate and wait, and whether the wait
-- of one of them has ended.
pub record World : Type 0 where
  pub gate : InFlightGate
  pub inside : ℕ
  pub waiting : ℕ
  pub drained : Bool

pub data Event : Type 0 where
  enters leaves closes returns : Event

abbrev after_enter : World → Result InFlightGate → World
after_enter w (ok gate) = record w { gate = gate; inside = w.inside + 1 }
after_enter w (err e) = w

abbrev after_leave : World → Result InFlightGate → World
after_leave w (ok gate) = record w { gate = gate; inside = w.inside - 1 }
after_leave w (err e) = w

-- Only a runner that is inside leaves; a wait ends only while the gate is idle.
unfoldable pub step : World → Event → World
step w enters = after_enter w (enter w.gate)
step w leaves = if leb w.inside 0 then w else after_leave w (leave w.gate)
step w closes = record w { gate = mark_closed w.gate; waiting = w.waiting + 1 }
step w returns =
    if is_idle w.gate && not (leb w.waiting 0)
    then record w { waiting = w.waiting - 1; drained = true }
    else w

unfoldable pub run : World → List Event → World
unfolding step
run w [] = w
run w (e ∷ es) = run (step w e) es

abbrev pub no_calls : World
no_calls = record { gate = new_gate; inside = 0; waiting = 0; drained = false }

record Inv (w : World) : Type 0 where
  counted : w.gate.inflight ≡ w.inside
  shut : (w.drained || not (leb w.waiting 0)) ≡ true → w.gate.closed ≡ true
  empty : w.drained ≡ true → w.inside ≡ 0

step-Inv : (w : World) → Inv w → (e : Event) → Inv (step w e)
unfolding step enter leave mark_closed is_idle
step-Inv w v enters = record {
  counted = ground (arith, v.counted);
  shut = λ s. ground (arith, v.shut);
  empty = λ d. ground (arith, v.empty, v.shut);
}
step-Inv w v leaves = record {
  counted = ground (arith, v.counted);
  shut = λ s. ground (arith, v.shut);
  empty = λ d. ground (arith, v.empty, v.counted);
}
step-Inv w v closes = record { counted = v.counted; shut = λ s. refl; empty = v.empty }
step-Inv w v returns = record {
  counted = ground (arith, v.counted);
  shut = λ s. ground (arith, v.shut);
  empty = λ d. ground (arith, v.empty, v.counted);
}

run-Inv : (w : World) → Inv w → (es : List Event) → Inv (run w es)
unfolding run
run-Inv w v [] = v
run-Inv w v (e ∷ es) = run-Inv (step w e) (step-Inv w v e) es

no_calls-Inv : Inv no_calls
unfolding new_gate
no_calls-Inv = record { counted = refl; shut = λ s. cc; empty = λ d. cc }

-- After any calls in any order, once the wait of a closer has ended, no runner is inside, and the
-- gate lets none in: the next `enter` raises.
pub enter-drained :
    (es : List Event)
    → (run no_calls es).drained ≡ true
    → ((run no_calls es).inside ≡ 0) × (enter (run no_calls es).gate ≡ err runtime_error)
unfolding enter
enter-drained es drained =
    let v = run-Inv no_calls no_calls-Inv es in (v.empty drained, ground (arith, v.shut))
