-- ===== src/InFlight/Tests.antt =====
-- A runner is inside when the gate is closed, leaves, and the closer returns.
use tensor_torrent.Base.{◌≡◌, refl, List, [], ◌∷◌, err, runtime_error}
use tensor_torrent.InFlight.{new_gate, enter, leave, mark_closed, is_idle}
use tensor_torrent.InFlight.Histories.{
  Event, enters, leaves, closes, returns, step, run, no_calls, enter-drained,
}

abbrev calls : List Event
calls = enters ∷ closes ∷ returns ∷ enters ∷ leaves ∷ returns ∷ []

enter-drained_example :
    ((run no_calls calls).inside ≡ 0) × (enter (run no_calls calls).gate ≡ err runtime_error)
unfolding run step enter leave mark_closed is_idle new_gate
enter-drained_example = enter-drained calls refl
