-- ===== src/Schedule/Finish.antt =====
-- The last steps of the building of a schedule (python/tensortorrent/runtime/schedule/build.py): the
-- spills, what the releases wait for, the streams. The validation of what comes out is in Rust.
pub mod Acyclic
pub mod Releases
mod Tests
use tensor_torrent.Base.{
  ℕ, Bool, true, false, List, [], ◌∷◌, ◌++◌, Option, Result, ok, ◌>>=◌, if◌then◌else◌,
}
use tensor_torrent.Schedule.{ExecutableSchedule, ensure_explicit_streams}
use tensor_torrent.Schedule.Liveness.{apply_schedule_liveness}
use tensor_torrent.Schedule.Spill.Reload.{Texts}
use tensor_torrent.Schedule.Spill.{plan_activation_spills}

-- The program's outputs that are values, and the inputs that the user gives. `output_refs` has a kind,
-- whether it is "value", and a name.
pub protected_of : (output_refs : List (Bool × ℕ)) → (user_inputs : List ℕ) → List ℕ
protected_of [] user_inputs = user_inputs
protected_of ((is_value, ref) ∷ refs) user_inputs =
    let rest = protected_of refs user_inputs in if is_value then ref ∷ rest else rest

-- The budget is `none` when it is None or below zero.
pub finish_schedule :
    Texts
    → ExecutableSchedule
    → (activation_budget_bytes : Option ℕ) → (output_refs : List (Bool × ℕ))
    → (user_inputs : List ℕ) → (program_values : List (ℕ × ℕ)) → Result ExecutableSchedule
unfolding protected_of
finish_schedule texts schedule activation_budget_bytes output_refs user_inputs program_values =
    plan_activation_spills texts schedule activation_budget_bytes
      (protected_of output_refs user_inputs) program_values
    >>= λ planned. ok (ensure_explicit_streams (apply_schedule_liveness planned))
