-- ===== src/Schedule/Tests.antt =====
-- A schedule that loads, computes and releases.
use tensor_torrent.Base.{
  false, ℕ, ◌≡◌, ◌↔◌, refl, true, List, [], ◌∷◌, Option, none, some, All, ok, err, overflow_error,
}
use tensor_torrent.Ir.{OpCode, compute, load, release}
use tensor_torrent.Schedule.{
  unknown, PlanInstruction, ExecutableSchedule, Engine, planned, copy_of, bytes, infinite,
  is_compute, with_explicit_streams,
}
use tensor_torrent.Schedule.Explicit.{IsExplicit, with_explicit_streams-IsExplicit}
use tensor_torrent.Schedule.Validate.{
  has_sizes, tensors_of, schedule_matches_plan, validate_schedule_tensor_sizes,
}
use tensor_torrent.Schedule.Validate.Coverage.{Has, Runs, RunsOne, schedule_matches_plan-eq-nil}
use tensor_torrent.Base.Dict.{get}
use tensor_torrent.Schedule.Validate.Complete.{Sized, validate_schedule_tensor_sizes-eq-nil}

abbrev inst : OpCode → ℕ → List ℕ → List ℕ → Option ℕ → PlanInstruction
inst opcode name inputs outputs ref = record {
  opcode = opcode;
  name = name;
  resource = 1;
  depends_on = [];
  inputs = inputs;
  outputs = outputs;
  nbytes = 8;
  memory_tier = unknown;
  executable_ref = ref;
  source = 0;
  destination = 0;
  transfer_backend = none;
  sync_required = false;
  stream_id = some (planned 9);
  copy_engine_id = none;
  link_id = none;
  io_queue_id = none;
  tensor_nbytes = some ((5, bytes 8) ∷ (6, bytes 4) ∷ []);
  output_bytes = none;
  kind = none;
  final_async_consumers = none;
}

abbrev schedule : ExecutableSchedule
schedule = record {
  graph_name = 1;
  fingerprint = 2;
  instructions =
      inst load 10 (5 ∷ []) [] none
      ∷ inst compute 11 (5 ∷ []) (6 ∷ []) (some 7)
      ∷ inst release 12 (5 ∷ []) [] none
      ∷ [];
}

-- The load keeps its stream and is given a copy engine.
loaded :
    (with_explicit_streams (inst load 10 (5 ∷ []) [] none)).copy_engine_id ≡ some (copy_of (some 1))
unfolding with_explicit_streams
loaded = refl

matched : schedule_matches_plan schedule (7 ∷ []) ≡ []
unfolding schedule_matches_plan
matched = refl

with_explicit_streams-IsExplicit_example :
    let before = inst load 10 (5 ∷ []) [] none in
    let after = with_explicit_streams before in
    IsExplicit after
    × ((e : Engine) → before.stream_id ≡ some e → after.stream_id ≡ some e)
    × ((e : Engine) → before.copy_engine_id ≡ some e → after.copy_engine_id ≡ some e)
    × ((e : Engine) → before.link_id ≡ some e → after.link_id ≡ some e)
    × ((e : Engine) → before.io_queue_id ≡ some e → after.io_queue_id ≡ some e)
with_explicit_streams-IsExplicit_example =
    with_explicit_streams-IsExplicit (inst load 10 (5 ∷ []) [] none)

schedule_matches_plan-eq-nil_example : (schedule_matches_plan schedule (7 ∷ []) ≡ []) ↔ (
    ((region : ℕ) → Has (7 ∷ []) region → Runs schedule.instructions region)
    × ((inst : PlanInstruction)
        → Has schedule.instructions inst
        → is_compute inst.opcode ≡ true
        → RunsOne (7 ∷ []) inst))
schedule_matches_plan-eq-nil_example = schedule_matches_plan-eq-nil schedule (7 ∷ [])

validate_schedule_tensor_sizes-eq-nil_example :
    (validate_schedule_tensor_sizes schedule ≡ ok [])
    ↔ All (λ i. has_sizes i.opcode ≡ true → All (Sized i) (tensors_of i)) schedule.instructions
validate_schedule_tensor_sizes-eq-nil_example = validate_schedule_tensor_sizes-eq-nil schedule

-- An infinite size raises, and no error is reported.
infinite_size :
    validate_schedule_tensor_sizes (record schedule {
      instructions =
          record (inst load 10 (5 ∷ []) [] none) { tensor_nbytes = some ((5, infinite) ∷ []) } ∷ [];
    })
    ≡ err overflow_error
unfolding validate_schedule_tensor_sizes tensors_of get
infinite_size = refl
