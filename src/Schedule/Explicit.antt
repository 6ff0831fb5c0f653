-- ===== src/Schedule/Explicit.antt =====
-- The ids are complete afterwards, and a second pass changes nothing.
use tensor_torrent.Base.{◌≡◌, refl, Bool, true, false, ◌||◌, List, [], ◌∷◌, map, Option, none, some}
use tensor_torrent.Schedule.{
  Engine, PlanInstruction, ExecutableSchedule, filled, is_transfer, is_read, default_stream_id,
  copy_of, io_of, link_of, or_unknown_resource, target_of, with_explicit_streams,
  ensure_explicit_streams,
}

filled_twice :
    (test : Bool) (made again : Engine) (id : Option Engine)
    → filled test again (filled test made id) ≡ filled test made id
filled_twice test made again (some given) = refl
filled_twice true made again none = refl
filled_twice false made again none = refl

filled-some :
    (test : Bool) (made : Engine) (id : Option Engine)
    → test ≡ true
    → (e : Engine) × (filled test made id ≡ some e)
filled-some test made (some given) h = (given, refl)
filled-some true made none h = (made, refl)
filled-some false made none h = cc

-- The ids that an instruction of its opcode needs.
pub record IsExplicit (inst : PlanInstruction) : Type 0 where
  pub stream : (e : Engine) × (inst.stream_id ≡ some e)
  pub copy_engine :
      (is_transfer inst.opcode || is_read inst.opcode) ≡ true
      → (e : Engine) × (inst.copy_engine_id ≡ some e)
  pub link : is_transfer inst.opcode ≡ true → (e : Engine) × (inst.link_id ≡ some e)
  pub io_queue : is_read inst.opcode ≡ true → (e : Engine) × (inst.io_queue_id ≡ some e)

-- Afterwards an instruction has a stream, a copy engine if it moves data, a link if it is a transfer,
-- and an I/O queue if it reads; an id that the planner gave is kept.
pub with_explicit_streams-IsExplicit :
    (inst : PlanInstruction)
    → IsExplicit (with_explicit_streams inst)
      × ((e : Engine) → inst.stream_id ≡ some e → (with_explicit_streams inst).stream_id ≡ some e)
      × ((e : Engine)
          → inst.copy_engine_id ≡ some e
          → (with_explicit_streams inst).copy_engine_id ≡ some e)
      × ((e : Engine) → inst.link_id ≡ some e → (with_explicit_streams inst).link_id ≡ some e)
      × ((e : Engine)
          → inst.io_queue_id ≡ some e
          → (with_explicit_streams inst).io_queue_id ≡ some e)
unfolding with_explicit_streams
with_explicit_streams-IsExplicit inst = (
  record {
    stream = filled-some true _ inst.stream_id refl;
    copy_engine = λ moves. filled-some _ _ inst.copy_engine_id moves;
    link = λ is_transfer. filled-some _ _ inst.link_id is_transfer;
    io_queue = λ is_read. filled-some _ _ inst.io_queue_id is_read;
  },
  λ e h. rw (h, filled) refl,
  λ e h. rw (h, filled) refl,
  λ e h. rw (h, filled) refl,
  λ e h. rw (h, filled) refl,
)

with_explicit_streams_twice :
    (inst : PlanInstruction)
    → with_explicit_streams (with_explicit_streams inst) ≡ with_explicit_streams inst
unfolding with_explicit_streams
with_explicit_streams_twice inst =
    let res = or_unknown_resource inst.resource in
    let joined = link_of (or_unknown_resource inst.source) (target_of inst) in
    let once = with_explicit_streams inst in
    let again = with_explicit_streams once in
    let stream : again.stream_id ≡ once.stream_id =
      filled_twice true (default_stream_id inst.opcode inst.resource)
        (default_stream_id inst.opcode inst.resource) inst.stream_id in
    let copy : again.copy_engine_id ≡ once.copy_engine_id =
      filled_twice (is_transfer inst.opcode || is_read inst.opcode) (copy_of res) (copy_of res)
        inst.copy_engine_id in
    let link : again.link_id ≡ once.link_id =
      filled_twice (is_transfer inst.opcode) joined joined inst.link_id in
    let queue : again.io_queue_id ≡ once.io_queue_id =
      filled_twice (is_read inst.opcode) (io_of res) (io_of res) inst.io_queue_id in
    λ i. record once {
      stream_id = stream i;
      copy_engine_id = copy i;
      link_id = link i;
      io_queue_id = queue i;
    }

map_twice :
    (insts : List PlanInstruction)
    → map with_explicit_streams (map with_explicit_streams insts) ≡ map with_explicit_streams insts
map_twice [] = refl
map_twice (inst ∷ insts) = rw (with_explicit_streams_twice inst, map_twice insts) refl

-- Filling in the ids of a schedule a second time changes nothing.
pub ensure_explicit_streams_twice :
    (schedule : ExecutableSchedule)
    → ensure_explicit_streams (ensure_explicit_streams schedule) ≡ ensure_explicit_streams schedule
unfolding ensure_explicit_streams
ensure_explicit_streams_twice schedule = rw (map_twice schedule.instructions) refl
