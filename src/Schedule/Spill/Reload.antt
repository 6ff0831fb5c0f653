-- ===== src/Schedule/Spill/Reload.antt =====
-- The first half of `plan_activation_spills` of python/tensortorrent/runtime/schedule/spill_plan.py: its
-- dicts, the reloads of what a compute instruction reads, and what it makes live.
use tensor_torrent.Base.{
  true, false, ℕ, ◌+◌, max, not, List, [], ◌∷◌, ◌++◌, Option, none, some, ◌==◌, ltb, if◌then◌else◌,
  elem, Result, ok, err, ◌>>=◌, value_error, type_error, overflow_error,
}
use tensor_torrent.Base.Dict.{Dict, get, set, remove}
use tensor_torrent.Ir.{compute, transfer, load}
use tensor_torrent.Schedule.Hosts.{
  Letters, Machine, tier_for_device, transfer_backend, load_host_for_destination,
}
use tensor_torrent.Schedule.{
  MemoryTier, disk_pread, unknown, Size, bytes, below_zero, missing, not_a_number, not_convertible,
  infinite, activation_reload, activation_reload_transfer, PlanInstruction,
}
use tensor_torrent.Schedule.Liveness.{fromkeys}

-- What the planner has beside the schedule: the names of the new instructions, of a tensor (, a
-- resource) and a compute instruction; a copy engine's name, of a source and a destination; the tests
-- on texts; the machine; and the text "disk".
pub record Texts : Type 0 where
  pub load_name : (tensor inst : ℕ) → ℕ
  pub transfer_name : (tensor resource inst : ℕ) → ℕ
  pub evict_name : (tensor inst : ℕ) → ℕ
  pub transfer_resource : (source destination : ℕ) → ℕ
  pub letters : Letters
  pub machine : Machine
  pub disk : ℕ

-- The host, and its tier, of a load for a resource; the size is not given.
unfoldable pub host_for : Texts → ℕ → ℕ × MemoryTier
host_for texts resource = load_host_for_destination texts.letters texts.machine resource 0 false

-- The dicts of the function, and the instructions put out so far.
pub record Spills : Type 0 where
  pub live : Dict (ℕ × ℕ)
  pub spilled : List ℕ
  pub spill_op_for : Dict ℕ
  pub spill_nbytes : Dict ℕ
  pub shared_reload : Dict ℕ
  pub out : List PlanInstruction

-- `spilled.discard(tensor)`.
unfoldable pub discard : ℕ → List ℕ → List ℕ
discard k [] = []
discard k (j ∷ js) = let rest = discard k js in if j == k then rest else j ∷ rest

-- `value_nbytes`, from the names and sizes of the program's values.
unfoldable pub value_sizes : Dict ℕ → List (ℕ × ℕ) → Dict ℕ
value_sizes sizes [] = sizes
value_sizes sizes ((name, n) ∷ values) =
    value_sizes (if ltb 0 n then set name n sizes else sizes) values

unfoldable pub bytes_of : Dict (ℕ × ℕ) → ℕ
bytes_of [] = 0
bytes_of ((t, (res, n)) ∷ live) = n + bytes_of live

abbrev nonempty : Option (Dict Size) → Option (Dict Size)
nonempty none = none
nonempty (some []) = none
nonempty (some (size ∷ sizes)) = some (size ∷ sizes)

-- `attributes.get("tensor_nbytes") or attributes.get("output_bytes")`.
abbrev pub raw_of : PlanInstruction → Dict Size
raw_of inst = elim (nonempty inst.tensor_nbytes) [
  | some sizes ↦ sizes
  | none ↦ elim inst.output_bytes [ none ↦ [] | some sizes ↦ sizes ]
]

-- `max(1, int(raw or 1))`: what counts as false gives 1.
abbrev pub at_least_one : Size → Result ℕ
at_least_one (bytes n) = ok (max 1 n)
at_least_one (below_zero n) = ok 1
at_least_one missing = ok 1
at_least_one not_a_number = err value_error
at_least_one not_convertible = err type_error
at_least_one infinite = err overflow_error

abbrev default_bytes : PlanInstruction → ℕ → ℕ
default_bytes inst tensor = elim inst.outputs [
  | [] ↦ max 1 inst.nbytes
  | only ∷ more ↦ elim more [
    | [] ↦ if only == tensor then max 1 inst.nbytes else 1
    | second ∷ rest ↦ 1
  ]
]

-- At the end the tensor is not in `value_nbytes`.
unfoldable pub tensor_nbytes_of : Dict ℕ → PlanInstruction → ℕ → Result ℕ
tensor_nbytes_of value_nbytes inst tensor = elim (get tensor value_nbytes) [
  | some n ↦ ok n
  | none ↦ elim (get tensor (raw_of inst)) [
    | some size ↦ at_least_one size
    | none ↦ ok (default_bytes inst tensor)
  ]
]

-- An instruction that the planner makes, of the fields that it gives.
abbrev pub made : PlanInstruction
made = record {
  opcode = compute;
  name = 0;
  resource = 0;
  depends_on = [];
  inputs = [];
  outputs = [];
  nbytes = 0;
  memory_tier = unknown;
  executable_ref = none;
  source = 0;
  destination = 0;
  transfer_backend = none;
  sync_required = false;
  stream_id = none;
  copy_engine_id = none;
  link_id = none;
  io_queue_id = none;
  tensor_nbytes = none;
  output_bytes = none;
  kind = none;
  final_async_consumers = none;
}

abbrev pub or_none : Option ℕ → List ℕ
or_none none = []
or_none (some name) = name ∷ []

-- `replace(inst, depends_on=new_deps) if reload_deps else inst`.
unfoldable pub waiting : PlanInstruction → List ℕ → PlanInstruction
waiting inst [] = inst
waiting inst (dep ∷ deps) = record inst { depends_on = fromkeys [] (inst.depends_on ++ dep ∷ deps) }

unfoldable pub put_out : PlanInstruction → Spills → Spills
put_out inst s = record s { out = s.out ++ inst ∷ [] }

module _ (texts : Texts) (value_nbytes : Dict ℕ) where
  -- `spill_nbytes.get(tensor, value_nbytes.get(tensor, max(1, int(inst.nbytes or 1))))`.
  abbrev reload_bytes : Spills → PlanInstruction → ℕ → ℕ
  reload_bytes s inst tensor = elim (get tensor s.spill_nbytes) [
    | some n ↦ n
    | none ↦ elim (get tensor value_nbytes) [ some n ↦ n | none ↦ max 1 inst.nbytes ]
  ]

  unfoldable pub reload_load : Spills → PlanInstruction → ℕ → PlanInstruction
  reload_load s inst tensor =
      let host = (host_for texts inst.resource).0 in
      let nbytes = reload_bytes s inst tensor in
      record made {
        opcode = load;
        name = texts.load_name tensor inst.name;
        resource = host;
        depends_on = or_none (get tensor s.spill_op_for);
        inputs = tensor ∷ [];
        outputs = tensor ∷ [];
        nbytes = nbytes;
        source = texts.disk;
        destination = host;
        tensor_nbytes = some ((tensor, bytes nbytes) ∷ []);
        memory_tier = (host_for texts inst.resource).1;
        transfer_backend = some disk_pread;
        sync_required = true;
        kind = some activation_reload;
      }

  unfoldable pub reload_transfer : Spills → PlanInstruction → ℕ → PlanInstruction
  reload_transfer s inst tensor =
      let host = (host_for texts inst.resource).0 in
      let nbytes = reload_bytes s inst tensor in
      record made {
        opcode = transfer;
        name = texts.transfer_name tensor inst.resource inst.name;
        resource = texts.transfer_resource host inst.resource;
        depends_on = texts.load_name tensor inst.name ∷ [];
        inputs = tensor ∷ [];
        outputs = tensor ∷ [];
        nbytes = nbytes;
        source = host;
        destination = inst.resource;
        tensor_nbytes = some ((tensor, bytes nbytes) ∷ []);
        memory_tier = tier_for_device texts.letters inst.resource;
        transfer_backend = some (transfer_backend texts.letters host inst.resource);
        kind = some activation_reload_transfer;
      }

  -- The load of a spilled tensor, which is then live on the host.
  unfoldable pub loaded : Spills → PlanInstruction → ℕ → Spills
  unfolding reload_load discard
  loaded s inst tensor =
      let host = (host_for texts inst.resource).0 in
      record s {
        live = set tensor (host, reload_bytes s inst tensor) s.live;
        spilled = discard tensor s.spilled;
        spill_op_for = remove tensor s.spill_op_for;
        shared_reload = set tensor (texts.load_name tensor inst.name) s.shared_reload;
        out = s.out ++ reload_load s inst tensor ∷ [];
      }

  -- `host != str(inst.resource)`: the transfer from the host.
  unfoldable pub transferred : Spills → PlanInstruction → ℕ → Spills
  unfolding loaded reload_transfer
  transferred s inst tensor =
      let next = loaded s inst tensor in
      record next {
        live = set tensor (inst.resource, reload_bytes s inst tensor) next.live;
        shared_reload =
            set tensor (texts.transfer_name tensor inst.resource inst.name) next.shared_reload;
        out = next.out ++ reload_transfer s inst tensor ∷ [];
      }

  -- One round of the loop over the inputs of a compute instruction, with `reload_deps`.
  unfoldable pub reload_input : PlanInstruction → Spills × List ℕ → ℕ → Spills × List ℕ
  unfolding loaded transferred
  reload_input inst (s, deps) tensor = elim (get tensor s.shared_reload) [
    | some op ↦ (s, deps ++ op ∷ [])
    | none ↦
        if not (elem tensor s.spilled)
        then (s, deps)
        else if (host_for texts inst.resource).0 == inst.resource
        then (loaded s inst tensor, deps ++ texts.load_name tensor inst.name ∷ [])
        else (
          transferred s inst tensor,
          deps
              ++ texts.load_name tensor inst.name
                ∷ texts.transfer_name tensor inst.resource inst.name
                ∷ [],
        )
  ]

  unfoldable pub reload_inputs : PlanInstruction → Spills × List ℕ → List ℕ → Spills × List ℕ
  unfolding reload_input
  reload_inputs inst state [] = state
  reload_inputs inst state (tensor ∷ tensors) =
      reload_inputs inst (reload_input inst state tensor) tensors

-- The loop over the outputs of a compute instruction.
unfoldable pub produce : Dict ℕ → PlanInstruction → Spills → List ℕ → Result Spills
unfolding discard tensor_nbytes_of
produce value_nbytes inst s [] = ok s
produce value_nbytes inst s (tensor ∷ tensors) = tensor_nbytes_of value_nbytes inst tensor >>= λ n.
    produce value_nbytes inst
      (record s {
        live = set tensor (inst.resource, n) s.live;
        spilled = discard tensor s.spilled;
        spill_op_for = remove tensor s.spill_op_for;
      })
      tensors
