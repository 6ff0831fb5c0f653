-- ===== src/Compile/Samples.antt =====
-- A graph of three instructions in a chain, and what the analyses make of it.
use tensor_torrent.Base.{ℕ, ◌≡◌, refl, false, [], ◌∷◌, none, some, Option, Result, ok, err}
use tensor_torrent.Base.Dict.{get, set}
use tensor_torrent.Ir.{TensorMeta, activation, Instruction, compute, HeterogeneousGraph, storage}
use tensor_torrent.Ir.Alias.{AliasAnalysis, run_alias_analysis}
use tensor_torrent.Ir.Liveness.{LivenessAnalysis, run_liveness_analysis}
use tensor_torrent.BufferReuse.Plan.{plan_buffer_reuse}
use tensor_torrent.Compile.{Analyses, portable_analyses}

abbrev pub tensor : Option ℕ → TensorMeta
tensor view_of = record {
  size_bytes = 64;
  alias_group = none;
  mutable = false;
  storage_id = none;
  kind = activation;
  produced_at = none;
  last_use_at = none;
  view_of = view_of;
}

abbrev pub instruction : ℕ → ℕ → ℕ → Instruction
instruction name input output = record {
  opcode = compute;
  name = name;
  inputs = input ∷ [];
  outputs = output ∷ [];
}

-- 1 makes 2, 2 makes 3, 3 makes 4.
abbrev pub chain : HeterogeneousGraph
chain = record {
  tensors =
      (1, tensor none)
      ∷ (2, tensor none)
      ∷ (3, tensor none)
      ∷ (4, tensor none)
      ∷ (5, tensor none)
      ∷ [];
  instructions =
      instruction 10 1 2 ∷ instruction 11 2 3 ∷ instruction 12 3 4 ∷ instruction 13 4 5 ∷ [];
  parameters = [];
  outputs = 5 ∷ [];
  state_bindings = [];
}

unfoldable pub or_empty : Result Analyses → Analyses
or_empty (ok found) = found
or_empty (err e) = record {
  ir = chain;
  alias = record { groups = []; view_of = []; mutable_groups = [] };
  liveness = record { intervals = []; reuse_groups = []; mismatches = [] };
  reuse = record { assignment = []; slots = []; saved_bytes = 0; notes = [] };
}

unfoldable pub planned : Analyses
unfolding or_empty portable_analyses run_alias_analysis run_liveness_analysis plan_buffer_reuse
planned = or_empty (portable_analyses chain)

pub planned_ok : portable_analyses chain ≡ ok planned
unfolding planned get set
planned_ok = refl

-- Two views of one storage, the second used later.
abbrev pub viewed_alias : AliasAnalysis
viewed_alias = record {
  groups = (1, storage 7) ∷ (2, storage 7) ∷ [];
  view_of = [];
  mutable_groups = [];
}

abbrev pub viewed_liveness : LivenessAnalysis
viewed_liveness = record {
  intervals = (1, (some 0, some 1)) ∷ (2, (some 1, some 3)) ∷ [];
  reuse_groups = [];
  mismatches = [];
}
