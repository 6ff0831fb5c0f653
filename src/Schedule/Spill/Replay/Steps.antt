-- ===== src/Schedule/Spill/Replay/Steps.antt =====
-- Each instruction that `plan_activation_spills` of
-- python/tensortorrent/runtime/schedule/spill_plan.py puts out, as a step of the walk.
use tensor_torrent.Base.{
  ℕ, ◌≡◌, refl, ◌∙◌, ap, inl, inr, Bool, true, false, List, [], ◌∷◌, ◌++◌, Option, none, some, ◌==◌,
  Option-cases, elem, arith,
}
use tensor_torrent.Base.Dict.{Dict, get, set, contains, get-set}
use tensor_torrent.Schedule.{
  InstructionKind, parameter_host_to_device, parameter_prefetch, parameter_materialize,
  parameter_evict, activation_spill, activation_reload, activation_reload_transfer, activation,
  PlanInstruction,
}
use tensor_torrent.Schedule.Liveness.Frontier.{elem-fromkeys}
use tensor_torrent.Schedule.Liveness.{fromkeys}
use tensor_torrent.Schedule.Spill.Reload.{
  Texts, Spills, reload_load, reload_transfer, loaded, transferred,
}
use tensor_torrent.Schedule.Spill.{readers_of, spill_evict, evicted, no_spills}
use tensor_torrent.Schedule.Spill.Replay.{
  Disk, at_start, all_in, away_one, back_one, onward_one, is_added, plain, walked, of_kind,
  walk_one, walk,
}

-- What the planner takes to be on the disk.
abbrev pub view : Spills → Disk
view s = record { away = s.spilled; spiller = s.spill_op_for; back = s.shared_reload; past = s.out }

-- The walk over what is put out agrees with the planner.
pub Agrees : Spills → Type 0
Agrees s = walk (some at_start) s.out ≡ some (view s)

abbrev then_one : Option Disk → PlanInstruction → Option Disk
then_one none inst = none
then_one (some d) inst = walk_one d inst

walk-append :
    (insts : List PlanInstruction) (inst : PlanInstruction) (reached : Option Disk)
    → walk reached (insts ++ inst ∷ []) ≡ then_one (walk reached insts) inst
unfolding walk
walk-append [] inst none = refl
walk-append [] inst (some d) = refl
walk-append (first ∷ insts) inst reached =
    walk-append insts inst (elim reached [ none ↦ none | some d ↦ walk_one d first ])

-- An instruction that is put out, and is a step to what the planner then takes to be so.
pub step-Agrees :
    (s next : Spills) (inst : PlanInstruction)
    → next.out ≡ s.out ++ inst ∷ []
    → walk_one (view s) inst ≡ some (view next)
    → Agrees s
    → Agrees next
unfolding Agrees
step-Agrees s next inst longer step h =
    ap (walk (some at_start)) longer
    ∙ walk-append s.out inst (some at_start)
    ∙ ap (λ reached. then_one reached inst) h
    ∙ step

all_in-elem :
    (xs ys : List ℕ) → ((x : ℕ) → elem x xs ≡ true → elem x ys ≡ true) → all_in xs ys ≡ true
all_in-elem [] ys h = refl
all_in-elem (x ∷ xs) ys h =
    ground (arith, h x (ground arith), all_in-elem xs ys (λ y e. h y (ground (arith, e))))

module _ (texts : Texts) (value_nbytes : Dict ℕ) (s : Spills) (inst : PlanInstruction) (t : ℕ) where
  load_step :
      elem t s.spilled ≡ true
      → contains t s.spill_op_for ≡ true
      → walk_one (view s) (reload_load texts value_nbytes s inst t)
        ≡ some (view (loaded texts value_nbytes s inst t))
  unfolding walk_one back_one reload_load loaded
  load_step away known = elim (Option-cases (get t s.spill_op_for)) [
    | inl absent ↦ ground (arith, known, absent)
    | inr (op, found) ↦ let self : (op == op) ≡ true = ground arith in rw (away, found, self)
  ]

  transfer_step :
      walk_one
        (view (loaded texts value_nbytes s inst t))
        (reload_transfer texts value_nbytes s inst t)
      ≡ some (view (transferred texts value_nbytes s inst t))
  unfolding walk_one onward_one reload_transfer loaded transferred
  transfer_step =
      let name = texts.load_name t inst.name in
      let here : (t == t) ≡ true = ground arith in
      let self : (name == name) ≡ true = ground arith in
      let found : get t (set t name s.shared_reload) ≡ some name =
        get-set t t name s.shared_reload ∙ rw here in
      rw (found, self)

  pub loaded-Agrees :
      elem t s.spilled ≡ true
      → contains t s.spill_op_for ≡ true
      → Agrees s
      → Agrees (loaded texts value_nbytes s inst t)
  unfolding loaded
  loaded-Agrees away known h =
      step-Agrees s (loaded texts value_nbytes s inst t) (reload_load texts value_nbytes s inst t)
        refl (load_step away known) h

  pub transferred-Agrees :
      Agrees (loaded texts value_nbytes s inst t) → Agrees (transferred texts value_nbytes s inst t)
  unfolding loaded transferred
  transferred-Agrees h =
      step-Agrees (loaded texts value_nbytes s inst t) (transferred texts value_nbytes s inst t)
        (reload_transfer texts value_nbytes s inst t) refl transfer_step h

module _ (texts : Texts) (value_nbytes : Dict ℕ) (use_sites : Dict (List ℕ)) (protected : List ℕ)
    (budget : ℕ) where
  evict_step :
      (inst : PlanInstruction) (s : Spills) (t resource n : ℕ)
      → walk_one
          (view s)
          (spill_evict texts value_nbytes use_sites protected budget inst s t resource n)
        ≡ some
            (view (evicted texts value_nbytes use_sites protected budget inst s (t, resource, n)))
  unfolding walk_one away_one spill_evict evicted
  evict_step inst s t resource n =
      let readers = readers_of t s.out in
      let waits : all_in readers (fromkeys [] (inst.name ∷ readers)) ≡ true =
        all_in-elem readers (fromkeys [] (inst.name ∷ readers))
          (λ x e. ground (arith, elem-fromkeys x [] (inst.name ∷ readers), e)) in
      rw waits

  pub evicted-Agrees :
      (inst : PlanInstruction) (s : Spills) (item : ℕ × ℕ × ℕ)
      → Agrees s
      → Agrees (evicted texts value_nbytes use_sites protected budget inst s item)
  unfolding evicted
  evicted-Agrees inst s (t, resource, n) h =
      step-Agrees s (evicted texts value_nbytes use_sites protected budget inst s (t, resource, n))
        (spill_evict texts value_nbytes use_sites protected budget inst s t resource n) refl
        (evict_step inst s t resource n) h

of_kind-plain :
    (kind : Option InstructionKind) (d : Disk) (inst : PlanInstruction)
    → is_added kind ≡ false
    → of_kind kind d inst ≡ plain d inst
of_kind-plain none d inst h = refl
of_kind-plain (some parameter_host_to_device) d inst h = refl
of_kind-plain (some parameter_prefetch) d inst h = refl
of_kind-plain (some parameter_materialize) d inst h = refl
of_kind-plain (some parameter_evict) d inst h = refl
of_kind-plain (some activation) d inst h = refl
of_kind-plain (some activation_spill) d inst h = cc
of_kind-plain (some activation_reload) d inst h = cc
of_kind-plain (some activation_reload_transfer) d inst h = cc

-- The step of an instruction that the planner did not add.
pub walk_one-plain :
    (d : Disk) (inst : PlanInstruction)
    → is_added inst.kind ≡ false
    → walk_one d inst ≡ walked inst (plain d inst)
unfolding walk_one
walk_one-plain d inst h = ap (walked inst) (of_kind-plain inst.kind d inst h)

-- The walk goes through to the end.
abbrev pub is_accepted : Option Disk → Bool
is_accepted none = false
is_accepted (some d) = true

pub start-Agrees : Agrees no_spills
unfolding Agrees walk
start-Agrees = refl

pub accepted_of_Agrees : (s : Spills) → Agrees s → is_accepted (walk (some at_start) s.out) ≡ true
unfolding Agrees
accepted_of_Agrees s agrees = rw agrees
