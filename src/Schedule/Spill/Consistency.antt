-- ===== src/Schedule/Spill/Consistency.antt =====
-- The dicts of `plan_activation_spills` in python/tensortorrent/runtime/schedule/spill_plan.py: what is
-- on the disk is neither live nor reloaded, and the planner knows what spilled it.
use tensor_torrent.Base.{
  ℕ, ◌≡◌, refl, ◌∙◌, ◌⊎◌, inl, inr, true, false, not, ◌&&◌, List, [], ◌∷◌, ◌++◌, none, some, ◌==◌,
  Bool-cases, Option-cases, elem, arith, Result, ok, err, ◌>>=◌, value_error, type_error,
  overflow_error, Error, memory_capacity_error, runtime_plan_error, tensor_torrent_error,
  unsupported_feature_error, schedule_validation_error, key_error, runtime_error,
}
use tensor_torrent.Base.Dict.{Dict, get, set, remove, contains, contains-set, contains-remove}
use tensor_torrent.Schedule.{
  Size, PlanInstruction, bytes, below_zero, missing, not_a_number, not_convertible, infinite,
}
use tensor_torrent.Schedule.Spill.Reload.{
  host_for, raw_of, at_least_one, Texts, Spills, discard, loaded, transferred, reload_input,
  reload_inputs, produce, tensor_nbytes_of,
}
use tensor_torrent.Schedule.Spill.{}

-- What `int` of a size may raise.
abbrev pub IsRaised : Error → Type 0
IsRaised e = elim e [
  | memory_capacity_error ↦ ⊥
  | runtime_plan_error ↦ ⊥
  | tensor_torrent_error ↦ ⊥
  | unsupported_feature_error ↦ ⊥
  | schedule_validation_error ↦ ⊥
  | value_error ↦ Unit
  | type_error ↦ Unit
  | key_error ↦ ⊥
  | runtime_error ↦ ⊥
  | overflow_error ↦ Unit
]

-- A call that returns what the predicate holds of, or raises what `int` of a size raises.
abbrev pub Returns {ℓ} : {A : Type ℓ} → (A → Type 0) → Result A → Type 0
Returns P (err e) = IsRaised e
Returns P (ok a) = P a

pub Returns-bind {ℓ κ} :
    {A : Type ℓ} {B : Type κ} {P : A → Type 0} (Q : B → Type 0) (call : Result A)
    (next : A → Result B)
    → Returns P call
    → ((a : A) → P a → Returns Q (next a))
    → Returns Q (call >>= next)
Returns-bind Q (err e) next h k = h
Returns-bind Q (ok a) next h k = k a h

pub Returns-and {ℓ} :
    {A : Type ℓ} (P Q : A → Type 0) (call : Result A)
    → Returns P call
    → Returns Q call
    → Returns (λ a. P a × Q a) call
Returns-and P Q (err e) h k = h
Returns-and P Q (ok a) h k = (h, k)

pub elem-discard : (x k : ℕ) (js : List ℕ) → elem x (discard k js) ≡ (not (k == x) && elem x js)
unfolding discard
elem-discard x k [] = ground arith
elem-discard x k (j ∷ js) = ground (arith, elem-discard x k js)

-- The invariant, for one tensor.
abbrev pub ConsistentAt : Spills → ℕ → Type 0
ConsistentAt s t =
    elem t s.spilled ≡ true
    → (contains t s.live ≡ false)
      × (contains t s.shared_reload ≡ false)
      × (contains t s.spill_op_for ≡ true)

abbrev pub Consistent : Spills → Type 0
Consistent s = (t : ℕ) → ConsistentAt s t

-- A tensor that is put back is no longer spilled, and nothing changes for the others.
restored :
    (s : Spills) (tensor : ℕ) (place : ℕ × ℕ) (reloads : Dict ℕ)
    → ((t : ℕ) → (tensor == t) ≡ false → contains t reloads ≡ contains t s.shared_reload)
    → Consistent s
    → (t : ℕ) → elem t (discard tensor s.spilled) ≡ true
    → (contains t (set tensor place s.live) ≡ false)
      × (contains t reloads ≡ false)
      × (contains t (remove tensor s.spill_op_for) ≡ true)
restored s tensor place reloads same h t e =
    let before : (tensor == t) ≡ false × elem t s.spilled ≡ true =
      ground (arith, elem-discard t tensor s.spilled, e) in
    let (live, reloaded, spiller) = h t before.1 in
    (
      contains-set tensor t place s.live ∙ rw (before.0, live),
      same t before.0 ∙ reloaded,
      contains-remove tensor t s.spill_op_for ∙ rw (before.0, spiller),
    )

-- An output is not spilled, whatever it was before.
restored_output :
    (s : Spills) (tensor : ℕ) (place : ℕ × ℕ)
    → Consistent s
    → Consistent (record s {
      live = set tensor place s.live;
      spilled = discard tensor s.spilled;
      spill_op_for = remove tensor s.spill_op_for;
    })
restored_output s tensor place h = restored s tensor place s.shared_reload (λ t ne. refl) h

module _ (texts : Texts) (value_nbytes : Dict ℕ) where
  pub loaded-Consistent :
      (s : Spills) (inst : PlanInstruction) (tensor : ℕ)
      → Consistent s
      → Consistent (loaded texts value_nbytes s inst tensor)
  unfolding loaded
  loaded-Consistent s inst tensor h =
      restored s tensor _ _
        (λ t ne. contains-set tensor t (texts.load_name tensor inst.name) s.shared_reload ∙ rw ne) h

  pub transferred-Consistent :
      (s : Spills) (inst : PlanInstruction) (tensor : ℕ)
      → Consistent s
      → Consistent (transferred texts value_nbytes s inst tensor)
  unfolding loaded transferred
  transferred-Consistent s inst tensor h t e =
      let next = loaded-Consistent s inst tensor h t e in
      let other : (tensor == t) ≡ false = ground (arith, elem-discard t tensor s.spilled, e) in
      (
        contains-set tensor t _ (loaded texts value_nbytes s inst tensor).live ∙ rw (other, next.0),
        contains-set tensor t _ (loaded texts value_nbytes s inst tensor).shared_reload
            ∙ rw (other, next.1),
        next.2,
      )

  -- What a round of the loop over the inputs does, case by case.
  pub reload_input-cases :
      (inst : PlanInstruction) (s : Spills) (deps : List ℕ) (tensor : ℕ)
      → ((op : ℕ) × (get tensor s.shared_reload ≡ some op)
          × (reload_input texts value_nbytes inst (s, deps) tensor ≡ (s, deps ++ op ∷ [])))
        ⊎ (get tensor s.shared_reload ≡ none)
          × (elem tensor s.spilled ≡ false)
          × (reload_input texts value_nbytes inst (s, deps) tensor ≡ (s, deps))
        ⊎ (elem tensor s.spilled ≡ true)
          × (reload_input texts value_nbytes inst (s, deps) tensor ≡ (
            loaded texts value_nbytes s inst tensor,
            deps ++ texts.load_name tensor inst.name ∷ [],
          ))
        ⊎ (elem tensor s.spilled ≡ true)
          × (reload_input texts value_nbytes inst (s, deps) tensor ≡ (
            transferred texts value_nbytes s inst tensor,
            deps
                ++ texts.load_name tensor inst.name
                  ∷ texts.transfer_name tensor inst.resource inst.name
                  ∷ [],
          ))
  unfolding reload_input
  reload_input-cases inst s deps tensor = elim (Option-cases (get tensor s.shared_reload)) [
    | inr (op, found) ↦ inl (op, found, rw (found, reload_input))
    | inl absent ↦ elim (Bool-cases (elem tensor s.spilled)) [
      | inr here ↦ inr (inl (absent, here, rw (absent, here, reload_input)))
      | inl away ↦ elim (Bool-cases ((host_for texts inst.resource).0 == inst.resource)) [
        | inl same ↦ inr (inr (inl (away, rw (absent, away, same, reload_input))))
        | inr other ↦ inr (inr (inr (away, rw (absent, away, other, reload_input))))
      ]
    ]
  ]

  pub reload_input-Consistent :
      (inst : PlanInstruction) (s : Spills) (deps : List ℕ) (tensor : ℕ)
      → Consistent s
      → Consistent (reload_input texts value_nbytes inst (s, deps) tensor).0
  reload_input-Consistent inst s deps tensor h = elim (reload_input-cases inst s deps tensor) [
    | inl (op, found, eq) ↦ rw eq h
    | inr (inl (absent, here, eq)) ↦ rw eq h
    | inr (inr (inl (away, eq))) ↦ rw eq (loaded-Consistent s inst tensor h)
    | inr (inr (inr (away, eq))) ↦ rw eq (transferred-Consistent s inst tensor h)
  ]

  pub reload_inputs-Consistent :
      (inst : PlanInstruction) (s : Spills) (deps tensors : List ℕ)
      → Consistent s
      → Consistent (reload_inputs texts value_nbytes inst (s, deps) tensors).0
  unfolding reload_inputs
  reload_inputs-Consistent inst s deps [] h = h
  reload_inputs-Consistent inst s deps (tensor ∷ tensors) h =
      let next = reload_input texts value_nbytes inst (s, deps) tensor in
      reload_inputs-Consistent inst next.0 next.1 tensors
        (reload_input-Consistent inst s deps tensor h)

at_least_one-Returns : (size : Size) → Returns (λ n. Unit {0}) (at_least_one size)
at_least_one-Returns (bytes n) = tt
at_least_one-Returns (below_zero n) = tt
at_least_one-Returns missing = tt
at_least_one-Returns not_a_number = tt
at_least_one-Returns not_convertible = tt
at_least_one-Returns infinite = tt

pub tensor_nbytes_of-Returns :
    (value_nbytes : Dict ℕ) (inst : PlanInstruction) (tensor : ℕ)
    → Returns (λ n. Unit {0}) (tensor_nbytes_of value_nbytes inst tensor)
unfolding tensor_nbytes_of
tensor_nbytes_of-Returns value_nbytes inst tensor = elim (Option-cases (get tensor value_nbytes)) [
  | inr (n, known) ↦ rw (known, tensor_nbytes_of) tt
  | inl absent ↦ elim (Option-cases (get tensor (raw_of inst))) [
    | inr (size, found) ↦ rw (absent, found, tensor_nbytes_of) (at_least_one-Returns size)
    | inl unlisted ↦ rw (absent, unlisted, tensor_nbytes_of) tt
  ]
]

pub produce-Consistent :
    (value_nbytes : Dict ℕ) (inst : PlanInstruction) (tensors : List ℕ) (s : Spills)
    → Consistent s
    → Returns Consistent (produce value_nbytes inst s tensors)
unfolding produce
produce-Consistent value_nbytes inst [] s h = h
produce-Consistent value_nbytes inst (tensor ∷ tensors) s h =
    Returns-bind Consistent (tensor_nbytes_of value_nbytes inst tensor) _
      (tensor_nbytes_of-Returns value_nbytes inst tensor)
      (λ n u.
        produce-Consistent value_nbytes inst tensors
          (record s {
            live = set tensor (inst.resource, n) s.live;
            spilled = discard tensor s.spilled;
            spill_op_for = remove tensor s.spill_op_for;
          })
          (restored_output s tensor (inst.resource, n) h))
