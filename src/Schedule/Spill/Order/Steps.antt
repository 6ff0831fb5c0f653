-- ===== src/Schedule/Spill/Order/Steps.antt =====
-- The reloads, the outputs and the compute instruction itself, as steps of the order, in
-- `plan_activation_spills` of python/tensortorrent/runtime/schedule/spill_plan.py.
use tensor_torrent.Base.{
  ℕ, ◌≡◌, refl, sym, subst, ◌⊎◌, inl, inr, true, List, [], ◌∷◌, ◌++◌, Option, none, some, ◌==◌,
  ==_iff, Bool-cases, elem, elem-append, arith,
}
use tensor_torrent.Base.Dict.{Dict, get, set, remove, get-set}
use tensor_torrent.Schedule.{PlanInstruction}
use tensor_torrent.Schedule.Liveness.{fromkeys}
use tensor_torrent.Schedule.Liveness.Frontier.{elem-fromkeys}
use tensor_torrent.Schedule.Spill.Reload.{
  Texts, Spills, discard, reload_load, reload_transfer, or_none, loaded, transferred, reload_input,
  reload_inputs, waiting, put_out, produce, tensor_nbytes_of,
}
use tensor_torrent.Schedule.Spill.{}
use tensor_torrent.Schedule.Spill.Consistency.{
  Returns, Returns-bind, Consistent, tensor_nbytes_of-Returns, reload_input-cases,
}
use tensor_torrent.Schedule.Spill.Invariant.{}
use tensor_torrent.Schedule.Spill.Budget.{}
use tensor_torrent.Schedule.Spill.Replay.{}
use tensor_torrent.Schedule.Spill.Order.{
  is_out, InOrder, get-remove_found, out_later, out_self, step-InOrder,
}

get-set_found :
    (k t v op : ℕ) (d : Dict ℕ) → get t (set k v d) ≡ some op → (v ≡ op) ⊎ (get t d ≡ some op)
get-set_found k t v op d h = elim (Bool-cases (k == t)) [
  | inl same ↦ inl (ground (arith, get-set k t v d, h, same))
  | inr other ↦ inr (ground (arith, get-set k t v d, h, other))
]

-- The names that a list of dependencies has are out.
abbrev AllOut : Spills → List ℕ → Type 0
AllOut s deps = (x : ℕ) → elem x deps ≡ true → is_out s x ≡ true

-- What a dict waits for stays out when a name that is out is written.
pub written_out :
    (s next : Spills) (k v : ℕ) (d : Dict ℕ)
    → ((x : ℕ) → is_out s x ≡ true → is_out next x ≡ true)
    → is_out next v ≡ true
    → ((t op : ℕ) → get t d ≡ some op → is_out s op ≡ true)
    → (t op : ℕ) → get t (set k v d) ≡ some op
    → is_out next op ≡ true
written_out s next k v d later here h t op e = elim (get-set_found k t v op d e) [
  | inl same ↦ subst (λ x. is_out next x ≡ true) same here
  | inr old ↦ later op (h t op old)
]

pub one_out : (s : Spills) (n : ℕ) → is_out s n ≡ true → AllOut s (n ∷ [])
one_out s n h x e = subst (λ k. is_out s k ≡ true) ((==_iff n x).0 (ground (arith, e))) h

or_none_out :
    (s : Spills) (o : Option ℕ)
    → ((op : ℕ) → o ≡ some op → is_out s op ≡ true)
    → AllOut s (or_none o)
or_none_out s none h x e = cc
or_none_out s (some op) h x e = one_out s op (h op refl) x e

pub append_out :
    (s : Spills) (deps more : List ℕ) → AllOut s deps → AllOut s more → AllOut s (deps ++ more)
append_out s deps more h k x e = elim (Bool-cases (elem x deps)) [
  | inl listed ↦ h x listed
  | inr other ↦ k x (ground (arith, elem-append x deps more, e, other))
]

pub fromkeys_out : (s : Spills) (deps : List ℕ) → AllOut s deps → AllOut s (fromkeys [] deps)
fromkeys_out s deps h x e = h x (ground (arith, elem-fromkeys x [] deps, e))

module _ (texts : Texts) (value_nbytes : Dict ℕ) (inst : PlanInstruction) (given : List ℕ) where
  loaded-InOrder :
      (s : Spills) (t : ℕ) → InOrder given s → InOrder given (loaded texts value_nbytes s inst t)
  unfolding loaded reload_load
  loaded-InOrder s t h =
      let next = loaded texts value_nbytes s inst t in
      let load = reload_load texts value_nbytes s inst t in
      let later = out_later given s next load refl in
      step-InOrder given s next load refl h (or_none_out s (get t s.spill_op_for) (h.spillers t))
        (λ k op e. later op (h.spillers k op (get-remove_found t k op s.spill_op_for e)))
        (written_out s next t load.name s.shared_reload later (out_self given s next load refl)
          h.reloads)

  transferred-InOrder :
      (s : Spills) (t : ℕ)
      → InOrder given (loaded texts value_nbytes s inst t)
      → InOrder given (transferred texts value_nbytes s inst t)
  unfolding loaded reload_load transferred reload_transfer
  transferred-InOrder s t h =
      let before = loaded texts value_nbytes s inst t in
      let next = transferred texts value_nbytes s inst t in
      let move = reload_transfer texts value_nbytes s inst t in
      let later = out_later given before next move refl in
      step-InOrder given before next move refl h
        (one_out before (texts.load_name t inst.name)
          (out_self given s before (reload_load texts value_nbytes s inst t) refl))
        (λ k op e. later op (h.spillers k op e))
        (written_out before next t move.name before.shared_reload later
          (out_self given before next move refl) h.reloads)

  abbrev Ready : Spills × List ℕ → Type 0
  Ready state = InOrder given state.0 × AllOut state.0 state.1

  reload_input-Ready :
      (s : Spills) (deps : List ℕ) (t : ℕ)
      → Ready (s, deps)
      → Ready (reload_input texts value_nbytes inst (s, deps) t)
  unfolding loaded transferred
  reload_input-Ready s deps t (h, k) = elim (reload_input-cases texts value_nbytes inst s deps t) [
    | inl (op, found, eq) ↦
        subst Ready (sym eq)
          (h, append_out s deps (op ∷ []) k (one_out s op (h.reloads t op found)))
    | inr (inl (absent, here, eq)) ↦ subst Ready (sym eq) (h, k)
    | inr (inr (inl (away, eq))) ↦
        let next = loaded texts value_nbytes s inst t in
        let load = reload_load texts value_nbytes s inst t in
        subst Ready (sym eq) (
          loaded-InOrder s t h,
          append_out next deps (load.name ∷ []) (λ x e. out_later given s next load refl x (k x e))
              (one_out next load.name (out_self given s next load refl)),
        )
    | inr (inr (inr (away, eq))) ↦
        let before = loaded texts value_nbytes s inst t in
        let load = reload_load texts value_nbytes s inst t in
        let next = transferred texts value_nbytes s inst t in
        let move = reload_transfer texts value_nbytes s inst t in
        let later = out_later given before next move refl in
        subst Ready (sym eq) (
          transferred-InOrder s t (loaded-InOrder s t h),
          append_out next deps (load.name ∷ move.name ∷ [])
              (λ x e. later x (out_later given s before load refl x (k x e)))
              (append_out next (load.name ∷ []) (move.name ∷ [])
                (one_out next load.name (later load.name (out_self given s before load refl)))
                (one_out next move.name (out_self given before next move refl))),
        )
  ]

  pub reload_inputs-Ready :
      (tensors : List ℕ) (s : Spills) (deps : List ℕ)
      → Ready (s, deps)
      → Ready (reload_inputs texts value_nbytes inst (s, deps) tensors)
  unfolding reload_inputs
  reload_inputs-Ready [] s deps h = h
  reload_inputs-Ready (t ∷ tensors) s deps h =
      let next = reload_input texts value_nbytes inst (s, deps) t in
      reload_inputs-Ready tensors next.0 next.1 (reload_input-Ready s deps t h)

pub produce-InOrder :
    (value_nbytes : Dict ℕ) (inst : PlanInstruction) (given tensors : List ℕ) (s : Spills)
    → InOrder given s
    → Returns (InOrder given) (produce value_nbytes inst s tensors)
unfolding produce
produce-InOrder value_nbytes inst given [] s h = h
produce-InOrder value_nbytes inst given (tensor ∷ tensors) s h =
    Returns-bind (InOrder given) (tensor_nbytes_of value_nbytes inst tensor) _
      (tensor_nbytes_of-Returns value_nbytes inst tensor)
      (λ n u.
        produce-InOrder value_nbytes inst given tensors
          (record s {
            live = set tensor (inst.resource, n) s.live;
            spilled = discard tensor s.spilled;
            spill_op_for = remove tensor s.spill_op_for;
          })
          (record {
            ordered = h.ordered;
            spillers = λ t op e. h.spillers t op (get-remove_found tensor t op s.spill_op_for e);
            reloads = h.reloads;
            given_out = h.given_out;
          }))

-- An instruction of the schedule goes out, with more to wait for.
pub put_out-InOrder :
    (given : List ℕ) (s : Spills) (inst : PlanInstruction)
    → InOrder given s
    → AllOut s inst.depends_on
    → InOrder (inst.name ∷ given) (put_out inst s)
unfolding put_out
put_out-InOrder given s inst h waits =
    let next = put_out inst s in
    let later = out_later given s next inst refl in
    let base =
      step-InOrder given s next inst refl h waits (λ t op e. later op (h.spillers t op e))
        (λ t op e. later op (h.reloads t op e)) in
    record {
      ordered = base.ordered;
      spillers = base.spillers;
      reloads = base.reloads;
      given_out = λ x e. elim (Bool-cases (inst.name == x)) [
        | inl same ↦
            subst (λ k. is_out next k ≡ true) ((==_iff inst.name x).0 same)
              (out_self given s next inst refl)
        | inr other ↦ base.given_out x (ground (arith, e, other))
      ];
    }

pub put_out-Consistent :
    (s : Spills) (inst : PlanInstruction) → Consistent s → Consistent (put_out inst s)
unfolding put_out
put_out-Consistent s inst h = h

pub waiting_out :
    (s : Spills) (inst : PlanInstruction) (deps : List ℕ)
    → AllOut s inst.depends_on
    → AllOut s deps
    → AllOut s (waiting inst deps).depends_on
unfolding waiting
waiting_out s inst [] h k = h
waiting_out s inst (dep ∷ deps) h k =
    fromkeys_out s (inst.depends_on ++ dep ∷ deps) (append_out s inst.depends_on (dep ∷ deps) h k)

pub waiting-name : (inst : PlanInstruction) (deps : List ℕ) → (waiting inst deps).name ≡ inst.name
unfolding waiting
waiting-name inst [] = refl
waiting-name inst (dep ∷ deps) = refl
