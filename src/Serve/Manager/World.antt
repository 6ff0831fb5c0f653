-- ===== src/Serve/Manager/World.antt =====
-- The manager among its callers: requests that hold slots, calls of `unload` under way, in any order.
pub mod Steps
pub mod Releases
pub mod Loads
pub mod Doubles
pub mod Histories
mod Tests
use tensor_torrent.Base.{
  All, All-mono, ℕ, suc, ◌+◌, ◌-◌, ◌≤◌, ◌<◌, min, ◌≡◌, refl, ◌∙◌, subst, sym, ◌⊎◌, inl, inr, Bool,
  true, false, List, [], ◌∷◌, Option, none, some, arith, elem, count, erase, count-erase,
  elem-count, ◌==◌, if◌then◌else◌, Result, ok, err, Option-cases, Bool-cases, ==_iff,
}
use tensor_torrent.Base.Dict.{Dict, get, set, remove, get-set, get-remove, values}
use tensor_torrent.Capacity.Ledger.{CapacityLedger, max_concurrent}
use tensor_torrent.Serve.Manager.{
  ModelSlot, ModelManager, new_manager, close, fresh_slot, retire_old, publish, load, begin_unload,
  close_idle, end_unload, acquire, drop_one, release_slot, release_target, mark_warm, sweep,
  current_slot, at,
}

-- `held` has an address for each request that acquired a slot and has not released it.
pub record World : Type 0 where
  pub manager : ModelManager
  pub held : List ℕ
  pub unloading : List ℕ

-- What a slot's fields say of the callers.
pub record IsCounted (w : World) (addr : ℕ) (slot : ModelSlot) : Type 0 where
  counted : slot.in_flight ≡ count addr w.held
  limited : slot.in_flight ≤ slot.concurrency_limit
  closed_idle : slot.closed ≡ true → (slot.in_flight ≡ 0) × (slot.retired ≡ true)
  retired_used :
      slot.retired ≡ true
      → slot.closed ≡ false
      → (0 < slot.in_flight) ⊎ (elem addr w.unloading ≡ true)
  unloading_retired : elem addr w.unloading ≡ true → slot.retired ≡ true
  closes : count addr w.manager.closes ≡ (if slot.closed then 1 else 0)

abbrev pub Slots : World → ℕ → Option ModelSlot → Type 0
Slots w addr none =
    (count addr w.held ≡ 0) × (count addr w.manager.closes ≡ 0) × (elem addr w.unloading ≡ false)
Slots w addr (some slot) = IsCounted w addr slot × (addr < w.manager.next)

-- A published slot is of its model id and not retired.
abbrev pub Current : ℕ → Option ModelSlot → Type 0
Current id none = ⊥
Current id (some slot) = (slot.model_id ≡ id) × (slot.retired ≡ false)

abbrev pub Retired : Option ModelSlot → Type 0
Retired none = ⊥
Retired (some slot) = slot.retired ≡ true

pub record Inv (w : World) : Type 0 where
  slots : (x : ℕ) → Slots w x (get x w.manager.store)
  current :
      (id addr : ℕ) → get id w.manager.models ≡ some addr → Current id (get addr w.manager.store)
  listed : All (λ e. Retired (get e.1 w.manager.store)) w.manager.retired

pub data Event : Type 0 where
  loads :
      (model_id compiled_module : ℕ) (ledger : CapacityLedger) (concurrency_limit version : ℕ)
      → Event
  begins_unload : (model_id : ℕ) → Event
  ends_unload : (addr : ℕ) → Event
  acquires : (model_id : ℕ) → Event
  releases : (addr : ℕ) → Event
  warms : (model_id addr : ℕ) → Event
  sweeps : Event

abbrev after_load : World → Result ModelManager → World
after_load w (ok m) = record w { manager = m }
after_load w (err e) = w

abbrev after_begin : World → Result (ModelManager × ℕ) → World
after_begin w (ok (m, addr)) = record w { manager = m; unloading = addr ∷ w.unloading }
after_begin w (err e) = w

abbrev after_acquire : World → Result (ModelManager × ℕ) → World
after_acquire w (ok (m, addr)) = record w { manager = m; held = addr ∷ w.held }
after_acquire w (err e) = w

-- A call that raises changes nothing. Who does not hold a slot does not release it.
pub step : World → Event → World
step w (loads model_id compiled_module ledger limit version) =
    after_load w (load w.manager model_id compiled_module ledger limit version)
step w (begins_unload model_id) = after_begin w (begin_unload w.manager model_id)
step w (ends_unload addr) =
    if elem addr w.unloading
    then record w { manager = end_unload w.manager addr; unloading = erase addr w.unloading }
    else w
step w (acquires model_id) = after_acquire w (acquire w.manager model_id)
step w (releases addr) =
    if elem addr w.held
    then record w { manager = release_slot w.manager addr; held = erase addr w.held }
    else w
step w (warms model_id addr) = record w { manager = mark_warm w.manager model_id addr }
step w sweeps = record w { manager = sweep w.manager (values w.manager.retired) }

current_slot-found :
    (m : ModelManager) (id : ℕ) {addr : ℕ} {slot : ModelSlot}
    → current_slot m id ≡ some (addr, slot)
    → (get id m.models ≡ some addr) × (get addr m.store ≡ some slot)
unfolding current_slot
current_slot-found m id h = ground arith

at-found :
    (m : ModelManager) (addr : ℕ) {a : ℕ} {slot : ModelSlot}
    → at m addr ≡ some (a, slot)
    → (a ≡ addr) × (get addr m.store ≡ some slot)
unfolding at
at-found m addr h = ground arith

-- A step that writes one slot, and what it leaves alone.
record Touches (w w' : World) (addr : ℕ) (old new : ModelSlot) : Type 0 where
  found : get addr w.manager.store ≡ some old
  written :
      (x : ℕ) → get x w'.manager.store ≡ (if addr == x then some new else get x w.manager.store)
  same_next : w'.manager.next ≡ w.manager.next
  same_id : new.model_id ≡ old.model_id
  published :
      (id a : ℕ)
      → get id w'.manager.models ≡ some a
      → (get id w.manager.models ≡ some a) × (((addr == a) ≡ false) ⊎ (new.retired ≡ false))
  others :
      (x : ℕ)
      → (addr == x) ≡ false
      → (count x w'.held ≡ count x w.held)
        × (count x w'.manager.closes ≡ count x w.manager.closes)
        × (elem x w'.unloading ≡ elem x w.unloading)
  stays : old.retired ≡ true → new.retired ≡ true
  relisted :
      All (λ e. Retired (get e.1 w'.manager.store)) w.manager.retired
      → (new.retired ≡ true → Retired (get addr w'.manager.store))
      → All (λ e. Retired (get e.1 w'.manager.store)) w'.manager.retired

module _ {w w' : World} {addr : ℕ} {old new : ModelSlot} (v : Inv w)
    (t : Touches w w' addr old new) where
  Slots-other : (x : ℕ) → (addr == x) ≡ false → (s : Option ModelSlot) → Slots w x s → Slots w' x s
  Slots-other x ne none h = ground (arith, t.others x ne)
  Slots-other x ne (some slot) h =
      let (held, closes, unloading) = t.others x ne in
      (
        record {
          counted = omega (arith, h.0.counted, held);
          limited = h.0.limited;
          closed_idle = h.0.closed_idle;
          retired_used = λ r c. ground (arith, h.0.retired_used r c);
          unloading_retired = λ u. ground (arith, h.0.unloading_retired);
          closes = closes ∙ h.0.closes;
        },
        omega (arith, t.same_next),
      )

  old-Slots : Slots w addr (some old)
  old-Slots = subst (Slots w addr) t.found (v.slots addr)

  Touches-Slots : IsCounted w' addr new → (x : ℕ) → Slots w' x (get x w'.manager.store)
  Touches-Slots c x = elim (Bool-cases (addr == x)) [
    | inl same ↦
        rw (t.written x, same)
          (subst (λ y. Slots w' y (some new)) ((==_iff addr x).0 same)
            (c, omega (arith, t.same_next, old-Slots.1)))
    | inr other ↦ rw (t.written x, other) (Slots-other x other _ (v.slots x))
  ]

  Touches-Current :
      (id a : ℕ) → get id w'.manager.models ≡ some a → Current id (get a w'.manager.store)
  Touches-Current id a h =
      let (before, kept) = t.published id a h in
      elim (Bool-cases (addr == a)) [
        | inl same ↦
            let was : Current id (get addr w.manager.store) =
              subst (λ y. Current id (get y w.manager.store)) (sym ((==_iff addr a).0 same))
                (v.current id a before) in
            rw (t.written a, same) (ground (arith, t.found, t.same_id, was, kept))
        | inr other ↦ rw (t.written a, other) (v.current id a before)
      ]

  Touches-Retired : (a : ℕ) → Retired (get a w.manager.store) → Retired (get a w'.manager.store)
  Touches-Retired a r = elim (Bool-cases (addr == a)) [
    | inl same ↦
        rw (t.written a, same)
          (t.stays (
            subst Retired t.found
              (subst (λ y. Retired (get y w.manager.store)) (sym ((==_iff addr a).0 same)) r)))
    | inr other ↦ rw (t.written a, other) r
  ]

  Touches-listed : All (λ e. Retired (get e.1 w'.manager.store)) w'.manager.retired
  Touches-listed =
      t.relisted (All-mono (λ e. Touches-Retired e.1) w.manager.retired v.listed)
        (λ now. rw (t.written addr, (==_iff addr addr).1 refl) now)

  Touches-Inv : IsCounted w' addr new → Inv w'
  Touches-Inv c = record {
    slots = Touches-Slots c;
    current = Touches-Current;
    listed = Touches-listed;
  }
