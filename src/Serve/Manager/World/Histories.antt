-- ===== src/Serve/Manager/World/Histories.antt =====
-- The histories of a manager: the calls of its callers in any order, from the empty manager.
use tensor_torrent.Base.{
  ℕ, ◌≤◌, ◌≡◌, refl, subst, inl, inr, true, false, List, [], ◌∷◌, none, some, arith, elem, count,
  elem-count, leb, ◌==◌, if◌then◌else◌, Bool-cases, Option-cases, ok, err, tensor_torrent_error,
}
use tensor_torrent.Base.Dict.{get}
use tensor_torrent.Capacity.Ledger.{}
use tensor_torrent.Serve.Manager.{
  ModelSlot, ModelManager, new_manager, begin_unload, acquire, mark_warm, current_slot, retire_slot,
  count_one, heat,
}
use tensor_torrent.Serve.Manager.World.{
  World, Current, Inv, Event, step, loads, begins_unload, ends_unload, acquires, releases, warms,
  sweeps, current_slot-found,
}
use tensor_torrent.Serve.Manager.World.Steps.{slot_at, heat-Inv, count_one-Inv, retire_slot-Inv}
use tensor_torrent.Serve.Manager.World.Releases.{releases-Inv, ends_unload-Inv, sweeps-Inv}
use tensor_torrent.Serve.Manager.World.Loads.{loads-Inv}

abbrev pub no_calls : World
no_calls = record { manager = new_manager; held = []; unloading = [] }

unfoldable pub run : World → List Event → World
run w [] = w
run w (e ∷ es) = run (step w e) es

module _ (m : ModelManager) (id : ℕ) where
  acquire_absent : current_slot m id ≡ none → acquire m id ≡ err tensor_torrent_error
  unfolding acquire
  acquire_absent h = ground arith

  acquire_found :
      {addr : ℕ} {slot : ModelSlot}
      → current_slot m id ≡ some (addr, slot)
      → acquire m id ≡ (
          if leb slot.concurrency_limit slot.in_flight
          then err tensor_torrent_error
          else ok (count_one m addr slot, addr))
  unfolding acquire
  acquire_found h = ground arith

  begin_unload_absent : current_slot m id ≡ none → begin_unload m id ≡ err tensor_torrent_error
  unfolding begin_unload
  begin_unload_absent h = ground arith

  begin_unload_found :
      {addr : ℕ} {slot : ModelSlot}
      → current_slot m id ≡ some (addr, slot)
      → begin_unload m id ≡ ok (retire_slot m id addr slot, addr)
  unfolding begin_unload
  begin_unload_found h = ground arith

  mark_warm_absent : (a : ℕ) → current_slot m id ≡ none → mark_warm m id a ≡ m
  unfolding mark_warm
  mark_warm_absent a h = ground arith

  mark_warm_found :
      (a : ℕ) {addr : ℕ} {slot : ModelSlot}
      → current_slot m id ≡ some (addr, slot)
      → mark_warm m id a ≡ (if addr == a then heat m addr slot else m)
  unfolding mark_warm
  mark_warm_found a h = ground arith

module _ (w : World) (v : Inv w) where
  Current-at :
      (id addr : ℕ) (slot : ModelSlot)
      → get id w.manager.models ≡ some addr
      → get addr w.manager.store ≡ some slot
      → Current id (some slot)
  Current-at id addr slot published found = subst (Current id) found (v.current id addr published)

  acquires-Inv : (id : ℕ) → Inv (step w (acquires id))
  unfolding step
  acquires-Inv id = elim (Option-cases (current_slot w.manager id)) [
    | inl absent ↦ rw (acquire_absent w.manager id absent) v
    | inr ((addr, slot), current) ↦
        let (published, found) = current_slot-found w.manager id current in
        elim (Bool-cases (leb slot.concurrency_limit slot.in_flight)) [
          | inl full ↦ rw (acquire_found w.manager id current, full) v
          | inr room ↦
              rw (acquire_found w.manager id current, room)
                (count_one-Inv w v addr slot found room (Current-at id addr slot published found).1)
        ]
  ]

  begins_unload-Inv : (id : ℕ) → Inv (step w (begins_unload id))
  unfolding step
  begins_unload-Inv id = elim (Option-cases (current_slot w.manager id)) [
    | inl absent ↦ rw (begin_unload_absent w.manager id absent) v
    | inr ((addr, slot), current) ↦
        let (published, found) = current_slot-found w.manager id current in
        let (same, unretired) = Current-at id addr slot published found in
        rw (begin_unload_found w.manager id current)
          (retire_slot-Inv w v addr slot found id published same unretired)
  ]

  warms-Inv : (id addr : ℕ) → Inv (step w (warms id addr))
  unfolding step
  warms-Inv id addr = elim (Option-cases (current_slot w.manager id)) [
    | inl absent ↦ rw (mark_warm_absent w.manager id addr absent) v
    | inr ((a, slot), current) ↦
        let (published, found) = current_slot-found w.manager id current in
        elim (Bool-cases (a == addr)) [
          | inr replaced ↦ rw (mark_warm_found w.manager id addr current, replaced) v
          | inl still ↦
              rw (mark_warm_found w.manager id addr current, still)
                (heat-Inv w v a slot found (Current-at id a slot published found).1)
        ]
  ]

  step-Inv : (e : Event) → Inv (step w e)
  step-Inv (loads id compiled_module ledger limit version) =
      loads-Inv w v id compiled_module ledger limit version
  step-Inv (begins_unload id) = begins_unload-Inv id
  step-Inv (ends_unload addr) = ends_unload-Inv w v addr
  step-Inv (acquires id) = acquires-Inv id
  step-Inv (releases addr) = releases-Inv w v addr
  step-Inv (warms id addr) = warms-Inv id addr
  step-Inv sweeps = sweeps-Inv w v

run-Inv : (w : World) → Inv w → (es : List Event) → Inv (run w es)
unfolding run
run-Inv w v [] = v
run-Inv w v (e ∷ es) = run-Inv (step w e) (step-Inv w v e) es

no_calls-Inv : Inv no_calls
unfolding new_manager get
no_calls-Inv = record { slots = λ x. (refl, refl, refl); current = λ id addr h. cc; listed = tt }

-- After any calls in any order in which only holders release, a slot's count is the number of
-- requests that hold it, which is at most its concurrency limit.
pub in_flight-run :
    (es : List Event) (addr : ℕ) {slot : ModelSlot}
    → get addr (run no_calls es).manager.store ≡ some slot
    → (slot.in_flight ≡ count addr (run no_calls es).held)
      × (slot.in_flight ≤ slot.concurrency_limit)
in_flight-run es addr found =
    let (c, below) = slot_at (run no_calls es) (run-Inv no_calls no_calls-Inv es) addr found in
    (c.counted, c.limited)

-- After any calls in any order in which only holders release, a slot that a request holds is not
-- closed, and for a slot its module's `close` has been called once if the slot is closed, and never
-- otherwise.
pub close-run :
    (es : List Event) (addr : ℕ) {slot : ModelSlot}
    → get addr (run no_calls es).manager.store ≡ some slot
    → (elem addr (run no_calls es).held ≡ true → slot.closed ≡ false)
      × (count addr (run no_calls es).manager.closes ≡ (if slot.closed then 1 else 0))
close-run es addr {slot} found =
    let w = run no_calls es in
    let (c, below) = slot_at w (run-Inv no_calls no_calls-Inv es) addr found in
    (
      λ held. elim (Bool-cases slot.closed) [
        | inr still ↦ still
        | inl is_closed ↦
            absurd (omega (arith, elem-count addr w.held held, c.counted, c.closed_idle is_closed))
      ],
      c.closes,
    )

-- After any calls in any order in which only holders release, a retired slot that no request holds
-- and that no call of `unload` is waiting for is closed.
pub retired-run :
    (es : List Event) (addr : ℕ) {slot : ModelSlot}
    → get addr (run no_calls es).manager.store ≡ some slot
    → slot.retired ≡ true
    → count addr (run no_calls es).held ≡ 0
    → elem addr (run no_calls es).unloading ≡ false
    → slot.closed ≡ true
retired-run es addr {slot} found retired unheld no_unload =
    let (c, below) = slot_at (run no_calls es) (run-Inv no_calls no_calls-Inv es) addr found in
    elim (Bool-cases slot.closed) [
      | inl is_closed ↦ is_closed
      | inr still ↦ ground (arith, c.counted, c.retired_used retired still)
    ]

-- After any calls in any order in which only holders release, a published slot is of the model id it
-- is published for, and it is neither retired nor closed.
pub current_slot-run :
    (es : List Event) (id : ℕ) {addr : ℕ} {slot : ModelSlot}
    → current_slot (run no_calls es).manager id ≡ some (addr, slot)
    → (slot.model_id ≡ id) × (slot.retired ≡ false) × (slot.closed ≡ false)
current_slot-run es id {addr} {slot} current =
    let w = run no_calls es in
    let v = run-Inv no_calls no_calls-Inv es in
    let (published, found) = current_slot-found w.manager id current in
    let (same, unretired) = Current-at w v id addr slot published found in
    let (c, below) = slot_at w v addr found in
    (
      same,
      unretired,
      elim (Bool-cases slot.closed) [
        | inr still ↦ still
        | inl is_closed ↦ cc ((c.closed_idle is_closed).1, unretired)
      ],
    )
