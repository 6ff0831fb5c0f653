-- ===== src/Serve/Manager/World/Releases.antt =====
-- `release_slot`, the end of `unload`, and the last loop of `shutdown` keep the invariant.
use tensor_torrent.Base.{
  All, All-mono, ℕ, ◌-◌, ◌<◌, ◌≡◌, refl, subst, inl, inr, true, false, not, ◌&&◌, List, [], ◌∷◌,
  Option, none, some, arith, elem, erase, count-erase, elem-count, elem-erase_ne, ◌==◌, Bool-cases,
  Option-cases,
}
use tensor_torrent.Base.Dict.{get, set, get-set, get_written, All-values, values}
use tensor_torrent.Serve.Manager.{
  ModelSlot, ModelManager, close, close_idle, end_unload, drop_one, release_slot, sweep,
}
use tensor_torrent.Serve.Manager.World.{
  World, Slots, Retired, Inv, step, ends_unload, releases, sweeps, Touches-Inv,
}
use tensor_torrent.Serve.Manager.World.Steps.{slot_at, retired_write}

abbrev Ends : World → ℕ → ModelManager → List ℕ → World
Ends w addr m unloading = record w { manager = m; unloading = unloading }

module _ (w : World) (v : Inv w) (addr : ℕ) (slot : ModelSlot)
    (found : get addr w.manager.store ≡ some slot) where
  -- The retired slot is closed if it is idle. Who unloads it may then be done with it.
  close_idle-Inv :
      (unloading : List ℕ)
      → slot.retired ≡ true
      → ((x : ℕ) → (addr == x) ≡ false → elem x unloading ≡ elem x w.unloading)
      → Inv (Ends w addr (close_idle w.manager addr slot) unloading)
  unfolding close_idle close
  close_idle-Inv unloading retired others =
      let (c, below) = slot_at w v addr found in
      elim (Bool-cases (slot.in_flight == 0 && not slot.closed)) [
        | inl idle ↦
            retired_write w v addr slot found _ (record slot { closed = true }) retired
              (λ x. ground (arith, get-set addr x (record slot { closed = true }) w.manager.store))
              (ground arith) (ground arith) refl (λ x ne. ground (arith, others x ne)) retired
              (inr (ground arith))
              (record {
                counted = c.counted;
                limited = c.limited;
                closed_idle = λ e. ground arith;
                retired_used = λ r e. cc;
                unloading_retired = λ u. ground (arith, c.unloading_retired);
                closes = ground (arith, c.closes);
              })
        | inr busy ↦
            retired_write w v addr slot found _ slot retired
              (λ x. ground (arith, get_written addr x w.manager.store found)) (ground arith)
              (ground arith) refl (λ x ne. ground (arith, others x ne)) retired (inl (ground arith))
              (record {
                counted = c.counted;
                limited = c.limited;
                closed_idle = c.closed_idle;
                retired_used = λ r e. inl (ground arith);
                unloading_retired = λ u. ground (arith, c.unloading_retired);
                closes = ground (arith, c.closes);
              })
      ]

  -- The holder's release of a slot that is not retired, and of one that is.
  drop_current-Inv :
      elem addr w.held ≡ true
      → slot.retired ≡ false
      → Inv (record w { manager = drop_one w.manager addr slot; held = erase addr w.held })
  unfolding drop_one
  drop_current-Inv holds current =
      let (c, below) = slot_at w v addr found in
      Touches-Inv {new = record slot { in_flight = slot.in_flight - 1 }} v
        (record {
          found = found;
          written = λ x. ground (
            arith,
            get-set addr x (record slot { in_flight = slot.in_flight - 1 }) w.manager.store,
          );
          same_next = ground arith;
          same_id = refl;
          published = λ id a h. (ground arith, inr current);
          others = λ x ne. ground (arith, count-erase x addr w.held holds);
          stays = λ r. r;
          relisted = λ all now.
              let same : (drop_one w.manager addr slot).retired ≡ w.manager.retired =
                ground arith in
              rw same all;
        })
        (record {
          counted = ground (arith, c.counted, count-erase addr addr w.held holds);
          limited = ground (arith, c.limited);
          closed_idle = λ e. ground (arith, c.closed_idle e);
          retired_used = λ r e. cc;
          unloading_retired = λ u. ground (arith, c.unloading_retired);
          closes = ground (arith, c.closes);
        })

  drop_retired-Inv :
      elem addr w.held ≡ true
      → slot.retired ≡ true
      → Inv (record w { manager = drop_one w.manager addr slot; held = erase addr w.held })
  unfolding drop_one close_idle close
  drop_retired-Inv holds retired =
      let (c, below) = slot_at w v addr found in
      let less = record slot { in_flight = slot.in_flight - 1 } in
      elim (Bool-cases (slot.in_flight - 1 == 0 && not slot.closed)) [
        | inl idle ↦
            retired_write w v addr slot found _ (record less { closed = true }) retired
              (λ x. ground (
                arith,
                get-set addr x less w.manager.store,
                get-set addr x (record less { closed = true }) (set addr less w.manager.store),
              ))
              (ground arith) (ground arith) refl
              (λ x ne. ground (arith, count-erase x addr w.held holds)) retired (inr (ground arith))
              (record {
                counted = ground (arith, c.counted, count-erase addr addr w.held holds);
                limited = ground (arith, c.limited);
                closed_idle = λ e. ground arith;
                retired_used = λ r e. cc;
                unloading_retired = λ u. ground (arith, c.unloading_retired);
                closes = ground (arith, c.closes);
              })
        | inr busy ↦
            retired_write w v addr slot found _ less retired
              (λ x. ground (arith, get-set addr x less w.manager.store)) (ground arith)
              (ground arith) refl (λ x ne. ground (arith, count-erase x addr w.held holds)) retired
              (inl (ground arith))
              (record {
                counted = ground (arith, c.counted, count-erase addr addr w.held holds);
                limited = ground (arith, c.limited);
                closed_idle = λ e. ground (arith, c.closed_idle e);
                retired_used = λ r e. inl (ground arith);
                unloading_retired = λ u. ground (arith, c.unloading_retired);
                closes = ground (arith, c.closes);
              })
      ]

pub release_slot-found :
    (m : ModelManager) (addr : ℕ) (slot : ModelSlot)
    → get addr m.store ≡ some slot
    → 0 < slot.in_flight
    → release_slot m addr ≡ drop_one m addr slot
unfolding release_slot
release_slot-found m addr slot found busy = ground arith

end_unload-found :
    (m : ModelManager) (addr : ℕ) (slot : ModelSlot)
    → get addr m.store ≡ some slot
    → end_unload m addr ≡ close_idle m addr slot
unfolding end_unload
end_unload-found m addr slot found = ground arith

module _ (w : World) (v : Inv w) (addr : ℕ) where
  held_found :
      elem addr w.held ≡ true
      → (slot : ModelSlot) × (get addr w.manager.store ≡ some slot) × (0 < slot.in_flight)
  held_found holds = elim (Option-cases (get addr w.manager.store)) [
    | inl absent ↦
        let known : Slots w addr none = subst (Slots w addr) absent (v.slots addr) in
        absurd (omega (arith, elem-count addr w.held holds, known.0))
    | inr (slot, found) ↦
        let (c, below) = slot_at w v addr found in
        (slot, found, omega (arith, elem-count addr w.held holds, c.counted))
  ]

  pub releases-Inv : Inv (step w (releases addr))
  unfolding step
  releases-Inv = elim (Bool-cases (elem addr w.held)) [
    | inr not_held ↦ rw not_held v
    | inl holds ↦
        let (slot, found, busy) = held_found holds in
        rw (holds, release_slot-found w.manager addr slot found busy)
          (elim (Bool-cases slot.retired) [
            | inl retired ↦ drop_retired-Inv w v addr slot found holds retired
            | inr current ↦ drop_current-Inv w v addr slot found holds current
          ])
  ]

  unloading_found :
      elem addr w.unloading ≡ true
      → (slot : ModelSlot) × (get addr w.manager.store ≡ some slot) × (slot.retired ≡ true)
  unloading_found under_way = elim (Option-cases (get addr w.manager.store)) [
    | inl absent ↦
        let known : Slots w addr none = subst (Slots w addr) absent (v.slots addr) in
        absurd (cc (under_way, known.2))
    | inr (slot, found) ↦
        let (c, below) = slot_at w v addr found in (slot, found, c.unloading_retired under_way)
  ]

  pub ends_unload-Inv : Inv (step w (ends_unload addr))
  unfolding step
  ends_unload-Inv = elim (Bool-cases (elem addr w.unloading)) [
    | inr not_unloading ↦ rw not_unloading v
    | inl under_way ↦
        let (slot, found, retired) = unloading_found under_way in
        rw (under_way, end_unload-found w.manager addr slot found)
          (close_idle-Inv w v addr slot found (erase addr w.unloading) retired
            (λ x ne. elem-erase_ne x addr w.unloading ne))
  ]

end_unload-Retired :
    (m : ModelManager) (addr : ℕ) (slot : ModelSlot) (found : get addr m.store ≡ some slot)
    → slot.retired ≡ true
    → (a : ℕ) → Retired (get a m.store)
    → Retired (get a (close_idle m addr slot).store)
unfolding close_idle close
end_unload-Retired m addr slot found retired a r =
    elim (Bool-cases (slot.in_flight == 0 && not slot.closed)) [
      | inr busy ↦ rw busy r
      | inl idle ↦
          rw (idle, get-set addr a (record slot { closed = true }) m.store)
            (elim (Bool-cases (addr == a)) [ inl same ↦ rw same retired | inr other ↦ rw other r ])
    ]

Retired-found :
    (s : Option ModelSlot)
    → Retired s
    → (slot : ModelSlot) × (s ≡ some slot) × (slot.retired ≡ true)
Retired-found none r = absurd r
Retired-found (some slot) r = (slot, refl, r)

sweep-Inv :
    (w : World)
    → Inv w
    → (addrs : List ℕ) → All (λ a. Retired (get a w.manager.store)) addrs
    → Inv (record w { manager = sweep w.manager addrs })
unfolding sweep
sweep-Inv w v [] all = v
sweep-Inv w v (addr ∷ addrs) (r, rest) =
    let (slot, found, retired) = Retired-found _ r in
    rw (end_unload-found w.manager addr slot found) (
      sweep-Inv (Ends w addr (close_idle w.manager addr slot) w.unloading)
        (close_idle-Inv w v addr slot found w.unloading retired (λ x ne. refl)) addrs
        (All-mono (λ a. end_unload-Retired w.manager addr slot found retired a) addrs rest))

pub sweeps-Inv : (w : World) → Inv w → Inv (step w sweeps)
unfolding step
sweeps-Inv w v =
    sweep-Inv w v (values w.manager.retired)
      (All-values (λ a. Retired (get a w.manager.store)) w.manager.retired v.listed)
