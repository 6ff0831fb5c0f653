-- ===== src/Serve/Manager/World/Loads.antt =====
-- `load` keeps the invariant: a slot is published, then the prior generation is retired.
use tensor_torrent.Base.{
  All-mono, ℕ, min, ◌≡◌, refl, ◌∙◌, subst, sym, inl, inr, true, false, Option, none, some, arith,
  ltb, ◌==◌, ==_iff, if◌then◌else◌, Bool-cases, Option-cases,
}
use tensor_torrent.Base.Dict.{get, set, get-set, All-set}
use tensor_torrent.Capacity.Ledger.{CapacityLedger, max_concurrent}
use tensor_torrent.Serve.Manager.{
  ModelSlot, close, fresh_slot, retire_old, publish, load, current_slot,
}
use tensor_torrent.Serve.Manager.World.{
  World, Slots, Retired, Current, Inv, step, loads, current_slot-found, Touches-Inv,
}
use tensor_torrent.Serve.Manager.World.Steps.{slot_at}

abbrev Published : World → ℕ → ModelSlot → World
Published w id slot = record w { manager = publish w.manager id slot }

module _ (w : World) (v : Inv w) where
  absent_next : get w.manager.next w.manager.store ≡ none
  absent_next = elim (Option-cases (get w.manager.next w.manager.store)) [
    | inl absent ↦ absent
    | inr (slot, found) ↦ absurd (omega (arith, (slot_at w v w.manager.next found).1))
  ]

  unused_next : Slots w w.manager.next none
  unused_next = subst (Slots w w.manager.next) absent_next (v.slots w.manager.next)

  present_ne :
      (P : Option ModelSlot → Type 0)
      → (P none → ⊥)
      → (a : ℕ) → P (get a w.manager.store)
      → (w.manager.next == a) ≡ false
  present_ne P empty a p = elim (Bool-cases (w.manager.next == a)) [
    | inr other ↦ other
    | inl same ↦ absurd (
        empty (
          subst P absent_next
            (subst (λ y. P (get y w.manager.store)) (sym ((==_iff w.manager.next a).0 same)) p)))
  ]

  module _ (id : ℕ) (slot : ModelSlot) (same_id : slot.model_id ≡ id)
      (unretired : slot.retired ≡ false) (unclosed : slot.closed ≡ false)
      (idle : slot.in_flight ≡ 0) where
    found_published :
        (x : ℕ)
        → get x (publish w.manager id slot).store
          ≡ (if w.manager.next == x then some slot else get x w.manager.store)
    unfolding publish
    found_published x = get-set w.manager.next x slot w.manager.store

    published_models :
        (j : ℕ)
        → get j (publish w.manager id slot).models
          ≡ (if id == j then some w.manager.next else get j w.manager.models)
    unfolding publish
    published_models j = get-set id j w.manager.next w.manager.models

    Slots-published :
        (x : ℕ) → (s : Option ModelSlot) → Slots w x s → Slots (Published w id slot) x s
    unfolding publish
    Slots-published x none h = h
    Slots-published x (some s) h = (
      record {
        counted = h.0.counted;
        limited = h.0.limited;
        closed_idle = h.0.closed_idle;
        retired_used = h.0.retired_used;
        unloading_retired = h.0.unloading_retired;
        closes = h.0.closes;
      },
      omega (arith, h.1),
    )

    Slots-new : Slots (Published w id slot) w.manager.next (some slot)
    unfolding publish
    Slots-new =
        let (unheld, unclosed_yet, unasked) = unused_next in
        (
          record {
            counted = ground (arith, unheld, idle);
            limited = ground (arith, idle);
            closed_idle = λ c. cc (c, unclosed);
            retired_used = λ r c. cc (r, unretired);
            unloading_retired = λ u. cc (u, unasked);
            closes = ground (arith, unclosed, unclosed_yet);
          },
          omega arith,
        )

    publish-Inv : Inv (Published w id slot)
    unfolding publish
    publish-Inv = record {
      slots = λ x. elim (Bool-cases (w.manager.next == x)) [
        | inl same ↦
            rw (found_published x, same)
              (subst (λ y. Slots (Published w id slot) y (some slot))
                ((==_iff w.manager.next x).0 same) Slots-new)
        | inr other ↦ rw (found_published x, other) (Slots-published x _ (v.slots x))
      ];
      current = λ j a h. elim (Bool-cases (id == j)) [
        | inl same ↦
            let here : (w.manager.next == a) ≡ true =
              ground (arith, published_models j, (==_iff w.manager.next a).1) in
            rw (found_published a, here) (same_id ∙ (==_iff id j).0 same, unretired)
        | inr other ↦
            let before : get j w.manager.models ≡ some a = ground (arith, published_models j) in
            let is_current = v.current j a before in
            rw (found_published a, present_ne (Current j) (λ e. e) a is_current) is_current
      ];
      listed =
          All-mono {Q = λ e. Retired (get e.1 (publish w.manager id slot).store)}
            (λ e r. rw (found_published e.1, present_ne Retired (λ n. n) e.1 r) r) w.manager.retired
            v.listed;
    }

    module _ (addr : ℕ) (old : ModelSlot) (published : get id w.manager.models ≡ some addr)
        (found : get addr w.manager.store ≡ some old) where
      before_next : (w.manager.next == addr) ≡ false
      before_next = present_ne (Current id) (λ e. e) addr (v.current id addr published)

      old-Current : Current id (some old)
      old-Current = subst (Current id) found (v.current id addr published)

      -- The prior generation is no longer published.
      replaced : (j a : ℕ) → get j (publish w.manager id slot).models ≡ some a → (addr == a) ≡ false
      replaced j a h = elim (Bool-cases (addr == a)) [
        | inr other ↦ other
        | inl same ↦ elim (Bool-cases (id == j)) [
          | inl here ↦ ground (arith, published_models j, before_next)
          | inr there ↦
              let before : get j w.manager.models ≡ some a = ground (arith, published_models j) in
              let is_current : Current j (some old) = subst (Current j) found (
                subst (λ y. Current j (get y w.manager.store)) (sym ((==_iff addr a).0 same))
                  (v.current j a before)) in
              ground (arith, is_current.0, old-Current.0)
        ]
      ]

      still_found : get addr (publish w.manager id slot).store ≡ some old
      still_found = rw (found_published addr, before_next) found

      unpublished_old :
          (j a : ℕ)
          → get j (retire_old (publish w.manager id slot) (some (addr, old))).models ≡ some a
          → get j (publish w.manager id slot).models ≡ some a
      unfolding retire_old close
      unpublished_old j a h = ground arith

      retire_old-Inv :
          Inv (record w { manager = retire_old (publish w.manager id slot) (some (addr, old)) })
      unfolding retire_old close
      retire_old-Inv =
          let (c, below) = slot_at (Published w id slot) publish-Inv addr still_found in
          elim (Bool-cases (old.in_flight == 0)) [
            | inl still ↦
                Touches-Inv {new = record old { retired = true; closed = true }} publish-Inv
                  (record {
                    found = still_found;
                    written = λ x. rw still (get-set addr x _ (publish w.manager id slot).store);
                    same_next = rw still refl;
                    same_id = refl;
                    published = λ j a h.
                        (unpublished_old j a h, inl (replaced j a (unpublished_old j a h)));
                    others = λ x ne. rw still (refl, ground arith, refl);
                    stays = λ r. refl;
                    relisted = λ all now.
                        let same : (retire_old (publish w.manager id slot)
                              (some (addr, old))).retired
                            ≡ (publish w.manager id slot).retired =
                          ground arith in
                        rw same all;
                  })
                  (record {
                    counted = c.counted;
                    limited = c.limited;
                    closed_idle = λ e. (ground arith, refl);
                    retired_used = λ r e. cc;
                    unloading_retired = λ u. refl;
                    closes = rw still (ground (arith, c.closes, c.closed_idle, old-Current.1));
                  })
            | inr busy ↦
                Touches-Inv {new = record old { retired = true }} publish-Inv
                  (record {
                    found = still_found;
                    written = λ x. rw busy (get-set addr x _ (publish w.manager id slot).store);
                    same_next = rw busy refl;
                    same_id = refl;
                    published = λ j a h.
                        (unpublished_old j a h, inl (replaced j a (unpublished_old j a h)));
                    others = λ x ne. rw busy (refl, refl, refl);
                    stays = λ r. refl;
                    relisted = λ all now.
                        let more : (retire_old (publish w.manager id slot)
                              (some (addr, old))).retired
                            ≡ set old.version addr (publish w.manager id slot).retired =
                          ground arith in
                        rw more (
                          All-set _ old.version addr (publish w.manager id slot).retired (now refl)
                            all);
                  })
                  (record {
                    counted = c.counted;
                    limited = c.limited;
                    closed_idle = λ e. (ground (arith, c.closed_idle e), refl);
                    retired_used = λ r e. inl (ground arith);
                    unloading_retired = λ u. refl;
                    closes = rw busy c.closes;
                  })
          ]

pub loads-Inv :
    (w : World)
    → Inv w
    → (id compiled_module : ℕ) (ledger : CapacityLedger) (limit version : ℕ)
    → Inv (step w (loads id compiled_module ledger limit version))
unfolding step load fresh_slot
loads-Inv w v id compiled_module ledger limit version =
    let fresh = fresh_slot id version compiled_module ledger (min limit (max_concurrent ledger)) in
    elim (Bool-cases (id == 0)) [
      | inl unnamed ↦ rw unnamed v
      | inr named ↦ elim (Bool-cases (ltb limit 1)) [
        | inl no_limit ↦ rw (named, no_limit) v
        | inr some_limit ↦ elim (Bool-cases (ltb (max_concurrent ledger) 1)) [
          | inl no_room ↦ rw (named, some_limit, no_room) v
          | inr room ↦ elim (Option-cases (current_slot w.manager id)) [
            | inl new_id ↦
                rw (named, some_limit, room, new_id, retire_old)
                  (publish-Inv w v id fresh refl refl refl refl)
            | inr ((addr, old), replaces) ↦
                let (published, found) = current_slot-found w.manager id replaces in
                rw (named, some_limit, room, replaces)
                  (retire_old-Inv w v id fresh refl refl refl refl addr old published found)
          ]
        ]
      ]
    ]
