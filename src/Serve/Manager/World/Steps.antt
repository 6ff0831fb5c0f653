-- ===== src/Serve/Manager/World/Steps.antt =====
-- Each call keeps the manager's invariant.
use tensor_torrent.Base.{
  ℕ, ◌≡◌, refl, ◌∙◌, subst, sym, ap, ◌⊎◌, inl, inr, true, false, ◌∷◌, some, arith, elem, count, ltb,
  leb, ◌==◌, ==_iff, if◌then◌else◌, Bool-cases,
}
use tensor_torrent.Base.Dict.{get, remove, get-set, get-remove, All-set, All-remove}
use tensor_torrent.Serve.Manager.{ModelSlot, retire_slot, count_one, heat}
use tensor_torrent.Serve.Manager.World.{World, IsCounted, Slots, Current, Inv, Touches-Inv}

module _ (w : World) (v : Inv w) where
  pub slot_at :
      (addr : ℕ) {slot : ModelSlot}
      → get addr w.manager.store ≡ some slot
      → Slots w addr (some slot)
  slot_at addr h = subst (Slots w addr) h (v.slots addr)

  module _ (addr : ℕ) (slot : ModelSlot) (found : get addr w.manager.store ≡ some slot) where
    -- A published address that is not the slot's.
    unpublished :
        (id a : ℕ)
        → get id w.manager.models ≡ some a
        → ((slot.model_id ≡ id) × (slot.retired ≡ false) → ⊥)
        → (addr == a) ≡ false
    unpublished id a h refuted = elim (Bool-cases (addr == a)) [
      | inr other ↦ other
      | inl same ↦ absurd (
          refuted (
            subst (Current id) found (
              subst (λ y. Current id (get y w.manager.store)) (sym ((==_iff addr a).0 same))
                (v.current id a h))))
    ]

    pub heat-Inv : slot.retired ≡ false → Inv (record w { manager = heat w.manager addr slot })
    unfolding heat
    heat-Inv current =
        let (c, below) = slot_at addr found in
        Touches-Inv v
          (record {
            found = found;
            written = λ x. get-set addr x _ w.manager.store;
            same_next = refl;
            same_id = refl;
            published = λ id a h. (h, inr current);
            others = λ x ne. (refl, refl, refl);
            stays = λ r. r;
            relisted = λ all now. all;
          })
          (record {
            counted = c.counted;
            limited = c.limited;
            closed_idle = c.closed_idle;
            retired_used = c.retired_used;
            unloading_retired = λ u. ground (arith, c.unloading_retired);
            closes = c.closes;
          })

    pub count_one-Inv :
        leb slot.concurrency_limit slot.in_flight ≡ false
        → slot.retired ≡ false
        → Inv (record w { manager = count_one w.manager addr slot; held = addr ∷ w.held })
    unfolding count_one
    count_one-Inv room current =
        let (c, below) = slot_at addr found in
        Touches-Inv v
          (record {
            found = found;
            written = λ x. get-set addr x _ w.manager.store;
            same_next = refl;
            same_id = refl;
            published = λ id a h. (h, inr current);
            others = λ x ne. (ground arith, refl, refl);
            stays = λ r. r;
            relisted = λ all now. all;
          })
          (record {
            counted = ground (arith, c.counted);
            limited = ground arith;
            closed_idle = λ is_closed. ground (arith, c.closed_idle is_closed);
            retired_used = λ r still. ground arith;
            unloading_retired = λ u. ground (arith, c.unloading_retired);
            closes = c.closes;
          })

    pub retire_slot-Inv :
        (id : ℕ)
        → get id w.manager.models ≡ some addr
        → slot.model_id ≡ id
        → slot.retired ≡ false
        → Inv (record w {
          manager = retire_slot w.manager id addr slot;
          unloading = addr ∷ w.unloading;
        })
    unfolding retire_slot
    retire_slot-Inv id published same current =
        let (c, below) = slot_at addr found in
        Touches-Inv v
          (record {
            found = found;
            written = λ x. get-set addr x _ w.manager.store;
            same_next = refl;
            same_id = refl;
            published = λ j a h. (
              ground (arith, get-remove id j w.manager.models),
              inl (
                  unpublished j a (ground (arith, get-remove id j w.manager.models))
                    λ mine. ground (arith, get-remove id j w.manager.models, same)),
            );
            others = λ x ne. (refl, refl, ground arith);
            stays = λ r. refl;
            relisted = λ all now. elim (Bool-cases (ltb 0 slot.in_flight)) [
              | inl busy ↦ rw busy (All-set _ slot.version addr w.manager.retired (now refl) all)
              | inr idle ↦ rw idle all
            ];
          })
          (record {
            counted = c.counted;
            limited = c.limited;
            closed_idle = λ is_closed. ground (arith, c.closed_idle is_closed);
            retired_used = λ r still. inr (ground arith);
            unloading_retired = λ u. ground (arith, c.unloading_retired);
            closes = c.closes;
          })

    -- A retired slot is written, and closed if the write leaves it idle.
    pub retired_write :
        (w' : World) (new : ModelSlot)
        → slot.retired ≡ true
        → ((x : ℕ)
            → get x w'.manager.store ≡ (if addr == x then some new else get x w.manager.store))
        → w'.manager.next ≡ w.manager.next
        → w'.manager.models ≡ w.manager.models
        → new.model_id ≡ slot.model_id
        → ((x : ℕ)
            → (addr == x) ≡ false
            → (count x w'.held ≡ count x w.held)
              × (count x w'.manager.closes ≡ count x w.manager.closes)
              × (elem x w'.unloading ≡ elem x w.unloading))
        → new.retired ≡ true
        → (w'.manager.retired ≡ w.manager.retired)
          ⊎ (w'.manager.retired ≡ remove slot.version w.manager.retired)
        → IsCounted w' addr new
        → Inv w'
    retired_write w' new retired written same_next same_models same_id others now kept c =
        Touches-Inv v
          (record {
            found = found;
            written = written;
            same_next = same_next;
            same_id = same_id;
            published = λ id a h.
                let before : get id w.manager.models ≡ some a = ap (get id) (sym same_models) ∙ h in
                (before, inl (unpublished id a before (λ mine. cc (mine.1))));
            others = others;
            stays = λ r. now;
            relisted = λ all present. elim kept [
              | inl same ↦ rw same all
              | inr removed ↦ rw removed (All-remove _ slot.version w.manager.retired all)
            ];
          })
          c
