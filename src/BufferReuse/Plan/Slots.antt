-- ===== src/BufferReuse/Plan/Slots.antt =====
-- What the planner of python/tensortorrent/runtime/buffer_reuse.py keeps of its slots: the tensors of
-- each are apart, and the assignment says where they are.
use tensor_torrent.Base.{
  ℕ, suc, ◌+◌, ◌≤◌, ◌≡◌, refl, subst, ◌⊎◌, inl, inr, true, false, ◌||◌, List, [], ◌∷◌, ◌++◌, Option,
  none, some, arith, elem, elem-append, All, Pairwise, Pairwise-append_one, Bool-cases, ◌==◌,
  ==_iff, ltb, length,
}
use tensor_torrent.Base.Dict.{Dict, get, get-set}
use tensor_torrent.Ir.Liveness.{Interval, ranges_overlap, or_unknown}
use tensor_torrent.BufferReuse.Plan.{
  BufferSlot, Candidate, Layout, overlap_in, conflicts, place, behind, settle, assign, assign_all,
  no_layout,
}
use tensor_torrent.Ir.{}
use tensor_torrent.Ir.Liveness.{}
use tensor_torrent.Ir.Alias.{}
use tensor_torrent.BufferReuse.Effective.{}

pub ranges_overlap_comm : (a b : Interval) → ranges_overlap a b ≡ ranges_overlap b a
unfolding ranges_overlap
ranges_overlap_comm (a0, a1) (b0, b1) = ground arith

module _ (intervals : Dict Interval) where
  -- The tensors of each slot are pairwise apart.
  abbrev pub Apart : ℕ → ℕ → Type 0
  Apart a b = overlap_in intervals a b ≡ false

  abbrev pub SlotsApart : List BufferSlot → Type 0
  SlotsApart [] = Unit {0}
  SlotsApart (slot ∷ slots) = Pairwise Apart slot.assigned × SlotsApart slots

  -- The slots are numbered in order.
  abbrev pub Numbered : ℕ → List BufferSlot → Type 0
  Numbered n [] = Unit {0}
  Numbered n (slot ∷ slots) = (slot.slot_id ≡ n) × Numbered (suc n) slots

  -- The slot of that id has the tensor.
  abbrev pub InSlot : ℕ → ℕ → List BufferSlot → Type 0
  InSlot id tid [] = ⊥
  InSlot id tid (slot ∷ slots) =
      ((slot.slot_id ≡ id) × (elem tid slot.assigned ≡ true)) ⊎ InSlot id tid slots

  conflicts-All :
      (tid : ℕ) (others : List ℕ)
      → conflicts intervals tid others ≡ false
      → All (λ other. Apart other tid) others
  unfolding conflicts
  conflicts-All tid [] h = tt
  conflicts-All tid (other ∷ others) h = (
    rw (ranges_overlap_comm (or_unknown (get other intervals)) (or_unknown (get tid intervals)))
        (ground arith),
    conflicts-All tid others (ground arith),
  )

  -- What `place` finds: a slot with the room and no conflict, behind slots that stay.
  data Places (tid size : ℕ) : List BufferSlot → List BufferSlot → ℕ → Type 0 where
    here :
        (slot : BufferSlot) (slots : List BufferSlot)
        → size ≤ slot.capacity_bytes
        → conflicts intervals tid slot.assigned ≡ false
        → Places tid size
            (slot ∷ slots)
            (record slot { assigned = slot.assigned ++ tid ∷ [] } ∷ slots)
            slot.slot_id
    later :
        (slot : BufferSlot) {slots slots' : List BufferSlot} {id : ℕ}
        → Places tid size slots slots' id
        → Places tid size (slot ∷ slots) (slot ∷ slots') id

  module _ (tid size : ℕ) where
    abbrev Found : List BufferSlot → Option (List BufferSlot × ℕ) → Type 0
    Found slots none = Unit {0}
    Found slots (some (slots', id)) = Places tid size slots slots' id

    Found-behind :
        (slot : BufferSlot) (slots : List BufferSlot) (r : Option (List BufferSlot × ℕ))
        → Found slots r
        → Found (slot ∷ slots) (behind slot r)
    Found-behind slot slots none p = tt
    Found-behind slot slots (some (slots', id)) p = later slot p

    place-Found : (slots : List BufferSlot) → Found slots (place intervals (tid, size) slots)
    unfolding place
    place-Found [] = tt
    place-Found (slot ∷ slots) =
        elim (Bool-cases (ltb slot.capacity_bytes size || conflicts intervals tid slot.assigned)) [
          | inl skip ↦ rw skip (Found-behind slot slots _ (place-Found slots))
          | inr take ↦ rw take (here slot slots (ground arith) (ground arith))
        ]

  module _ {tid size : ℕ} where
    Places-SlotsApart :
        {slots slots' : List BufferSlot} {id : ℕ}
        → Places tid size slots slots' id
        → SlotsApart slots
        → SlotsApart slots'
    Places-SlotsApart (here slot slots fits free) a = (
      Pairwise-append_one Apart slot.assigned tid a.0 (conflicts-All tid slot.assigned free),
      a.1,
    )
    Places-SlotsApart (later slot p) a = (a.0, Places-SlotsApart p a.1)

    Places-Numbered :
        {slots slots' : List BufferSlot} {id : ℕ} (n : ℕ)
        → Places tid size slots slots' id
        → Numbered n slots
        → Numbered n slots'
    Places-Numbered n (here slot slots fits free) a = a
    Places-Numbered n (later slot p) a = (a.0, Places-Numbered (suc n) p a.1)

    Places-InSlot :
        {slots slots' : List BufferSlot} {id : ℕ}
        → Places tid size slots slots' id
        → InSlot id tid slots'
    Places-InSlot (here slot slots fits free) =
        inl (refl, ground (arith, elem-append tid slot.assigned (tid ∷ [])))
    Places-InSlot (later slot p) = inr (Places-InSlot p)

    Places-InSlot_keep :
        {slots slots' : List BufferSlot} {id : ℕ} (j x : ℕ)
        → Places tid size slots slots' id
        → InSlot j x slots
        → InSlot j x slots'
    Places-InSlot_keep j x (here slot slots fits free) (inl (e, m)) =
        inl (e, ground (arith, elem-append x slot.assigned (tid ∷ [])))
    Places-InSlot_keep j x (here slot slots fits free) (inr r) = inr r
    Places-InSlot_keep j x (later slot p) (inl m) = inl m
    Places-InSlot_keep j x (later slot p) (inr r) = inr (Places-InSlot_keep j x p r)

  SlotsApart-append :
      (slots : List BufferSlot) (slot : BufferSlot)
      → SlotsApart slots
      → Pairwise Apart slot.assigned
      → SlotsApart (slots ++ slot ∷ [])
  SlotsApart-append [] slot a p = (p, tt)
  SlotsApart-append (x ∷ slots) slot a p = (a.0, SlotsApart-append slots slot a.1 p)

  Numbered-append :
      (n : ℕ) (slots : List BufferSlot) (slot : BufferSlot)
      → Numbered n slots
      → slot.slot_id ≡ n + length slots
      → Numbered n (slots ++ slot ∷ [])
  Numbered-append n [] slot a e = (omega arith, tt)
  Numbered-append n (x ∷ slots) slot a e =
      (a.0, Numbered-append (suc n) slots slot a.1 (omega arith))

  InSlot-append :
      (id tid : ℕ) (slots more : List BufferSlot)
      → InSlot id tid slots ⊎ InSlot id tid more
      → InSlot id tid (slots ++ more)
  InSlot-append id tid [] more (inl h) = elim h [ ]
  InSlot-append id tid [] more (inr h) = h
  InSlot-append id tid (slot ∷ slots) more (inl (inl h)) = inl h
  InSlot-append id tid (slot ∷ slots) more (inl (inr h)) =
      inr (InSlot-append id tid slots more (inl h))
  InSlot-append id tid (slot ∷ slots) more (inr h) = inr (InSlot-append id tid slots more (inr h))

  -- Each assigned tensor is in the slot of its id, no two slots share an id, and the tensors of a
  -- slot are apart.
  pub record IsValid (layout : Layout) : Type 0 where
    pub apart : SlotsApart layout.slots
    pub numbered : Numbered 0 layout.slots
    pub recorded : (tid id : ℕ) → get tid layout.assignment ≡ some id → InSlot id tid layout.slots

  module _ (layout : Layout) (tid size : ℕ) (v : IsValid layout) where
    settle-IsValid :
        (r : Option (List BufferSlot × ℕ))
        → Found tid size layout.slots r
        → IsValid (settle layout (tid, size) r)
    unfolding settle
    settle-IsValid (some (slots', id)) p = record {
      apart = Places-SlotsApart p v.apart;
      numbered = Places-Numbered 0 p v.numbered;
      recorded = λ x j h. elim (Bool-cases (tid == x)) [
        | inl same ↦
            subst (λ y. InSlot y x slots') (ground (arith, get-set tid x id layout.assignment))
              (subst (λ y. InSlot id y slots') ((==_iff tid x).0 same) (Places-InSlot p))
        | inr differs ↦
            Places-InSlot_keep j x p
              (v.recorded x j (ground (arith, get-set tid x id layout.assignment)))
      ];
    }
    settle-IsValid none p = record {
      apart = SlotsApart-append layout.slots _ v.apart (tt, tt);
      numbered = Numbered-append 0 layout.slots _ v.numbered (omega arith);
      recorded = λ x j h. InSlot-append j x layout.slots _ (elim (Bool-cases (tid == x)) [
        | inl same ↦
            inr (inl (ground (arith, get-set tid x (length layout.slots) layout.assignment)))
        | inr differs ↦
            inl (
              v.recorded x j
                (ground (arith, get-set tid x (length layout.slots) layout.assignment)))
      ]);
    }

    assign-IsValid : IsValid (assign intervals layout (tid, size))
    unfolding assign
    assign-IsValid = settle-IsValid _ (place-Found tid size layout.slots)

  pub assign_all-IsValid :
      (layout : Layout) (cs : List Candidate)
      → IsValid layout
      → IsValid (assign_all intervals layout cs)
  unfolding assign_all
  assign_all-IsValid layout [] v = v
  assign_all-IsValid layout ((tid, size) ∷ cs) v =
      assign_all-IsValid (assign intervals layout (tid, size)) cs (assign-IsValid layout tid size v)

  pub no_layout-IsValid : IsValid no_layout
  unfolding get
  no_layout-IsValid = record { apart = tt; numbered = tt; recorded = λ x j h. cc }
