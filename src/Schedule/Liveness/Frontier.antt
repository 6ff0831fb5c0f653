-- ===== src/Schedule/Liveness/Frontier.antt =====
-- The maximal consumers that `run_schedule_liveness` of python/tensortorrent/ir/liveness.py keeps.
use tensor_torrent.Base.{
  ℕ, ◌≡◌, refl, ◌⊎◌, inl, inr, Bool, true, false, ◌||◌, List, [], ◌∷◌, ◌++◌, ◌==◌, ==_iff,
  Bool-cases, elem, elem-append, All, All-mono, arith, subst, sym, ◌∙◌,
}
use tensor_torrent.Base.Dict.{Dict}
use tensor_torrent.Schedule.Liveness.{ancestors, fromkeys, has_later, maximal, final_of}
use tensor_torrent.Schedule.Liveness.Ancestors.{Before, Before-trans, ancestors-Before}

pub elem-fromkeys :
    (k : ℕ) (kept names : List ℕ) → elem k (fromkeys kept names) ≡ (elem k kept || elem k names)
unfolding fromkeys
elem-fromkeys k kept [] = ground arith
elem-fromkeys k kept (name ∷ names) = elim (Bool-cases (elem name kept)) [
  | inl known ↦ elim (Bool-cases (name == k)) [
    | inl same ↦
        let here = subst (λ j. elem j kept ≡ true) ((==_iff name k).0 same) known in
        rw (known, here) (ground (arith, elem-fromkeys k kept names, here))
    | inr other ↦ rw (known, other) (elem-fromkeys k kept names)
  ]
  | inr fresh ↦
      rw fresh
        (ground (arith, elem-fromkeys k (kept ++ name ∷ []) names, elem-append k kept (name ∷ [])))
]

-- No instruction waits for itself.
abbrev pub Acyclic : Dict (List ℕ) → Type 0
Acyclic names = (x : ℕ) → ¬ Before names x x

module _ (names : Dict (List ℕ)) where
  abbrev above : ℕ → ℕ → Bool
  above x y = elem x (ancestors names y)

  -- None of the list comes after the instruction.
  abbrev Last : ℕ → List ℕ → Type 0
  Last x = All (λ y. above x y ≡ false)

  above_trans : (x y z : ℕ) → above x y ≡ true → above y z ≡ true → above x z ≡ true
  above_trans x y z h k =
      (ancestors-Before names x z).1
        (Before-trans ((ancestors-Before names x y).0 h) ((ancestors-Before names y z).0 k))

  -- What comes after nothing of a list, nor does what is after it.
  Last-above : (x y : ℕ) (ys : List ℕ) → above x y ≡ true → Last x ys → Last y ys
  Last-above x y ys h last =
      All-mono
        (λ z none. elim (Bool-cases (above y z)) [
          | inl after ↦ cc (above_trans x y z h after, none)
          | inr not_after ↦ not_after
        ])
        ys last

  above_self : Acyclic names → (x : ℕ) → above x x ≡ false
  above_self acyclic x = elim (Bool-cases (above x x)) [
    | inl cycle ↦ elim (acyclic x ((ancestors-Before names x x).0 cycle)) [ ]
    | inr free ↦ free
  ]

  -- Above an instruction that is not the last there is a last one.
  Last-cases :
      Acyclic names
      → (x : ℕ) (ys : List ℕ)
      → Last x ys ⊎ ((m : ℕ) × (elem m ys ≡ true) × (above x m ≡ true) × Last m ys)
  Last-cases acyclic x [] = inl tt
  Last-cases acyclic x (y ∷ ys) = elim (Last-cases acyclic x ys) [
    | inl last ↦ elim (Bool-cases (above x y)) [
      | inl after ↦
          inr (y, ground arith, after, (above_self acyclic y, Last-above x y ys after last))
      | inr not_after ↦ inl (not_after, last)
    ]
    | inr (m, listed, after, last) ↦ elim (Bool-cases (above m y)) [
      | inl higher ↦ inr (
        y,
        ground arith,
        above_trans x m y after higher,
        (above_self acyclic y, Last-above m y ys higher last),
      )
      | inr not_higher ↦ inr (m, ground (arith, listed), after, (not_higher, last))
    ]
  ]

  Last-has_later : (x : ℕ) (ys : List ℕ) → Last x ys → has_later names x ys ≡ false
  unfolding has_later
  Last-has_later x [] last = refl
  Last-has_later x (y ∷ ys) last = ground (arith, last.0, Last-has_later x ys last.1)

  elem-maximal :
      (x : ℕ) (unique ys : List ℕ)
      → has_later names x unique ≡ false
      → elem x (maximal names unique ys) ≡ elem x ys
  unfolding maximal
  elem-maximal x unique [] last = refl
  elem-maximal x unique (y ∷ ys) last = elim (Bool-cases (y == x)) [
    | inl same ↦
        let last_y =
          subst (λ k. has_later names k unique ≡ false) (sym ((==_iff y x).0 same)) last in
        rw (last_y, same)
    | inr other ↦ elim (Bool-cases (has_later names y unique)) [
      | inl later ↦ rw (later, other) (elem-maximal x unique ys last)
      | inr alone ↦ rw alone (ground (arith, other, elem-maximal x unique ys last))
    ]
  ]

  -- Each consumer is a final one, or comes before a final one.
  pub final_of-covers :
      Acyclic names
      → (x : ℕ) (consumers : List ℕ) → elem x consumers ≡ true
      → let final = final_of names consumers in
        (elem x final ≡ true) ⊎ ((m : ℕ) × (elem m final ≡ true) × Before names x m)
  unfolding final_of
  final_of-covers acyclic x consumers h =
      let unique = fromkeys [] consumers in
      let listed : elem x unique ≡ true = ground (arith, elem-fromkeys x [] consumers, h) in
      elim (Last-cases acyclic x unique) [
        | inl last ↦ inl (elem-maximal x unique unique (Last-has_later x unique last) ∙ listed)
        | inr (m, listed_m, after, last) ↦ inr (
          m,
          elem-maximal m unique unique (Last-has_later m unique last) ∙ listed_m,
          (ancestors-Before names x m).0 after,
        )
      ]
