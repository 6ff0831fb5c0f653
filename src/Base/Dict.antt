-- ===== src/Base/Dict.antt =====
-- Python's dict as an association list in insertion order, keyed by numbers. A write to a present
-- key keeps its place; a new key goes to the end.
use Prim.Native.Nat.{ℕ}
use mathlib.Core.Path.{◌≡◌, refl, subst}
use mathlib.Core.Logic.{inl, inr}
use mathlib.Core.Bool.{Bool, true, false, not, ◌&&◌, ◌||◌}
use mathlib.Core.Option.{Option, none, some}
use mathlib.Core.List.{List, [], ◌∷◌}
use native.Mathlib.Omega.{arith}
use tensor_torrent.Base.Tests.{◌==◌, ==_iff, if◌then◌else◌, Bool-cases}
use tensor_torrent.Base.Lists.{elem, All, All-zip}

abbrev pub Dict {ℓ} : Type ℓ → Type ℓ
Dict V = List (ℕ × V)

module _ {ℓ} {V : Type ℓ} where
  -- `d.get(k)`.
  unfoldable pub get : ℕ → Dict V → Option V
  get k [] = none
  get k ((j, v) ∷ d) = if j == k then some v else get k d

  -- `d[k] = v`.
  unfoldable pub set : ℕ → V → Dict V → Dict V
  set k v [] = (k, v) ∷ []
  set k v ((j, w) ∷ d) = if j == k then (k, v) ∷ d else (j, w) ∷ set k v d

  -- `k in d`.
  abbrev pub contains : ℕ → Dict V → Bool
  contains k d = elim (get k d) [ none ↦ false | some v ↦ true ]

  -- `d.setdefault(k, v)`.
  unfoldable pub set_default : ℕ → V → Dict V → Dict V
  set_default k v d = if contains k d then d else set k v d

  -- `d.pop(k, None)`, what is left of it.
  unfoldable pub remove : ℕ → Dict V → Dict V
  remove k [] = []
  remove k ((j, v) ∷ d) = if j == k then remove k d else (j, v) ∷ remove k d

  abbrev pub keys : Dict V → List ℕ
  keys [] = []
  keys ((k, v) ∷ d) = k ∷ keys d

  abbrev pub values : Dict V → List V
  values [] = []
  values ((k, v) ∷ d) = v ∷ values d

  pub contains_of_get : (k : ℕ) {v : V} (d : Dict V) → get k d ≡ some v → contains k d ≡ true
  contains_of_get k d h = rw (h, contains)

  pub get-set :
      (k j : ℕ) (v : V) (d : Dict V) → get j (set k v d) ≡ (if k == j then some v else get j d)
  unfolding get set
  get-set k j v [] = refl
  get-set k j v ((i, w) ∷ d) = ground (arith, get-set k j v d)

  pub get-set_default :
      (k j : ℕ) (v : V) (d : Dict V)
      → get j (set_default k v d)
        ≡ (if contains k d then get j d else if k == j then some v else get j d)
  unfolding set_default
  get-set_default k j v d = ground (arith, get-set k j v d)

  pub get-remove : (k j : ℕ) (d : Dict V) → get j (remove k d) ≡ (if k == j then none else get j d)
  unfolding get remove
  get-remove k j [] = ground arith
  get-remove k j ((i, w) ∷ d) = ground (arith, get-remove k j d)

  pub contains-set :
      (k j : ℕ) (v : V) (d : Dict V) → contains j (set k v d) ≡ (k == j || contains j d)
  contains-set k j v d = ground (arith, get-set k j v d)

  pub contains-remove :
      (k j : ℕ) (d : Dict V) → contains j (remove k d) ≡ (not (k == j) && contains j d)
  contains-remove k j d = ground (arith, get-remove k j d)

  -- A key is listed exactly when it has a value.
  pub elem-keys : (k : ℕ) (d : Dict V) → elem k (keys d) ≡ contains k d
  unfolding get
  elem-keys k [] = refl
  elem-keys k ((j, v) ∷ d) = ground (arith, elem-keys k d)

  -- No key is listed twice.
  abbrev pub Distinct : Dict V → Type 0
  Distinct [] = Unit {0}
  Distinct ((k, v) ∷ d) = (elem k (keys d) ≡ false) × Distinct d

  elem-keys-set :
      (x k : ℕ) (v : V) (d : Dict V) → elem x (keys (set k v d)) ≡ (k == x || elem x (keys d))
  unfolding set
  elem-keys-set x k v [] = refl
  elem-keys-set x k v ((j, w) ∷ d) = ground (arith, elem-keys-set x k v d)

  pub set-Distinct : (k : ℕ) (v : V) (d : Dict V) → Distinct d → Distinct (set k v d)
  unfolding set
  set-Distinct k v [] h = (refl, tt)
  set-Distinct k v ((j, w) ∷ d) h = ground (arith, elem-keys-set j k v d, set-Distinct k v d h.1)

  pub keys-ne : (k : ℕ) (d : Dict V) → elem k (keys d) ≡ false → All (λ e. (k == e.0) ≡ false) d
  keys-ne k [] h = tt
  keys-ne k ((j, w) ∷ d) h = (ground arith, keys-ne k d (ground arith))

  get-cons_ne :
      (k : ℕ) (v : V) (d : Dict V) (e : ℕ × V)
      → (k == e.0) ≡ false
      → get e.0 d ≡ some e.1
      → get e.0 ((k, v) ∷ d) ≡ some e.1
  unfolding get
  get-cons_ne k v d e ne h = rw (ne, get) h

  -- Each entry is what a look-up of its key finds.
  pub Distinct-entries : (d : Dict V) → Distinct d → All (λ e. get e.0 d ≡ some e.1) d
  unfolding get
  Distinct-entries [] h = tt
  Distinct-entries ((k, v) ∷ d) h =
      (ground arith, All-zip (get-cons_ne k v d) d (keys-ne k d h.0) (Distinct-entries d h.1))

  pub All-set {κ} :
      (P : ℕ × V → Type κ) (k : ℕ) (v : V) (d : Dict V) → P (k, v) → All P d → All P (set k v d)
  unfolding set
  All-set P k v [] p h = (p, tt)
  All-set P k v ((j, w) ∷ d) p h = elim (Bool-cases (j == k)) [
    | inl same ↦ rw (same, set) (p, h.1)
    | inr other ↦ rw (other, set) (h.0, All-set P k v d p h.1)
  ]

  pub All-remove {κ} : (P : ℕ × V → Type κ) (k : ℕ) (d : Dict V) → All P d → All P (remove k d)
  unfolding remove
  All-remove P k [] h = tt
  All-remove P k ((j, w) ∷ d) h = elim (Bool-cases (j == k)) [
    | inl same ↦ rw same (All-remove P k d h.1)
    | inr other ↦ rw other (h.0, All-remove P k d h.1)
  ]

  pub All-values {κ} : (P : V → Type κ) (d : Dict V) → All (λ e. P e.1) d → All P (values d)
  All-values P [] h = tt
  All-values P ((j, w) ∷ d) h = (h.0, All-values P d h.1)

  -- What holds of each entry holds of the entry that a look-up finds.
  pub All-get {κ} :
      (P : ℕ × V → Type κ) (k : ℕ) {v : V} (d : Dict V) → All P d → get k d ≡ some v → P (k, v)
  unfolding get
  All-get P k [] h e = cc
  All-get P k {v} ((j, w) ∷ d) h e = elim (Bool-cases (j == k)) [
    | inl same ↦
        let found : w ≡ v = ground arith in
        subst (λ x. P (x, v)) ((==_iff j k).0 same) (subst (λ x. P (j, x)) found h.0)
    | inr other ↦ All-get P k d h.1 (ground arith)
  ]

  -- A look-up, written as after a write of what is there.
  pub get_written :
      (k x : ℕ) {v : V} (d : Dict V)
      → get k d ≡ some v
      → get x d ≡ (if k == x then some v else get x d)
  get_written k x {v} d h = elim (Bool-cases (k == x)) [
    | inl same ↦ rw same (subst (λ y. get y d ≡ some v) ((==_iff k x).0 same) h)
    | inr other ↦ rw other
  ]
