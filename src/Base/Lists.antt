-- ===== src/Base/Lists.antt =====
-- Lists measured by native numbers, under the library's names.
use Prim.Native.Nat.{ℕ, zero, suc, ◌+◌, ◌<◌}
use mathlib.Core.Path.{◌≡◌, refl, subst}
use mathlib.Core.Logic.{inl, inr}
use mathlib.Core.Bool.{Bool, true, false, ◌||◌}
use mathlib.Core.Option.{Option, none, some}
use tensor_torrent.Base.Tests.{◌==◌, ==_iff, if◌then◌else◌, Bool-cases}
use mathlib.Core.List.{List, [], ◌∷◌, ◌++◌}
use native.Mathlib.Omega.{arith}

-- `k in ks`.
abbrev pub elem : ℕ → List ℕ → Bool
elem k [] = false
elem k (j ∷ js) = j == k || elem k js

pub elem-append : (k : ℕ) (js ks : List ℕ) → elem k (js ++ ks) ≡ (elem k js || elem k ks)
elem-append k [] ks = refl
elem-append k (j ∷ js) ks = ground (arith, elem-append k js ks)

-- How often a number is listed.
abbrev pub count : ℕ → List ℕ → ℕ
count k [] = 0
count k (j ∷ js) = (if j == k then 1 else 0) + count k js

-- The list less one occurrence.
unfoldable pub erase : ℕ → List ℕ → List ℕ
erase k [] = []
erase k (j ∷ js) = if j == k then js else j ∷ erase k js

pub count-erase :
    (x k : ℕ) (js : List ℕ)
    → elem k js ≡ true
    → count x js ≡ (if k == x then 1 else 0) + count x (erase k js)
unfolding erase
count-erase x k [] h = cc
count-erase x k (j ∷ js) h = ground (arith, count-erase x k js)

pub elem-erase_ne : (x k : ℕ) (js : List ℕ) → (k == x) ≡ false → elem x (erase k js) ≡ elem x js
unfolding erase
elem-erase_ne x k [] ne = refl
elem-erase_ne x k (j ∷ js) ne = ground (arith, elem-erase_ne x k js ne)

pub elem-count : (k : ℕ) (js : List ℕ) → elem k js ≡ true → 0 < count k js
elem-count k [] h = cc
elem-count k (j ∷ js) h = ground (arith, elem-count k js)

module _ {ℓ} {A : Type ℓ} where
  abbrev pub length : List A → ℕ
  length [] = 0
  length (x ∷ xs) = suc (length xs)

  -- A predicate by recursion computes to tuples, which the tactics read and build.
  abbrev pub All {κ} : (A → Type κ) → List A → Type κ
  All P [] = Unit
  All P (x ∷ xs) = P x × All P xs

  abbrev pub replicate : ℕ → A → List A
  replicate zero a = []
  replicate (suc n) a = a ∷ replicate n a

  abbrev pub get_elem? : List A → ℕ → Option A
  get_elem? [] i = none
  get_elem? (x ∷ xs) zero = some x
  get_elem? (x ∷ xs) (suc i) = get_elem? xs i

  -- Each two elements, the earlier one first, are related.
  abbrev pub Pairwise {κ} : (A → A → Type κ) → List A → Type κ
  Pairwise R [] = Unit
  Pairwise R (x ∷ xs) = All (R x) xs × Pairwise R xs

  pub All-mono {κ μ} :
      {P : A → Type κ} {Q : A → Type μ}
      → ((x : A) → P x → Q x)
      → (xs : List A) → All P xs
      → All Q xs
  All-mono f [] h = tt
  All-mono f (x ∷ xs) h = (f x h.0, All-mono f xs h.1)

  pub All-zip {κ μ ν} :
      {P : A → Type κ} {Q : A → Type μ} {R : A → Type ν}
      → ((x : A) → P x → Q x → R x)
      → (xs : List A) → All P xs
      → All Q xs
      → All R xs
  All-zip f [] g h = tt
  All-zip f (x ∷ xs) g h = (f x g.0 h.0, All-zip f xs g.1 h.1)

  pub All-append {κ} : (P : A → Type κ) (xs ys : List A) → All P xs → All P ys → All P (xs ++ ys)
  All-append P [] ys hx hy = hy
  All-append P (x ∷ xs) ys hx hy = (hx.0, All-append P xs ys hx.1 hy)

  pub Pairwise-append_one {κ} :
      (R : A → A → Type κ) (xs : List A) (y : A)
      → Pairwise R xs
      → All (λ x. R x y) xs
      → Pairwise R (xs ++ y ∷ [])
  Pairwise-append_one R [] y p h = (tt, tt)
  Pairwise-append_one R (x ∷ xs) y p h =
      (All-append (R x) xs (y ∷ []) p.0 (h.0, tt), Pairwise-append_one R xs y p.1 h.1)

  pub length-append : (xs ys : List A) → length (xs ++ ys) ≡ length xs + length ys
  length-append [] ys = omega arith
  length-append (x ∷ xs) ys = omega (arith, length-append xs ys)

pub All_of_elem {κ} : (P : ℕ → Type κ) (k : ℕ) (js : List ℕ) → All P js → elem k js ≡ true → P k
All_of_elem P k [] h e = cc
All_of_elem P k (j ∷ js) h e = elim (Bool-cases (j == k)) [
  | inl same ↦ subst P ((==_iff j k).0 same) h.0
  | inr other ↦ All_of_elem P k js h.1 (ground arith)
]

pub All-elem : (js : List ℕ) → All (λ k. elem k js ≡ true) js
All-elem [] = tt
All-elem (j ∷ js) = (ground arith, All-mono (λ k h. ground (arith, h)) js (All-elem js))
