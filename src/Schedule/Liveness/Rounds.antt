-- ===== src/Schedule/Liveness/Rounds.antt =====
-- The loop of `ancestors` in python/tensortorrent/ir/liveness.py: what a round does, and that the loop
-- ends.
use tensor_torrent.Base.{
  ℕ, zero, suc, ◌+◌, ◌≤◌, ◌≡◌, refl, sym, ◌⊎◌, inl, inr, true, false, ◌||◌, List, [], ◌∷◌, none,
  some, ◌==◌, ==_iff, if◌then◌else◌, Bool-cases, Option-cases, elem, length, All, arith, subst,
}
use tensor_torrent.Base.Dict.{Dict, get, contains}
use tensor_torrent.Schedule.Liveness.{extend, visit, rounds, total, search_from}

length-extend : (more stack : List ℕ) → length (extend more stack) ≡ length more + length stack
unfolding extend
length-extend [] stack = omega arith
length-extend (m ∷ more) stack = omega (arith, length-extend more (m ∷ stack))

pub elem-extend :
    (x : ℕ) (more stack : List ℕ) → elem x (extend more stack) ≡ (elem x more || elem x stack)
unfolding extend
elem-extend x [] stack = refl
elem-extend x (m ∷ more) stack = ground (arith, elem-extend x more (m ∷ stack))

pub All-extend :
    (P : ℕ → Type 0) (more stack : List ℕ) → All P more → All P stack → All P (extend more stack)
unfolding extend
All-extend P [] stack hm hs = hs
All-extend P (m ∷ more) stack hm hs = All-extend P more (m ∷ stack) hm.1 (hm.0, hs)

-- The dependencies of the instructions that are not seen yet.
left : Dict (List ℕ) → List ℕ → ℕ
left [] seen = 0
left ((name, deps) ∷ names) seen = (if elem name seen then 0 else length deps) + left names seen

left-nil : (names : Dict (List ℕ)) → left names [] ≡ total names
unfolding left total
left-nil [] = refl
left-nil ((name, deps) ∷ names) = omega (arith, left-nil names)

left-seen :
    (names : Dict (List ℕ)) (x : ℕ) (seen : List ℕ) → left names (x ∷ seen) ≤ left names seen
unfolding left
left-seen [] x seen = omega arith
left-seen ((name, deps) ∷ names) x seen = ground (arith, left-seen names x seen)

left-get :
    (names : Dict (List ℕ)) (x : ℕ) (seen more : List ℕ)
    → get x names ≡ some more
    → elem x seen ≡ false
    → length more + left names (x ∷ seen) ≤ left names seen
unfolding left get
left-get [] x seen more h fresh = cc
left-get ((name, deps) ∷ names) x seen more h fresh = elim (Bool-cases (name == x)) [
  | inl same ↦
      let found : deps ≡ more = ground arith in
      let known : elem name seen ≡ false =
        subst (λ k. elem k seen ≡ false) (sym ((==_iff name x).0 same)) fresh in
      ground (arith, left-seen names x seen, found, known)
  | inr other ↦ ground (arith, left-get names x seen more)
]

module _ (names : Dict (List ℕ)) (seen : List ℕ) (x : ℕ) (stack : List ℕ) where
  visit_unknown :
      get x names ≡ none → visit names seen x stack ≡ record { seen = seen; stack = stack }
  unfolding visit
  visit_unknown absent = rw (absent, visit)

  visit_again :
      {more : List ℕ}
      → get x names ≡ some more
      → elem x seen ≡ true
      → visit names seen x stack ≡ record { seen = seen; stack = stack }
  unfolding visit
  visit_again found again = rw (found, again, visit)

  visit_new :
      {more : List ℕ}
      → get x names ≡ some more
      → elem x seen ≡ false
      → visit names seen x stack ≡ record { seen = x ∷ seen; stack = extend more stack }
  unfolding visit
  visit_new found fresh = rw (found, fresh, visit)

  -- What a round does, case by case.
  pub visit-cases :
      (visit names seen x stack ≡ record { seen = seen; stack = stack })
        × (contains x names ≡ true → elem x seen ≡ true)
      ⊎ ((more : List ℕ) × (get x names ≡ some more)
          × (elem x seen ≡ false)
          × (visit names seen x stack ≡ record { seen = x ∷ seen; stack = extend more stack }))
  visit-cases = elim (Option-cases (get x names)) [
    | inl absent ↦ inl (visit_unknown absent, λ known. ground (arith, absent, known))
    | inr (more, found) ↦ elim (Bool-cases (elem x seen)) [
      | inl again ↦ inl (visit_again found again, λ known. again)
      | inr fresh ↦ inr (more, found, fresh, visit_new found fresh)
    ]
  ]

-- With rounds for all of the work, the loop is left.
rounds_done :
    (fuel : ℕ) (names : Dict (List ℕ)) (seen stack : List ℕ)
    → length stack + left names seen ≤ fuel
    → (rounds fuel names (record { seen = seen; stack = stack })).stack ≡ []
unfolding rounds
rounds_done zero names seen [] h = refl
rounds_done zero names seen (x ∷ stack) h = ground arith
rounds_done (suc fuel) names seen [] h = refl
rounds_done (suc fuel) names seen (x ∷ stack) h = elim (visit-cases names seen x stack) [
  | inl (same, _) ↦ rw (same, rounds) (rounds_done fuel names seen stack (omega arith))
  | inr (more, found, fresh, next) ↦
      rw (next, rounds)
        (rounds_done fuel names (x ∷ seen) (extend more stack)
          (omega (arith, left-get names x seen more found fresh, length-extend more stack)))
]

-- The `while` loop of `ancestors` ends with no name on its stack, whatever the dependencies (cycles
-- and unknown names among them): one round for each dependency in the schedule, and one for each of
-- the instruction's own, are enough.
pub search_from-done : (names : Dict (List ℕ)) (deps : List ℕ) → (search_from names deps).stack ≡ []
unfolding search_from
search_from-done names deps =
    rounds_done (length deps + total names) names [] (extend deps [])
      (omega (arith, length-extend deps [], left-nil names))
