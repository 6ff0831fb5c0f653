-- ===== src/Schedule/Liveness/Ancestors.antt =====
-- What `ancestors` of python/tensortorrent/ir/liveness.py has seen at the end is what the instruction
-- comes after.
use tensor_torrent.Base.{
  ℕ, zero, suc, ◌+◌, ◌≡◌, ◌↔◌, sym, inl, inr, Bool, true, false, ◌||◌, List, [], ◌∷◌, none, some,
  ◌==◌, ==_iff, Bool-cases, Option-cases, elem, length, All, All-mono, All-elem, All_of_elem, arith,
  subst,
}
use tensor_torrent.Base.Dict.{Dict, get, contains, contains_of_get}
use tensor_torrent.Schedule.Liveness.{extend, visit, rounds, total, search_from, ancestors}
use tensor_torrent.Schedule.Liveness.Rounds.{elem-extend, All-extend, visit-cases, search_from-done}

-- An instruction that `names` has depends on another.
abbrev pub Edge : Dict (List ℕ) → ℕ → ℕ → Type 0
Edge names x y =
    (contains x names ≡ true) × ((deps : List ℕ) × (get y names ≡ some deps) × (elem x deps ≡ true))

-- `x` completes before `y` starts.
pub data Before (names : Dict (List ℕ)) : ℕ → ℕ → Type 0 where
  direct : {x y : ℕ} → Edge names x y → Before names x y
  through : {x y z : ℕ} → Edge names x y → Before names y z → Before names x z

pub Before-trans :
    {names : Dict (List ℕ)} {x y z : ℕ} → Before names x y → Before names y z → Before names x z
Before-trans (direct e) b = through e b
Before-trans (through e a) b = through e (Before-trans a b)

-- The stack holds what comes before the instruction, if it is known.
Sound : Dict (List ℕ) → ℕ → List ℕ → Type 0
Sound names name = All (λ x. contains x names ≡ true → Before names x name)

deps-Sound :
    (names : Dict (List ℕ)) (name y : ℕ) (more : List ℕ)
    → ((x : ℕ) → Edge names x y → Before names x name)
    → get y names ≡ some more
    → Sound names name more
unfolding Sound
deps-Sound names name y more before found =
    All-mono (λ x listed known. before x (known, (more, found, listed))) more (All-elem more)

rounds-Sound :
    (fuel : ℕ) (names : Dict (List ℕ)) (name : ℕ) (seen stack : List ℕ)
    → All (λ x. Before names x name) seen
    → Sound names name stack
    → All
        (λ x. Before names x name)
        (rounds fuel names (record { seen = seen; stack = stack })).seen
unfolding rounds Sound
rounds-Sound zero names name seen stack hs ht = hs
rounds-Sound (suc fuel) names name seen [] hs ht = hs
rounds-Sound (suc fuel) names name seen (x ∷ stack) hs ht = elim (visit-cases names seen x stack) [
  | inl (same, _) ↦ rw (same, rounds) (rounds-Sound fuel names name seen stack hs ht.1)
  | inr (more, found, fresh, next) ↦
      let before = ht.0 (contains_of_get x names found) in
      rw (next, rounds)
        (rounds-Sound fuel names name (x ∷ seen) (extend more stack) (before, hs)
          (All-extend (λ y. contains y names ≡ true → Before names y name) more stack
            (deps-Sound names name x more (λ y edge. through edge before) found) ht.1))
]

abbrev pending : List ℕ → List ℕ → ℕ → Bool
pending seen stack x = elem x seen || elem x stack

-- What an instruction that is seen depends on is seen, or on the stack.
abbrev Closed : Dict (List ℕ) → List ℕ → List ℕ → Type 0
Closed names seen stack =
    (x y : ℕ) → elem y seen ≡ true → Edge names x y → pending seen stack x ≡ true

module _ (names : Dict (List ℕ)) (seen : List ℕ) (x : ℕ) (stack : List ℕ) where
  visit-pending :
      (y : ℕ)
      → contains y names ≡ true
      → pending seen (x ∷ stack) y ≡ true
      → let next = visit names seen x stack in pending next.seen next.stack y ≡ true
  visit-pending y known h = elim (visit-cases names seen x stack) [
    | inl (same, again) ↦ elim (Bool-cases (x == y)) [
      | inl here ↦
          let there =
            again (subst (λ k. contains k names ≡ true) (sym ((==_iff x y).0 here)) known) in
          let there_y = subst (λ k. elem k seen ≡ true) ((==_iff x y).0 here) there in
          rw same (rw there_y)
      | inr other ↦ rw same (ground (arith, h, other))
    ]
    | inr (more, found, fresh, next) ↦ rw next (ground (arith, h, elem-extend y more stack))
  ]

  visit-Closed :
      Closed names seen (x ∷ stack)
      → let next = visit names seen x stack in Closed names next.seen next.stack
  visit-Closed closed y z listed edge = elim (visit-cases names seen x stack) [
    | inl (same, again) ↦
        visit-pending y edge.0 (closed y z (subst (λ s. elem z s.seen ≡ true) same listed) edge)
    | inr (more, found, fresh, next) ↦
        let listed_z = subst (λ s. elem z s.seen ≡ true) next listed in
        elim (Bool-cases (x == z)) [
          | inl here ↦
              let (deps, got, depends) = edge.1 in
              let found_z = subst (λ k. get k names ≡ some more) ((==_iff x z).0 here) found in
              let same : deps ≡ more = ground (arith, got, found_z) in
              let depends_more = subst (λ ds. elem y ds ≡ true) same depends in
              rw next (ground (arith, elem-extend y more stack, depends_more))
          | inr other ↦ visit-pending y edge.0 (closed y z (ground (arith, listed_z, other)) edge)
        ]
  ]

-- A name that is pending is seen at the end, and `seen` is closed at the end.
rounds-Closed :
    (fuel : ℕ) (names : Dict (List ℕ)) (seen stack : List ℕ)
    → Closed names seen stack
    → let end = rounds fuel names (record { seen = seen; stack = stack }) in
      Closed names end.seen end.stack
      × ((x : ℕ)
          → contains x names ≡ true
          → pending seen stack x ≡ true
          → pending end.seen end.stack x ≡ true)
unfolding rounds
rounds-Closed zero names seen stack closed = (closed, λ x known h. h)
rounds-Closed (suc fuel) names seen [] closed = (closed, λ x known h. h)
rounds-Closed (suc fuel) names seen (x ∷ stack) closed =
    let next = visit names seen x stack in
    let rest =
      rounds-Closed fuel names next.seen next.stack (visit-Closed names seen x stack closed) in
    (rest.0, λ y known h. rest.1 y known (visit-pending names seen x stack y known h))

search_from-seen :
    (names : Dict (List ℕ)) (deps : List ℕ)
    → let seen = (search_from names deps).seen in
      Closed names seen []
      × ((x : ℕ) → contains x names ≡ true → elem x deps ≡ true → elem x seen ≡ true)
unfolding search_from
search_from-seen names deps =
    let end =
      rounds-Closed (length deps + total names) names [] (extend deps []) (λ x y h edge. cc) in
    let done = search_from-done names deps in
    (
      subst (λ stack. Closed names (search_from names deps).seen stack) done end.0,
      λ x known h.
          let seen = end.1 x known (ground (arith, elem-extend x deps [], h)) in
          let at_end =
            subst (λ stack. pending (search_from names deps).seen stack x ≡ true) done seen in
          ground (arith, at_end),
    )

module _ (names : Dict (List ℕ)) (name : ℕ) where
  ancestors-found :
      {deps : List ℕ}
      → get name names ≡ some deps
      → ancestors names name ≡ (search_from names deps).seen
  unfolding ancestors
  ancestors-found found = rw (found, ancestors)

  ancestors-absent : get name names ≡ none → ancestors names name ≡ []
  unfolding ancestors
  ancestors-absent absent = rw (absent, ancestors)

pub Before-known :
    {names : Dict (List ℕ)} {x y : ℕ}
    → Before names x y
    → contains x names ≡ true × contains y names ≡ true
Before-known {names} {x} {y} (direct e) = (e.0, contains_of_get y names e.1.1)
Before-known (through e b) = (e.0, (Before-known b).1)

Before-seen :
    {names : Dict (List ℕ)} {x name : ℕ} {deps : List ℕ}
    → get name names ≡ some deps
    → Before names x name
    → elem x (search_from names deps).seen ≡ true
Before-seen {names} {x} {name} {deps} found (direct e) =
    let (more, got, listed) = e.1 in
    let same : more ≡ deps = ground (arith, got, found) in
    (search_from-seen names deps).1 x e.0 (subst (λ ds. elem x ds ≡ true) same listed)
Before-seen {names} {x} {name} {deps} found (through {y = y} e b) =
    let seen = (search_from-seen names deps).0 x y (Before-seen found b) e in ground (arith, seen)

search_from-Before :
    (names : Dict (List ℕ)) (name : ℕ) {deps : List ℕ}
    → get name names ≡ some deps
    → All (λ x. Before names x name) (search_from names deps).seen
unfolding search_from Sound
search_from-Before names name {deps} found =
    rounds-Sound (length deps + total names) names name [] (extend deps []) tt (
      All-extend (λ x. contains x names ≡ true → Before names x name) deps []
        (deps-Sound names name name deps (λ x edge. direct edge) found) tt)

absent_known :
    (name : ℕ) (names : Dict (List ℕ))
    → get name names ≡ none
    → contains name names ≡ true
    → false ≡ true
absent_known name names absent known = ground (arith, absent, known)

-- `ancestors(name)` holds an instruction exactly when that completes before `name` starts: it is a
-- dependency that the schedule has, or comes before such a dependency.
pub ancestors-Before :
    (names : Dict (List ℕ)) (x name : ℕ)
    → (elem x (ancestors names name) ≡ true) ↔ Before names x name
ancestors-Before names x name = elim (Option-cases (get name names)) [
  | inl absent ↦ (
    λ h. cc (subst (λ ys. elem x ys ≡ true) (ancestors-absent names name absent) h),
    λ b. cc (absent_known name names absent (Before-known b).1),
  )
  | inr (deps, found) ↦ (
    λ h.
        All_of_elem (λ y. Before names y name) x (search_from names deps).seen
          (search_from-Before names name found)
          (subst (λ ys. elem x ys ≡ true) (ancestors-found names name found) h),
    λ b. rw (ancestors-found names name found) (Before-seen found b),
  )
]
