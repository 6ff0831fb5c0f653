-- ===== src/Schedule/Finish/Acyclic.antt =====
-- In a schedule whose instructions have different names and depend on earlier ones, none waits for
-- itself (`run_schedule_liveness` of python/tensortorrent/ir/liveness.py).
use tensor_torrent.Base.{
  ℕ, suc, ◌≤◌, ◌<◌, ◌≡◌, refl, sym, subst, inl, inr, true, false, List, [], ◌∷◌, some, ◌==◌,
  if◌then◌else◌, Bool-cases, elem, length, All, All-zip, arith,
}
use tensor_torrent.Base.Dict.{Dict, get, set, get-set}
use tensor_torrent.Schedule.{PlanInstruction}
use tensor_torrent.Schedule.Liveness.{by_name}
use tensor_torrent.Schedule.Liveness.Ancestors.{Before, direct, through}
use tensor_torrent.Schedule.Liveness.Frontier.{Acyclic}
use tensor_torrent.Schedule.Liveness.Releases.{DistinctNames}
use tensor_torrent.Schedule.Spill.Replay.{all_in}
use tensor_torrent.Schedule.Spill.Replay.Reloads.{differs}
use tensor_torrent.Schedule.Spill.Order.{is_ordered, all_in-elem}

-- The place of a name, counted from the end of the list.
abbrev depth : ℕ → List ℕ → ℕ
depth x [] = 0
depth x (y ∷ ys) = if y == x then suc (length ys) else depth x ys

depth_le : (x : ℕ) (ys : List ℕ) → depth x ys ≤ length ys
depth_le x [] = omega arith
depth_le x (y ∷ ys) = ground (arith, depth_le x ys)

-- A dependency has the lower place.
Rising : Dict (List ℕ) → List ℕ → Type 0
Rising d known =
    (x y : ℕ) (deps : List ℕ)
    → get y d ≡ some deps
    → elem x deps ≡ true
    → (elem x known ≡ true) × (elem y known ≡ true) × (depth x known < depth y known)

set-Rising :
    (name : ℕ) (deps : List ℕ) (d : Dict (List ℕ)) (known : List ℕ)
    → elem name known ≡ false
    → all_in deps known ≡ true
    → Rising d known
    → Rising (set name deps d) (name ∷ known)
unfolding Rising
set-Rising name deps d known fresh waits h x y found e listed = elim (Bool-cases (name == y)) [
  | inl same ↦
      let is : deps ≡ found = ground (arith, get-set name y deps d, e, same) in
      let before =
        all_in-elem deps known x waits (subst (λ ds. elem x ds ≡ true) (sym is) listed) in
      let ne = differs x name known before fresh in
      (ground (arith, before), ground (arith, same), ground (arith, depth_le x known, ne, same))
  | inr other ↦
      let (before, after, lower) =
        h x y found (ground (arith, get-set name y deps d, e, other)) listed in
      let ne = differs x name known before fresh in
      (ground (arith, before), ground (arith, after), ground (arith, lower, ne, other))
]

by_name-Rising :
    (insts : List PlanInstruction) (d : Dict (List ℕ)) (known : List ℕ)
    → is_ordered known insts ≡ true
    → DistinctNames insts
    → All (λ inst. elem inst.name known ≡ false) insts
    → Rising d known
    → (last : List ℕ) × Rising (by_name d insts) last
unfolding by_name is_ordered
by_name-Rising [] d known waits distinct fresh h = (known, h)
by_name-Rising (inst ∷ insts) d known waits distinct fresh h =
    by_name-Rising insts (set inst.name inst.depends_on d) (inst.name ∷ known)
      (ground (arith, waits)) distinct.1
      (All-zip (λ other a b. ground (arith, a, b)) insts fresh.1 distinct.0)
      (set-Rising inst.name inst.depends_on d known fresh.0 (ground (arith, waits)) h)

Before-Rising :
    {names : Dict (List ℕ)} {x y : ℕ} (last : List ℕ)
    → Rising names last
    → Before names x y
    → depth x last < depth y last
unfolding Rising
Before-Rising {names} {x} {y} last h (direct e) =
    let (deps, found, listed) = e.1 in (h x y deps found listed).2
Before-Rising {names} {x} {y} last h (through e b) =
    let (deps, found, listed) = e.1 in
    omega (arith, (h x _ deps found listed).2, Before-Rising last h b)

fresh_start : (insts : List PlanInstruction) → All (λ inst. elem inst.name [] ≡ false) insts
fresh_start [] = tt
fresh_start (inst ∷ insts) = (refl, fresh_start insts)

pub is_ordered-Acyclic :
    (insts : List PlanInstruction)
    → is_ordered [] insts ≡ true
    → DistinctNames insts
    → Acyclic (by_name [] insts)
unfolding Rising get
is_ordered-Acyclic insts waits distinct x b =
    let (last, h) =
      by_name-Rising insts [] [] waits distinct (fresh_start insts) (λ x y deps e listed. cc e) in
    omega (arith, Before-Rising last h b)
