-- ===== src/Schedule/Spill/Order.antt =====
-- The order of what `plan_activation_spills` of
-- python/tensortorrent/runtime/schedule/spill_plan.py puts out: an instruction waits for earlier ones.
pub mod Steps
pub mod Plans
use tensor_torrent.Base.{
  ℕ, ◌≡◌, refl, ◌∙◌, sym, ap, subst, inl, inr, Bool, true, false, ◌&&◌, ◌||◌, List, [], ◌∷◌, ◌++◌,
  Option, none, some, ◌==◌, ==_iff, if◌then◌else◌, Bool-cases, Option-cases, elem, elem-append,
  arith,
}
use tensor_torrent.Base.Dict.{Dict, get, set, remove, get-set, get-remove}
use tensor_torrent.Schedule.{PlanInstruction, is_compute}
use tensor_torrent.Schedule.Liveness.{fromkeys}
use tensor_torrent.Schedule.Liveness.Frontier.{elem-fromkeys}
use tensor_torrent.Schedule.Spill.Reload.{
  Texts, Spills, discard, reload_load, reload_transfer, loaded, transferred, waiting,
}
use tensor_torrent.Schedule.Spill.{readers_of, spill_evict, evicted}
use tensor_torrent.Schedule.Spill.Replay.{all_in}

-- Each dependency is a name of the list, or of an earlier instruction.
unfoldable pub is_ordered : List ℕ → List PlanInstruction → Bool
is_ordered known [] = true
is_ordered known (inst ∷ insts) =
    all_in inst.depends_on known && is_ordered (inst.name ∷ known) insts

unfoldable pub names_after : List ℕ → List PlanInstruction → List ℕ
names_after known [] = known
names_after known (inst ∷ insts) = names_after (inst.name ∷ known) insts

is_ordered-append :
    (known : List ℕ) (insts : List PlanInstruction) (inst : PlanInstruction)
    → is_ordered known insts ≡ true
    → all_in inst.depends_on (names_after known insts) ≡ true
    → is_ordered known (insts ++ inst ∷ []) ≡ true
unfolding is_ordered names_after
is_ordered-append known [] inst h k = rw k
is_ordered-append known (first ∷ insts) inst h k =
    let here : all_in first.depends_on known ≡ true = ground (arith, h) in
    let rest : is_ordered (first.name ∷ known) insts ≡ true = ground (arith, h) in
    rw here (is_ordered-append (first.name ∷ known) insts inst rest k)

names_after-append :
    (known : List ℕ) (insts : List PlanInstruction) (inst : PlanInstruction)
    → names_after known (insts ++ inst ∷ []) ≡ inst.name ∷ names_after known insts
unfolding names_after
names_after-append known [] inst = refl
names_after-append known (first ∷ insts) inst = names_after-append (first.name ∷ known) insts inst

-- The names that are put out.
abbrev pub is_out : Spills → ℕ → Bool
is_out s x = elem x (names_after [] s.out)

-- What is put out is ordered, and what the planner would wait for is put out, as are the given names.
pub record InOrder (given : List ℕ) (s : Spills) : Type 0 where
  pub ordered : is_ordered [] s.out ≡ true
  pub spillers : (t op : ℕ) → get t s.spill_op_for ≡ some op → is_out s op ≡ true
  pub reloads : (t op : ℕ) → get t s.shared_reload ≡ some op → is_out s op ≡ true
  pub given_out : (x : ℕ) → elem x given ≡ true → is_out s x ≡ true

pub all_in-each :
    (xs ys : List ℕ) → ((x : ℕ) → elem x xs ≡ true → elem x ys ≡ true) → all_in xs ys ≡ true
all_in-each [] ys h = refl
all_in-each (x ∷ xs) ys h =
    ground (arith, h x (ground arith), all_in-each xs ys (λ y e. h y (ground (arith, e))))

pub all_in-elem :
    (xs ys : List ℕ) (x : ℕ) → all_in xs ys ≡ true → elem x xs ≡ true → elem x ys ≡ true
all_in-elem [] ys x h e = cc
all_in-elem (y ∷ xs) ys x h e = elim (Bool-cases (y == x)) [
  | inl same ↦ subst (λ k. elem k ys ≡ true) ((==_iff y x).0 same) (ground (arith, h))
  | inr other ↦ all_in-elem xs ys x (ground (arith, h)) (ground (arith, e, other))
]

pub get-remove_found : (k t op : ℕ) (d : Dict ℕ) → get t (remove k d) ≡ some op → get t d ≡ some op
get-remove_found k t op d h = elim (Bool-cases (k == t)) [
  | inl same ↦ ground (arith, get-remove k t d, h, same)
  | inr other ↦ ground (arith, get-remove k t d, h, other)
]

-- An instruction goes out that waits for names that are out; the planner would then wait for no more
-- than before, or for it.
module _ (given : List ℕ) (s next : Spills) (inst : PlanInstruction)
    (longer : next.out ≡ s.out ++ inst ∷ []) where
  pub out_later : (x : ℕ) → is_out s x ≡ true → is_out next x ≡ true
  out_later x h =
      subst (λ insts. elem x (names_after [] insts) ≡ true) (sym longer)
        (rw (names_after-append [] s.out inst) (ground (arith, h)))

  pub out_self : is_out next inst.name ≡ true
  out_self =
      subst (λ insts. elem inst.name (names_after [] insts) ≡ true) (sym longer)
        (rw (names_after-append [] s.out inst) (ground arith))

  pub step-InOrder :
      InOrder given s
      → ((x : ℕ) → elem x inst.depends_on ≡ true → is_out s x ≡ true)
      → ((t op : ℕ) → get t next.spill_op_for ≡ some op → is_out next op ≡ true)
      → ((t op : ℕ) → get t next.shared_reload ≡ some op → is_out next op ≡ true)
      → InOrder given next
  step-InOrder h waits spillers reloads = record {
    ordered =
        subst (λ insts. is_ordered [] insts ≡ true) (sym longer)
          (is_ordered-append [] s.out inst h.ordered
            (all_in-each inst.depends_on (names_after [] s.out) waits));
    spillers = spillers;
    reloads = reloads;
    given_out = λ x e. out_later x (h.given_out x e);
  }
