-- ===== src/Copies/Guard.antt =====
-- The calls that change the store of python/tensortorrent/runtime/copies.py, against a map from keys
-- to values.
use tensor_torrent.Base.{
  ℕ, suc, ◌-◌, leb, ◌≡◌, refl, ◌∙◌, ap, inl, inr, Bool, false, ◌&&◌, none, some, if◌then◌else◌,
  Bool-cases, Option-cases, arith, ok,
}
use tensor_torrent.Copies.Values.{nbytes_of, Value}
use tensor_torrent.Copies.{
  ResidentCopy, Key, same_key, Copies, find, assign, without, CopyStore, enter_trusted,
  leave_trusted, nbytes_in, or_previous, or_event, check_direct, install, put, replicate, alias,
  replace_handle, drop, move,
}
use tensor_torrent.Schedule.{MemoryTier}
use tensor_torrent.Copies.Keys.{find-assign, find-without, find_absent}
use tensor_torrent.Copies.Calls.{
  Call, put_call, replicate_call, alias_call, replace_call, drop_call, move_call, store_of, perform,
  value_at, allowed, updated, Performs, alone,
}

value_at-assign :
    (key k : Key) (copy : ResidentCopy) (copies : Copies)
    → value_at (assign key copy copies) k
      ≡ (if same_key key k then some copy.value else value_at copies k)
unfolding value_at
value_at-assign key k copy copies = ground (arith, find-assign key k copy copies)

value_at-without :
    (key k : Key) (copies : Copies)
    → value_at (without key copies) k ≡ (if same_key key k then none else value_at copies k)
unfolding value_at
value_at-without key k copies = ground (arith, find-without key k copies)

value_at-found :
    (key : Key) {copy : ResidentCopy} (copies : Copies)
    → find key copies ≡ some copy
    → value_at copies key ≡ some copy.value
unfolding value_at
value_at-found key copies found = rw (found, value_at)

value_at_absent :
    (key k : Key) (copies : Copies)
    → find key copies ≡ none
    → value_at copies k ≡ (if same_key key k then none else value_at copies k)
unfolding value_at
value_at_absent key k copies absent = ground (arith, find_absent key k copies absent)

-- Only the way out of a call that is not trusted is shut.
abbrev shut : CopyStore → Bool
shut store = store.require_publish_api && leb store.trusted_depth 0

-- The drop inside a move is trusted, and the depth is restored.
dropped_trusted :
    (store : CopyStore) (t s : ℕ) {src : ResidentCopy}
    → find (t, s) store.copies ≡ some src
    → drop (enter_trusted store) t s
      ≡ ok (
        record store {
          copies = without (t, s) store.copies;
          trusted_depth = suc store.trusted_depth;
        },
        src.nbytes,
      )
unfolding drop check_direct enter_trusted
dropped_trusted store t s found =
    let free : (store.require_publish_api && leb (suc store.trusted_depth) 0) ≡ false =
      ground arith in
    rw (free, found)

left_trusted :
    (store : CopyStore) (copies : Copies)
    → leave_trusted (record store { copies = copies; trusted_depth = suc store.trusted_depth })
      ≡ record store { copies = copies }
unfolding leave_trusted
left_trusted store copies =
    let depth : suc store.trusted_depth - 1 ≡ store.trusted_depth = omega arith in
    ap (λ n. record store { copies = copies; trusted_depth = n }) depth

moved :
    (store : CopyStore) (t s d : ℕ) (v : Value) (tier : MemoryTier) {src : ResidentCopy}
    → shut store ≡ false
    → find (t, s) store.copies ≡ some src
    → store_of (move alone alone store t s d v tier)
      ≡ ok
          (install
            (record store { copies = without (t, s) store.copies })
            t
            d
            v
            (nbytes_of v)
            tier
            src.authoritative
            src.ownership
            none
            none).0
unfolding move check_direct
moved store t s d v tier {src} free found =
    rw (free, found, dropped_trusted store t s found)
      (ap
        (λ left.
          ok (install left t d v (nbytes_of v) tier src.authoritative src.ownership none none).0)
        (left_trusted store (without (t, s) store.copies)))

-- Each call that changes the store, where no other thread changes it meanwhile, raises `RuntimePlanError` exactly when it is shut out (the publish
-- API is required and the mutation is not trusted) or the copy that it starts from is missing; else it
-- changes the values, seen as a map from keys, as `updated` says (no other key is touched), and leaves
-- the flag and the depth of trust as they were.
pub perform-Performs : (call : Call) (store : CopyStore) → Performs call store
unfolding Performs perform allowed value_at put check_direct install replicate alias replace_handle
    drop move updated enter_trusted leave_trusted
perform-Performs (put_call t r v tier a o e p) store = elim (Bool-cases (shut store)) [
  | inl closed ↦ inl (rw closed, rw closed)
  | inr free ↦
      let (next, copy) = install store t r v (nbytes_in v p) tier a o e p in
      inr (rw free, (next, rw free, (λ k. value_at-assign (t, r) k copy store.copies), refl, refl))
]
perform-Performs (replicate_call t r v tier o e) store = elim (Bool-cases (shut store)) [
  | inl closed ↦ inl (rw closed, rw closed)
  | inr free ↦
      let (next, copy) = install store t r v (nbytes_of v) tier false o e none in
      inr (rw free, (next, rw free, (λ k. value_at-assign (t, r) k copy store.copies), refl, refl))
]
perform-Performs (alias_call t s r) store = elim (Bool-cases (shut store)) [
  | inl closed ↦ inl (rw closed, rw closed)
  | inr free ↦ elim (Option-cases (find (t, s) store.copies)) [
    | inl absent ↦ inl (ground (arith, free, absent), rw (free, absent))
    | inr (src, found) ↦
        let (next, copy) =
          install store t r src.value src.nbytes src.tier false src.ownership src.ready_event
            none in
        inr (
          ground (arith, free, found),
          (
            next,
            rw (free, found),
            (λ k.
                rw (value_at-found (t, s) store.copies found)
                  (value_at-assign (t, r) k copy store.copies)),
            refl,
            refl,
          ),
        )
  ]
]
perform-Performs (replace_call t r v tier e) store = elim (Bool-cases (shut store)) [
  | inl closed ↦ inl (rw closed, rw closed)
  | inr free ↦ elim (Option-cases (find (t, r) store.copies)) [
    | inl absent ↦ inl (ground (arith, free, absent), rw (free, absent))
    | inr (prev, found) ↦
        let (next, copy) =
          install store t r v (nbytes_of v) (or_previous tier prev.tier) prev.authoritative
            prev.ownership (or_event e prev.ready_event) none in
        inr (
          ground (arith, free, found),
          (next, rw (free, found), (λ k. value_at-assign (t, r) k copy store.copies), refl, refl),
        )
  ]
]
perform-Performs (drop_call t r) store = elim (Bool-cases (shut store)) [
  | inl closed ↦ inl (rw closed, rw closed)
  | inr free ↦ elim (Option-cases (find (t, r) store.copies)) [
    | inl absent ↦ inr (
      rw free,
      (store, rw (free, absent), (λ k. value_at_absent (t, r) k store.copies absent), refl, refl),
    )
    | inr (old, found) ↦ inr (
      rw free,
      (
        record store { copies = without (t, r) store.copies },
        rw (free, found),
        (λ k. value_at-without (t, r) k store.copies),
        refl,
        refl,
      ),
    )
  ]
]
perform-Performs (move_call t s d v tier) store = elim (Bool-cases (shut store)) [
  | inl closed ↦ inl (rw closed, rw closed)
  | inr free ↦ elim (Option-cases (find (t, s) store.copies)) [
    | inl absent ↦ inl (ground (arith, free, absent), rw (free, absent))
    | inr (src, found) ↦
        let dropped : CopyStore = record store { copies = without (t, s) store.copies } in
        let (next, copy) =
          install dropped t d v (nbytes_of v) tier src.authoritative src.ownership none none in
        inr (
          ground (arith, free, found),
          (
            next,
            moved store t s d v tier free found,
            (λ k.
                value_at-assign (t, d) k copy dropped.copies
                ∙ ap (λ x. if same_key (t, d) k then some v else x)
                    (value_at-without (t, s) k store.copies)),
            refl,
            refl,
          ),
        )
  ]
]
