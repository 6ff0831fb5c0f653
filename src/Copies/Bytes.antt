-- ===== src/Copies/Bytes.antt =====
-- `live_bytes` of python/tensortorrent/runtime/copies.py counts an allocation once.
use tensor_torrent.Base.{
  ℕ, ◌+◌, ◌≡◌, refl, sym, ap, subst, ◌⊎◌, inl, inr, true, false, List, [], ◌∷◌, ◌++◌, none, some,
  Bool-cases, arith, ok,
}
use tensor_torrent.Copies.Values.{
  AllocationId, null, torch, explicit, phys, same_allocation, allocation_id_of, describe_tensor,
  physical_capacity_bytes,
}
use tensor_torrent.Copies.{
  ResidentCopy, Key, same_key, Copies, find, assign, CopyStore, check_direct, install, alias,
}
use tensor_torrent.Copies.Counts.{allocation_of, is_seen, unseen_bytes, live_bytes}

pub same_allocation_self : (id : AllocationId) → same_allocation id id ≡ true
same_allocation_self (null a) = ground arith
same_allocation_self (torch a b c) = ground arith
same_allocation_self (explicit a) = ground arith
same_allocation_self (phys a b) = ground arith

assign_absent :
    (key : Key) (copy : ResidentCopy) (copies : Copies)
    → find key copies ≡ none
    → assign key copy copies ≡ copies ++ (key, copy) ∷ []
unfolding find assign
assign_absent key copy [] h = refl
assign_absent key copy ((k, old) ∷ copies) h = elim (Bool-cases (same_key k key)) [
  | inl same ↦ ground (arith, h, same)
  | inr other ↦
      rw other
        (ap (λ rest. (k, old) ∷ rest) (assign_absent key copy copies (ground (arith, h, other))))
]

-- A copy of the list stands on the allocation.
Backed : AllocationId → Copies → Type 0
Backed id [] = ⊥
Backed id ((key, copy) ∷ copies) = (allocation_of key copy ≡ id) ⊎ Backed id copies

find-Backed :
    (key : Key) {src : ResidentCopy} {id : AllocationId} (copies : Copies)
    → find key copies ≡ some src
    → src.allocation_id ≡ some id
    → Backed id copies
unfolding find Backed
find-Backed key [] found h = cc
find-Backed key {src} ((k, copy) ∷ copies) found h = elim (Bool-cases (same_key k key)) [
  | inl same ↦ let here : copy ≡ src = ground (arith, found, same) in inl (rw here (rw h))
  | inr other ↦
      let later : find key copies ≡ some src = ground (arith, found, other) in
      inr (find-Backed key copies later h)
]

-- A copy at the end whose allocation is counted before adds nothing.
unseen_bytes-append :
    (key : Key) (copy : ResidentCopy) (seen : List AllocationId) (copies : Copies)
    → (is_seen (allocation_of key copy) seen ≡ true) ⊎ Backed (allocation_of key copy) copies
    → unseen_bytes seen (copies ++ (key, copy) ∷ []) ≡ unseen_bytes seen copies
unfolding unseen_bytes Backed
unseen_bytes-append key copy seen [] (inl known) = rw known
unseen_bytes-append key copy seen [] (inr nowhere) = elim nowhere [ ]
unseen_bytes-append key copy seen ((k, c) ∷ copies) h =
    elim (Bool-cases (is_seen (allocation_of k c) seen)) [
      | inl again ↦ rw again (
          unseen_bytes-append key copy seen copies (elim h [
            | inl known ↦ inl known
            | inr (inl here) ↦ inl (subst (λ id. is_seen id seen ≡ true) here again)
            | inr (inr later) ↦ inr later
          ]))
      | inr fresh ↦ rw fresh (
          ap (λ n. physical_capacity_bytes c.value c.nbytes + n)
            (unseen_bytes-append key copy (allocation_of k c ∷ seen) copies (elim h [
              | inl known ↦ inl (ground (arith, known))
              | inr (inl here) ↦ inl (rw (sym here) (rw (same_allocation_self (allocation_of k c))))
              | inr (inr later) ↦ inr later
            ])))
    ]

-- Where no API is required, or the mutation is trusted, a copy that is there, whose allocation is
-- recorded as its value's own, is aliased under a resource that has none: the alias has the same
-- value, and the live bytes are as before.
pub live_bytes-alias :
    (store : CopyStore) (tensor_id source_resource alias_resource : ℕ) (src : ResidentCopy)
    → check_direct store ≡ ok tt
    → find (tensor_id, source_resource) store.copies ≡ some src
    → src.allocation_id ≡ some (allocation_id_of src.value tensor_id)
    → find (tensor_id, alias_resource) store.copies ≡ none
    → (next : CopyStore) × (copy : ResidentCopy) × (alias store tensor_id source_resource
          alias_resource
        ≡ ok (next, copy))
      × (copy.value ≡ src.value)
      × (live_bytes next ≡ live_bytes store)
unfolding alias install live_bytes describe_tensor
live_bytes-alias store t s r src free found own absent =
    let (next, copy) =
      install store t r src.value src.nbytes src.tier false src.ownership src.ready_event none in
    (
      next,
      copy,
      rw (free, found),
      refl,
      rw (assign_absent (t, r) copy store.copies absent) (
          unseen_bytes-append (t, r) copy [] store.copies
            (inr (find-Backed (t, s) store.copies found own))),
    )
