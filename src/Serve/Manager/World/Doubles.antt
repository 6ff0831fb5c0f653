-- ===== src/Serve/Manager/World/Doubles.antt =====
-- `release_slot` counts calls, not callers.
use tensor_torrent.Base.{
  ℕ, zero, suc, ◌-◌, ◌<◌, ◌≡◌, refl, ◌∙◌, ap, subst, inl, inr, true, false, List, [], ◌∷◌, some,
  arith, ◌==◌, ==_iff, leb, if◌then◌else◌, elem, count, Bool-cases,
}
use tensor_torrent.Base.Dict.{Dict, get, set, get-set}
use tensor_torrent.Serve.Manager.{
  ModelSlot, ModelManager, close, close_idle, drop_one, release_slot,
}
use tensor_torrent.Serve.Manager.World.{Event}
use tensor_torrent.Serve.Manager.World.Histories.{run, no_calls, in_flight-run, close-run}
use tensor_torrent.Serve.Manager.World.Releases.{release_slot-found}

release_slot_idle :
    (m : ModelManager) (addr : ℕ) (slot : ModelSlot)
    → get addr m.store ≡ some slot
    → slot.in_flight ≡ 0
    → release_slot m addr ≡ m
unfolding release_slot
release_slot_idle m addr slot found idle = ground arith

elem_of_count : (x : ℕ) (xs : List ℕ) → 0 < count x xs → elem x xs ≡ true
elem_of_count x [] h = absurd (omega (arith, h))
elem_of_count x (y ∷ ys) h = ground (arith, elem_of_count x ys)

module _ (m : ModelManager) (addr : ℕ) (slot : ModelSlot) (found : get addr m.store ≡ some slot)
    (retired : slot.retired ≡ true) (unclosed : slot.closed ≡ false) where
  get-set_self : (s : ModelSlot) (d : Dict ModelSlot) → get addr (set addr s d) ≡ some s
  get-set_self s d = ground (arith, get-set addr addr s d, (==_iff addr addr).1 refl)

  drop_shared :
      1 < slot.in_flight
      → (get addr (drop_one m addr slot).store
          ≡ some (record slot { in_flight = slot.in_flight - 1 }))
        × ((drop_one m addr slot).closes ≡ m.closes)
  unfolding drop_one close_idle
  drop_shared shared =
      ground (arith, get-set_self (record slot { in_flight = slot.in_flight - 1 }) m.store)

  drop_last :
      slot.in_flight ≡ 1
      → (get addr (drop_one m addr slot).store
          ≡ some (record slot { in_flight = slot.in_flight - 1; closed = true }))
        × ((drop_one m addr slot).closes ≡ addr ∷ m.closes)
  unfolding drop_one close_idle close
  drop_last last =
      let less = record slot { in_flight = slot.in_flight - 1 } in
      ground (arith, get-set_self (record less { closed = true }) (set addr less m.store))

-- `times` calls of `release_slot` for one slot, by whomever.
pub release_times : ℕ → ModelManager → ℕ → ModelManager
release_times zero m addr = m
release_times (suc times) m addr = release_times times (release_slot m addr) addr

release_times_idle :
    (times : ℕ) (m : ModelManager) (addr : ℕ) (slot : ModelSlot)
    → get addr m.store ≡ some slot
    → slot.in_flight ≡ 0
    → release_times times m addr ≡ m
unfolding release_times
release_times_idle zero m addr slot found idle = refl
release_times_idle (suc times) m addr slot found idle =
    rw (release_slot_idle m addr slot found idle) (release_times_idle times m addr slot found idle)

-- A retired slot is closed by the release that takes its count to 0.
release_times-closes :
    (times : ℕ) (m : ModelManager) (addr : ℕ) (slot : ModelSlot)
    → get addr m.store ≡ some slot
    → slot.retired ≡ true
    → slot.closed ≡ false
    → 0 < slot.in_flight
    → (release_times times m addr).closes
      ≡ (if leb slot.in_flight times then addr ∷ m.closes else m.closes)
unfolding release_times
release_times-closes zero m addr slot found retired unclosed busy = ground arith
release_times-closes (suc times) m addr slot found retired unclosed busy =
    let less = record slot { in_flight = slot.in_flight - 1 } in
    elim (Bool-cases (slot.in_flight == 1)) [
      | inl last ↦
          let one = (==_iff slot.in_flight 1).0 last in
          let (there, closes) = drop_last m addr slot found retired unclosed one in
          rw (release_times, release_slot-found m addr slot found busy)
            (ap (λ n. n.closes)
                (release_times_idle times (drop_one m addr slot) addr
                  (record less { closed = true }) there (omega (arith, one)))
              ∙ ground (arith, closes, one))
      | inr shared ↦
          let (there, closes) = drop_shared m addr slot found retired unclosed (ground arith) in
          let rest =
            release_times-closes times (drop_one m addr slot) addr less there retired unclosed
              (ground arith) in
          rw (release_times, release_slot-found m addr slot found busy)
            (ground (arith, rest, closes))
    ]

-- After any calls in any order in which only holders release, let a retired slot be held by `n`
-- requests, and not by none. However many releases of the slot follow, whoever calls them, its module
-- is not closed by fewer than `n` of them, and it is closed once by `n` or more. So a request that
-- releases twice closes the module that one other request holds.
pub release_times-run :
    (es : List Event) (addr : ℕ) {slot : ModelSlot}
    → get addr (run no_calls es).manager.store ≡ some slot
    → slot.retired ≡ true
    → 0 < count addr (run no_calls es).held
    → (times : ℕ)
    → (release_times times (run no_calls es).manager addr).closes ≡ (
        if leb (count addr (run no_calls es).held) times
        then addr ∷ (run no_calls es).manager.closes
        else (run no_calls es).manager.closes)
release_times-run es addr {slot} found retired held times =
    let w = run no_calls es in
    let counted = (in_flight-run es addr found).0 in
    let unclosed = (close-run es addr found).0 (elem_of_count addr w.held held) in
    subst
      (λ n.
        (release_times times w.manager addr).closes
        ≡ (if leb n times then addr ∷ w.manager.closes else w.manager.closes))
      counted
      (release_times-closes times w.manager addr slot found retired unclosed
        (omega (arith, counted, held)))
