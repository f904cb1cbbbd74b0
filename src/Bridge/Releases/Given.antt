-- ===== src/Bridge/Releases/Given.antt =====
-- A release by asyncio is posted or owed, exactly once.
use aiopquic.Base.{
  ℕ, ◌+◌, ◌*◌, u32, ◌≤◌, ◌^◌, ◌<◌, ◌≡◌, refl, sym, ap, ◌∙◌, arith, true, false, Bool-cases, ◌⊎◌,
  inl, inr, some, List, [], ◌∷◌, ◌++◌, leb, ltb, length-append, ◌==◌, if◌then◌else◌, length,
}
use aiopquic.Bridge.Releases.{
  Release, Owing, worker_pops, release_post, owed_room, owe_in, owe, ring_release,
}
use aiopquic.Bridge.Releases.Owed.{posted, pops-posted, post-posted, release_flush-Flushed}

-- How many of the releases are of the ring at `q`.
abbrev pub tally : List Release → ℕ → ℕ
tally [] q = 0
tally (r ∷ rs) q = (if r.db == q then 1 else 0) + tally rs q

tally-append : (xs ys : List Release) (q : ℕ) → tally (xs ++ ys) q ≡ tally xs q + tally ys q
tally-append [] ys q = omega arith
tally-append (r ∷ xs) ys q = omega (arith, tally-append xs ys q)

-- Where the release of a ring is: posted, so that nothing more is owed, or nothing is owed any more, or
-- the signal is armed and the ring above low water.
pub data IsKept (x y : Owing) : Type 0 where
  in_ring : y.owed ≡ x.owed → IsKept x y
  none_owed : y.owed ≡ [] → IsKept x y
  waited_for : y.signal.drain_pending ≡ true → y.signal.low_water < length y.entries → IsKept x y

waiting-IsKept :
    (x y : Owing)
    → (y.owed ≡ []) ⊎ ((y.signal.drain_pending ≡ true) × (y.signal.low_water < length y.entries))
    → IsKept x y
waiting-IsKept x y (inl none_left) = none_owed none_left
waiting-IsKept x y (inr (armed, above)) = waited_for armed above

-- The room is enough for one more, since no more are owed than there is room for.
owed_room_lem :
    (x : Owing)
    → length x.owed ≤ x.owed_cap
    → x.owed_cap < 2 ^ 31
    → (cap : ℕ) × (owed_room true x ≡ some cap) × (length x.owed < cap)
unfolding owed_room
owed_room_lem x held small = elim (Bool-cases (length x.owed == x.owed_cap)) [
  | inl full ↦
      let cap = if x.owed_cap == 0 then 8 else u32 (2 * x.owed_cap) in
      (cap, rw full refl, ground (arith, held, small))
  | inr room ↦ (x.owed_cap, rw room refl, ground (arith, held, room))
]

owe_lem :
    (pops : ℕ → ℕ) (now : ℕ) (z : Owing) (r : Release)
    → z.signal.low_water < z.capacity
    → length z.owed ≤ z.owed_cap
    → z.owed_cap < 2 ^ 31
    → (y : Owing) × (owe true pops now z r ≡ some y)
      × (posted y ++ y.owed ≡ posted z ++ (z.owed ++ (r ∷ [])))
      × (length y.owed ≤ y.owed_cap)
      × IsKept z y
unfolding owe
owe_lem pops now z r low held small =
    let (cap, grows, room) = owed_room_lem z held small in
    let fits : ltb (length z.owed) cap ≡ true = ground (arith, room) in
    let grown : Owing = record z { owed = z.owed ++ (r ∷ []); owed_cap = cap } in
    let (y, done, f) = release_flush-Flushed pops now 1 grown low in
    (
      y,
      ap (owe_in pops now z r) grows ∙ rw fits done,
      f.order,
      omega (arith, f.fewer, f.alike.owed_cap, length-append z.owed (r ∷ []), room),
      waiting-IsKept z y f.waits,
    )

-- A release of a ring by asyncio while the worker runs, whatever entries it takes meanwhile, where there is
-- memory for what is owed, low water is below the ring's capacity, and no more are owed than the array
-- has room for, less than 2^31: it returns, with no write past the array and no more owed than that has
-- room for; the ring has one release more posted or owed and no other ring has; and it is posted, or
-- nothing is owed any more, or the signal is armed with the ring above low water.
pub ring_release_lem :
    (pops : ℕ → ℕ) (now : ℕ) (x : Owing) (r : Release)
    → x.signal.low_water < x.capacity
    → 0 < r.db
    → length x.owed ≤ x.owed_cap
    → x.owed_cap < 2 ^ 31
    → (y : Owing) × (ring_release true pops now x r ≡ some y)
      × ((q : ℕ)
          → tally (posted y ++ y.owed) q
            ≡ tally (posted x ++ x.owed) q + (if r.db == q then 1 else 0))
      × (length y.owed ≤ y.owed_cap)
      × IsKept x y
unfolding ring_release worker_pops release_post
ring_release_lem pops now x r low some_ring held small =
    elim (Bool-cases (leb z.capacity (length z.entries))) [
      | inl full ↦
          let post : release_post z r ≡ (false, z) = rw (full, release_post) refl in
          let (y, done, order, room, kept) = owe_lem pops now z r low held small in
          (y, rw (not_null, post) done, (λ q. adds_one y order q), room, waits y kept)
      | inr room ↦
          let y : Owing = record z { entries = z.entries ++ (some r ∷ []) } in
          let post : release_post z r ≡ (true, y) = rw (room, release_post) refl in
          let order : posted y ++ x.owed ≡ posted z ++ (r ∷ []) ++ x.owed =
            ap (λ o. posted o.1 ++ x.owed) (sym post)
            ∙ ap (λ l. l ++ x.owed) (post-posted z r room) in
          (
            y,
            rw (not_null, post) refl,
            (λ q. omega (
              arith,
              tally-append (posted z ++ (r ∷ [])) x.owed q,
              tally-append (posted z) (r ∷ []) q,
              tally-append (posted x) x.owed q,
              ap (λ l. tally l q) order,
              ap (λ l. tally l q) (pops-posted (pops 0) x),
            )),
            held,
            in_ring refl,
          )
    ]
  where
    z : Owing
    z = worker_pops (pops 0) x

    not_null : (r.db == 0) ≡ false
    not_null = ground (arith, some_ring)

    waits : (y : Owing) → IsKept z y → IsKept x y
    waits y (in_ring e) = in_ring e
    waits y (none_owed e) = none_owed e
    waits y (waited_for a b) = waited_for a b

    adds_one :
        (y : Owing)
        → posted y ++ y.owed ≡ posted z ++ (z.owed ++ (r ∷ []))
        → (q : ℕ)
        → tally (posted y ++ y.owed) q ≡ tally (posted x ++ x.owed) q + (if r.db == q then 1 else 0)
    adds_one y order q =
        ap (λ l. tally l q) order
        ∙ omega (
          arith,
          tally-append (posted z) (z.owed ++ (r ∷ [])) q,
          tally-append x.owed (r ∷ []) q,
          tally-append (posted x) x.owed q,
          ap (λ l. tally l q) (pops-posted (pops 0) x),
        )
