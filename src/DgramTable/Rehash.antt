-- ===== src/DgramTable/Rehash.antt =====
-- The loop of `aiopquic_dgram_table_grow`: each search for an empty slot ends, the entries are kept.
use aiopquic.Base.{
  ℕ, zero, suc, ◌+◌, ◌-◌, ◌≤◌, ◌<◌, ◌≡◌, ◌≢◌, refl, ap, sym, ◌∙◌, arith, true, Bool-cases, ◌⊎◌,
  ◌||◌, inl, inr, Option, none, some, List, [], ◌∷◌, length, length-set, ◌==◌, ltb, get_or, set,
  get_or-set_self, get_or-set_ne, ℕ_discrete,
}
use aiopquic.Base.Pow2.{IsPow2}
use aiopquic.DgramTable.{
  Slot, no_slot, tombstone, home, next, key, Walk, absent, lost, walk, free_slot, rehash,
}
use aiopquic.DgramTable.Probe.{
  ne-==, mine, empty, taken, sees, walk_empty, walk_taken, key-set_self, key-set_ne, Visits-all,
  Ends, walk-Ends,
}
use aiopquic.DgramTable.Placing.{walk-set_fresh, lost-ne_absent, absent-inj}
use aiopquic.DgramTable.Valid.{
  Reaches, Has, tally-set, if_used, if_live, occupied, living, hole, home-lt,
}
use aiopquic.DgramTable.Laws.{Has-set_to, Reaches-set}

-- No slot has the connection.
abbrev pub NotIn : List Slot → ℕ → Type 0
NotIn slots cnx = (q : ℕ) → q < length slots → key slots q ≢ cnx

abbrev to_walk : Option ℕ → Walk
to_walk none = lost
to_walk (some p) = absent p

-- For a connection that is not in the slots, the search for an empty slot is the walk for it.
free_slot-eq :
    (slots : List Slot) (mask cnx n j : ℕ)
    → ((q : ℕ) → key slots q ≢ cnx)
    → walk slots mask cnx n j ≡ to_walk (free_slot slots mask n j)
free_slot-eq slots mask cnx zero j no_one = unfold walk free_slot in refl
free_slot-eq slots mask cnx (suc n) j no_one = elim (sees cnx (key slots j)) [
  | mine x ↦ absurd (no_one j x)
  | empty other x ↦ walk_empty slots mask cnx n j other x ∙ ap to_walk (sym (stops x))
  | taken other full ↦
      walk_taken slots mask cnx n j other full
      ∙ free_slot-eq slots mask cnx n (next mask j) no_one
      ∙ ap to_walk (sym (goes_on full))
]
  where
    stops : key slots j ≡ 0 → free_slot slots mask (suc n) j ≡ some j
    stops x =
        let test : (key slots j == 0) ≡ true = ground (arith, x) in unfold free_slot in rw test

    goes_on :
        key slots j ≢ 0 → free_slot slots mask (suc n) j ≡ free_slot slots mask n (next mask j)
    goes_on full = unfold free_slot in rw (ne-== _ _ full)

-- Beyond the slots there is nothing but the empty slot.
pub beyond : (slots : List Slot) (q : ℕ) → length slots ≤ q → key slots q ≡ 0
beyond [] q h = refl
beyond (s ∷ slots) zero h = absurd (omega arith)
beyond (s ∷ slots) (suc q) h = beyond slots q (omega arith)

nowhere_in : (slots : List Slot) (cnx : ℕ) → 1 < cnx → NotIn slots cnx → (q : ℕ) → key slots q ≢ cnx
nowhere_in slots cnx live absent_in q e = elim (Bool-cases (ltb q (length slots))) [
  | inl inside ↦ absent_in q (ground (arith, inside)) e
  | inr outside ↦ absurd (omega (arith, live, e, beyond slots q (ground (arith, outside))))
]

pub used_one : {c : ℕ} → 1 < c → if_used c ≡ 1
used_one h = ground arith

pub live_one : {c : ℕ} → 1 < c → if_live c ≡ 1
live_one h = ground arith

-- The connections of the old slots are apart from each other and from those moved.
abbrev pub Apart : List Slot → Type 0
Apart [] = Unit
Apart (s ∷ old) = (1 < s.cnx → NotIn old s.cnx) × Apart old

module _ {cap mask : ℕ} (w : IsPow2 cap) (m : mask ≡ cap - 1) where
  -- Slots that are rehashed to so far.
  pub record Rehashed (ns : List Slot) : Type 0 where
    pub storage : length ns ≡ cap
    pub reaches : Reaches ns cap mask
    pub no_tombs : occupied ns ≡ living ns

  walk_misses :
      (ns : List Slot) (cnx : ℕ)
      → ((q : ℕ) → key ns q ≢ cnx)
      → length ns ≡ cap
      → occupied ns < cap
      → (j : ℕ) × (walk ns mask cnx cap (home mask cnx) ≡ absent j) × (j < cap) × (key ns j ≡ 0)
  walk_misses ns cnx no_one size room =
      let (p, below, hollow) = hole ns (omega (arith, size, room)) in
      let h = home-lt cnx w m in
      by_end
        (walk-Ends w m ns cnx p cap (home mask cnx) h hollow
          (Visits-all w m (home mask cnx) p h (omega (arith, below, size))))
        refl
    where
      by_end :
          {x : Walk}
          → Ends ns cap cnx x
          → walk ns mask cnx cap (home mask cnx) ≡ x
          → (j : ℕ) × (walk ns mask cnx cap (home mask cnx) ≡ absent j) × (j < cap) × (key ns j ≡ 0)
      by_end (Ends.hit q l e) g = absurd (no_one q e)
      by_end (Ends.miss q l e) g = (q, g, l, e)

  -- One entry moved.
  moved :
      (ns : List Slot) (s : Slot)
      → Rehashed ns
      → 1 < s.cnx
      → NotIn ns s.cnx
      → occupied ns < cap
      → (j : ℕ) × (free_slot ns mask cap (home mask s.cnx) ≡ some j)
        × (j < length ns)
        × (key ns j ≡ 0)
        × Rehashed (set ns j s)
        × (occupied (set ns j s) ≡ occupied ns + 1)
  moved ns s r live new room =
      let no_one = nowhere_in ns s.cnx live new in
      let (j, misses, below, hollow) = walk_misses ns s.cnx no_one r.storage room in
      let inside : j < length ns = omega (arith, below, r.storage) in
      (
        j,
        is_some (free_slot ns mask cap (home mask s.cnx))
            (sym (free_slot-eq ns mask s.cnx cap (home mask s.cnx) no_one) ∙ misses),
        inside,
        hollow,
        record {
          storage = length-set ns j s ∙ r.storage;
          reaches =
              Reaches-set cap mask ns j s r.reaches inside live (omega (arith, hollow))
                (λ q h l. no_one q)
                (walk-set_fresh ns mask s.cnx j s cap (home mask s.cnx) inside refl hollow misses);
          no_tombs = omega (
            arith,
            tally-set if_used ns j s inside,
            tally-set if_live ns j s inside,
            r.no_tombs,
            ap if_used hollow,
            ap if_live hollow,
            used_one live,
            live_one live,
          );
        },
        omega (arith, tally-set if_used ns j s inside, ap if_used hollow, used_one live),
      )
    where
      is_some : {j : ℕ} (o : Option ℕ) → to_walk o ≡ absent j → o ≡ some j
      is_some none e = absurd (lost-ne_absent _ e)
      is_some (some p) e = ap some (absent-inj e)

  -- What a rehash of `old` leaves.
  abbrev pub Done : List Slot → List Slot → List Slot → Type 0
  Done old ns ns' =
      Rehashed ns'
      × (occupied ns' ≡ occupied ns + living old)
      × ((k d : ℕ) → 1 < k → Has ns k d ⊎ Has old k d → Has ns' k d)
      × ((k d : ℕ) → 1 < k → Has ns' k d → Has ns k d ⊎ Has old k d)

  pub rehash_lem :
      (old ns : List Slot)
      → Rehashed ns
      → Apart old
      → ((q : ℕ) → q < length old → 1 < key old q → NotIn ns (key old q))
      → occupied ns + living old < cap
      → (ns' : List Slot) × (rehash cap mask old ns ≡ some ns') × Done old ns ns'
  unfolding rehash
  rehash_lem [] ns r apart new room = (
    ns,
    refl,
    (
      r,
      omega arith,
      λ k d l h. elim h [ inl x ↦ x | inr (q, below, e) ↦ absurd (omega arith) ],
      λ k d l h. inl h,
    ),
  )
  rehash_lem (s ∷ old) ns r apart new room =
      elim (Bool-cases ((s.cnx == 0) || (s.cnx == tombstone))) [
        | inl dead ↦
            let none_more : if_live s.cnx ≡ 0 = ground (arith, dead) in
            let (ns', e, (r', count, to, from)) =
              rehash_lem old ns r apart.1 (λ q h l. new (suc q) (omega (arith, h)) l)
                (omega (arith, room, none_more)) in
            (
              ns',
              rw dead e,
              (
                r',
                omega (arith, count, none_more),
                λ k d l h. to k d l (elim h [
                  | inl x ↦ inl x
                  | inr (zero, below, e) ↦ absurd (not_dead k d dead l e)
                  | inr (suc q, below, e) ↦ inr (q, omega (arith, below), e)
                ]),
                λ k d l h. elim (from k d l h) [
                  | inl x ↦ inl x
                  | inr (q, below, e) ↦ inr (suc q, omega (arith, below), e)
                ],
              ),
            )
        | inr alive ↦
            let live : 1 < s.cnx = ground (arith, alive) in
            let one : if_live s.cnx ≡ 1 = live_one live in
            let (j, there, inside, hollow, r₁, count₁) =
              moved ns s r live (new 0 (omega arith) live) (omega (arith, room, one)) in
            let (ns', e, (r', count, to, from)) =
              rehash_lem old (set ns j s) r₁ apart.1
                (λ q h l.
                  still_new ns j s inside (key old q) (new (suc q) (omega (arith, h)) l)
                    (λ x. apart.0 live q h (sym x)))
                (omega (arith, room, one, count₁)) in
            (
              ns',
              rw (alive, there) e,
              (
                r',
                omega (arith, count, count₁, one),
                λ k d l h. to k d l (elim h [
                  | inl x ↦ inl (Has-set_to ns j s inside k d (λ y. omega (arith, y, hollow, l)) x)
                  | inr (zero, below, e) ↦ inl (
                    j,
                    omega (arith, inside, length-set ns j s),
                    get_or-set_self ns j s no_slot inside ∙ e,
                  )
                  | inr (suc q, below, e) ↦ inr (q, omega (arith, below), e)
                ]),
                λ k d l h. elim (from k d l h) [
                  | inl x ↦ back ns j s inside k d x
                  | inr (q, below, e) ↦ inr (suc q, omega (arith, below), e)
                ],
              ),
            )
      ]
    where
      not_dead :
          (k d : ℕ)
          → ((s.cnx == 0) || (s.cnx == tombstone)) ≡ true
          → 1 < k
          → ¬ (s ≡ record { cnx = k; db = d })
      not_dead k d dead l e =
          let same : s.cnx ≡ k = ap (λ x. x.cnx) e in ground (arith, dead, l, same)

      still_new :
          (ns : List Slot) (j : ℕ) (s : Slot)
          → j < length ns
          → (k : ℕ) → NotIn ns k
          → s.cnx ≢ k
          → NotIn (set ns j s) k
      still_new ns j s inside k new other q h e = elim (ℕ_discrete j q) [
        | yes same ↦ other (sym (key-set_self ns j s inside) ∙ ap (key (set ns j s)) same ∙ e)
        | no x ↦
            new q (omega (arith, h, length-set ns j s)) (sym (key-set_ne ns j s inside q x) ∙ e)
      ]

      back :
          (ns : List Slot) (j : ℕ) (s : Slot)
          → j < length ns
          → (k d : ℕ) → Has (set ns j s) k d
          → Has ns k d ⊎ Has (s ∷ old) k d
      back ns j s inside k d (q, below, e) = elim (ℕ_discrete j q) [
        | yes same ↦ inr (
          0,
          omega arith,
          sym (get_or-set_self ns j s no_slot inside)
              ∙ ap (λ x. get_or (set ns j s) x no_slot) same
              ∙ e,
        )
        | no x ↦
            inl (
              q,
              omega (arith, below, length-set ns j s),
              sym (get_or-set_ne ns j q s no_slot x) ∙ e,
            )
      ]
