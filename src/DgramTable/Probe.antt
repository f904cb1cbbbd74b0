-- ===== src/DgramTable/Probe.antt =====
-- Walks along the slots: what one visits, where it ends, and what a change of one slot does to it.
use aiopquic.Base.{
  ℕ, zero, suc, ◌+◌, ◌-◌, ◌%◌, ◌<◌, ◌≡◌, ◌≢◌, refl, ap, sym, subst, ◌∙◌, arith, true, false,
  Bool-cases, ◌⊎◌, inl, inr, List, u32, ◌==◌, length, set, get_or-set_self, get_or-set_ne, bit_and,
  ltb, ltb→lt, ℕ_discrete,
}
use aiopquic.Base.Pow2.{IsPow2, IsPow2-bounds, mask-eq-mod}
use native.Mathlib.Nat.{mod-eq_of_lt, mod_self}
use aiopquic.DgramTable.{Slot, no_slot, next, key, Walk, found, absent, lost, walk}

-- A walk of so many steps from a slot comes to `p`.
pub data Visits (mask p : ℕ) : ℕ → ℕ → Type 0 where
  here : (n i : ℕ) → i ≡ p → Visits mask p (suc n) i
  later : (n i : ℕ) → Visits mask p n (next mask i) → Visits mask p (suc n) i

==-false : (a b : ℕ) → (a == b) ≡ false → a ≢ b
==-false a b h e = ground arith

pub ne-== : (a b : ℕ) → a ≢ b → (a == b) ≡ false
ne-== a b h = ground arith

module _ {cap mask : ℕ} (w : IsPow2 cap) (m : mask ≡ cap - 1) where
  next-eq :
      (i : ℕ)
      → i < cap
      → ((i + 1 ≡ cap) × (next mask i ≡ 0)) ⊎ ((i + 1 < cap) × (next mask i ≡ i + 1))
  unfolding next
  next-eq i h = elim (Bool-cases (i + 1 == cap)) [
    | inl last ↦
        let e : i + 1 ≡ cap = ground (arith, last) in
        inl (e, step ∙ ap (λ n. n % cap) e ∙ mod_self cap)
    | inr inner ↦
        let below : i + 1 < cap = ground (arith, inner, h) in inr (below, step ∙ mod-eq_of_lt below)
  ]
    where
      step : bit_and (u32 (i + 1)) mask ≡ (i + 1) % cap
      step =
          ap (λ n. bit_and n mask) {y = i + 1} (omega (arith, h, IsPow2-bounds w))
          ∙ ap (λ n. bit_and (i + 1) n) m
          ∙ mask-eq-mod (i + 1) w

  pub next-lt : (i : ℕ) → i < cap → next mask i < cap
  next-lt i h = elim (next-eq i h) [
    | inl (last, e) ↦ omega (arith, e, h)
    | inr (below, e) ↦ omega (arith, e, below)
  ]

  -- `d` steps from `i` on lie `p`.
  Visits-ahead :
      (d n i p : ℕ)
      → i < cap
      → p < cap
      → (i + d ≡ p) ⊎ (i + d ≡ p + cap)
      → d < n
      → Visits mask p n i
  Visits-ahead d zero i p hi hp at lt = absurd (omega arith)
  Visits-ahead zero (suc n) i p hi hp (inl e) lt = Visits.here n i (omega arith)
  Visits-ahead zero (suc n) i p hi hp (inr e) lt = absurd (omega arith)
  Visits-ahead (suc d) (suc n) i p hi hp at lt =
      Visits.later n i (Visits-ahead d n (next mask i) p (next-lt i hi) hp ahead (omega arith))
    where
      ahead : (next mask i + d ≡ p) ⊎ (next mask i + d ≡ p + cap)
      ahead = elim (next-eq i hi) [
        | inl (last, e) ↦ elim at [
          | inl a ↦ absurd (omega (arith, last, a, hp))
          | inr a ↦ inl (omega (arith, e, last, a))
        ]
        | inr (below, e) ↦ elim at [
          | inl a ↦ inl (omega (arith, e, a))
          | inr a ↦ inr (omega (arith, e, a))
        ]
      ]

  -- As many steps as there are slots come to every slot.
  pub Visits-all : (i p : ℕ) → i < cap → p < cap → Visits mask p cap i
  Visits-all i p hi hp = elim (Bool-cases (i == p)) [
    | inl same ↦ Visits-ahead 0 cap i p hi hp (inl (ground (arith, same))) (omega (arith, hi))
    | inr other ↦ elim (ahead other) [
      | inl below ↦
          Visits-ahead (p - i) cap i p hi hp (inl (omega (arith, below))) (omega (arith, hp, below))
      | inr above ↦
          Visits-ahead (p + cap - i) cap i p hi hp (inr (omega (arith, above, hi)))
            (omega (arith, above, hi))
    ]
  ]
    where
      ahead : (i == p) ≡ false → (i < p) ⊎ (p < i)
      ahead h = elim (Bool-cases (ltb i p)) [
        | inl lt ↦ inl (ltb→lt i p lt)
        | inr ge ↦ inr (ground (arith, h, ge))
      ]

pub lost-ne : (q : ℕ) → lost ≢ found q
lost-ne q e = cc (e)

pub absent-ne : (i q : ℕ) → absent i ≢ found q
absent-ne i q e = cc (e)

-- What a walk for `cnx` sees in a slot with the key `c`.
pub data Sees (cnx c : ℕ) : Type 0 where
  mine : c ≡ cnx → Sees cnx c
  empty : c ≢ cnx → c ≡ 0 → Sees cnx c
  taken : c ≢ cnx → c ≢ 0 → Sees cnx c

pub sees : (cnx c : ℕ) → Sees cnx c
sees cnx c = elim (ℕ_discrete c cnx) [
  | yes e ↦ Sees.mine e
  | no other ↦ elim (ℕ_discrete c 0) [
    | yes e ↦ Sees.empty other e
    | no full ↦ Sees.taken other full
  ]
]

-- The steps of a walk.
module _ (slots : List Slot) (mask cnx n i : ℕ) where
  pub walk_mine : key slots i ≡ cnx → walk slots mask cnx (suc n) i ≡ found i
  unfolding walk
  walk_mine e = let test : (key slots i == cnx) ≡ true = ground (arith, e) in rw test

  pub walk_empty : key slots i ≢ cnx → key slots i ≡ 0 → walk slots mask cnx (suc n) i ≡ absent i
  unfolding walk
  walk_empty other e =
      let test : (key slots i == 0) ≡ true = ground (arith, e) in rw (ne-== _ _ other, test)

  pub walk_taken :
      key slots i ≢ cnx
      → key slots i ≢ 0
      → walk slots mask cnx (suc n) i ≡ walk slots mask cnx n (next mask i)
  unfolding walk
  walk_taken other full = rw (ne-== _ _ other, ne-== _ _ full)

-- Where a walk stops: at the connection, or at an empty slot.
pub data Ends (slots : List Slot) (cap cnx : ℕ) : Walk → Type 0 where
  hit : (q : ℕ) → q < cap → key slots q ≡ cnx → Ends slots cap cnx (found q)
  miss : (q : ℕ) → q < cap → key slots q ≡ 0 → Ends slots cap cnx (absent q)

-- A walk that comes to an empty slot stops there or before.
pub walk-Ends :
    {cap mask : ℕ} (w : IsPow2 cap) (m : mask ≡ cap - 1) (slots : List Slot) (cnx p n i : ℕ)
    → i < cap
    → key slots p ≡ 0
    → Visits mask p n i
    → Ends slots cap cnx (walk slots mask cnx n i)
walk-Ends w m slots cnx p zero i h hole v = elim v [ ]
walk-Ends {cap} {mask} w m slots cnx p (suc n) i h hole (Visits.here _ _ e) =
    elim (sees cnx (key slots i)) [
      | mine x ↦ rw (walk_mine slots mask cnx n i x) (Ends.hit i h x)
      | empty other x ↦ rw (walk_empty slots mask cnx n i other x) (Ends.miss i h x)
      | taken other full ↦ absurd (full (ap (key slots) e ∙ hole))
    ]
walk-Ends {cap} {mask} w m slots cnx p (suc n) i h hole (Visits.later _ _ v) =
    let rest = walk-Ends w m slots cnx p n (next mask i) (next-lt w m i h) hole v in
    elim (sees cnx (key slots i)) [
      | mine x ↦ rw (walk_mine slots mask cnx n i x) (Ends.hit i h x)
      | empty other x ↦ rw (walk_empty slots mask cnx n i other x) (Ends.miss i h x)
      | taken other full ↦ rw (walk_taken slots mask cnx n i other full) rest
    ]

module _ (slots : List Slot) (j : ℕ) (s : Slot) (inside : j < length slots) where
  pub key-set_self : key (set slots j s) j ≡ s.cnx
  key-set_self = ap (λ x. x.cnx) (get_or-set_self slots j s no_slot inside)

  pub key-set_ne : (i : ℕ) → j ≢ i → key (set slots j s) i ≡ key slots i
  key-set_ne i h = ap (λ x. x.cnx) (get_or-set_ne slots j i s no_slot h)

-- Writing the slot `j` for another connection.
module _ (slots : List Slot) (mask cnx j : ℕ) (s : Slot) (inside : j < length slots)
    (s_other : s.cnx ≢ cnx) (s_full : s.cnx ≢ 0) (other : key slots j ≢ cnx) where
  now : (i : ℕ) → j ≡ i → key (set slots j s) i ≡ s.cnx
  now i same = ap (key (set slots j s)) (sym same) ∙ key-set_self slots j s inside

  -- Over a slot that is not empty this changes no walk.
  pub walk-set_full :
      key slots j ≢ 0 → (n i : ℕ) → walk (set slots j s) mask cnx n i ≡ walk slots mask cnx n i
  unfolding walk
  walk-set_full full zero i = refl
  walk-set_full full (suc n) i = elim (ℕ_discrete j i) [
    | no apart ↦ rw (key-set_ne slots j s inside i apart, walk-set_full full n (next mask i))
    | yes same ↦
        rw
          (
            now i same,
            ne-== s.cnx cnx s_other,
            ne-== s.cnx 0 s_full,
            ne-== (key slots i) cnx (subst (λ x. key slots x ≢ cnx) same other),
            ne-== (key slots i) 0 (subst (λ x. key slots x ≢ 0) same full),
          )
          (walk-set_full full n (next mask i))
  ]

  -- A walk that finds its connection finds it there still.
  pub walk-set_found :
      (n i q : ℕ) → walk slots mask cnx n i ≡ found q → walk (set slots j s) mask cnx n i ≡ found q
  walk-set_found zero i q e = absurd (lost-ne q (unfold walk in e))
  walk-set_found (suc n) i q e =
      let rest = walk-set_found n (next mask i) q in
      elim (sees cnx (key slots i)) [
        | empty no_one x ↦ absurd (absent-ne i q (sym (walk_empty slots mask cnx n i no_one x) ∙ e))
        | mine x ↦
            walk_mine (set slots j s) mask cnx n i
              (key-set_ne slots j s inside i (λ same. other (ap (key slots) same ∙ x)) ∙ x)
            ∙ sym (walk_mine slots mask cnx n i x)
            ∙ e
        | taken no_one full ↦
            let more = rest (sym (walk_taken slots mask cnx n i no_one full) ∙ e) in
            elim (ℕ_discrete j i) [
              | yes same ↦
                  walk_taken (set slots j s) mask cnx n i
                    (subst (λ c. c ≢ cnx) (sym (now i same)) s_other)
                    (subst (λ c. c ≢ 0) (sym (now i same)) s_full)
                  ∙ more
              | no apart ↦
                  let same_key = key-set_ne slots j s inside i apart in
                  walk_taken (set slots j s) mask cnx n i
                    (subst (λ c. c ≢ cnx) (sym same_key) no_one)
                    (subst (λ c. c ≢ 0) (sym same_key) full)
                  ∙ more
            ]
      ]
