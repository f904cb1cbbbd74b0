-- ===== src/DgramTable/Valid.antt =====
-- The invariant of the table, what a slot list holds, and lookups as membership.
use aiopquic.Base.{
  ℕ, zero, suc, ◌+◌, ◌-◌, ◌≤◌, ◌<◌, ◌≡◌, ap, sym, subst, ◌∙◌, arith, false, ◌⊎◌, inl, inr, none,
  some, List, [], ◌∷◌, ◌==◌, ltb, if◌then◌else◌, length, get_or, set, bit_and, ℕ_discrete,
}
use aiopquic.Base.Pow2.{IsPow2, IsPow2-bounds, mask-eq-mod}
use native.Mathlib.Nat.{mod-lt}
use aiopquic.DgramTable.{
  Slot, no_slot, Table, hash_ptr, home, key, Walk, found, walk, done, ring_at, get,
}
use aiopquic.DgramTable.Probe.{Visits-all, Ends, walk-Ends}

-- The sum of a number over the keys.
abbrev pub tally : (ℕ → ℕ) → List Slot → ℕ
tally f [] = 0
tally f (s ∷ slots) = f s.cnx + tally f slots

abbrev pub if_used : ℕ → ℕ
if_used c = if c == 0 then 0 else 1

abbrev pub if_live : ℕ → ℕ
if_live c = if ltb 1 c then 1 else 0

abbrev pub occupied : List Slot → ℕ
occupied slots = tally if_used slots

abbrev pub living : List Slot → ℕ
living slots = tally if_live slots

-- Every live connection is found by the walk for it.
abbrev pub Reaches : List Slot → ℕ → ℕ → Type 0
Reaches slots cap mask =
    (q : ℕ)
    → q < cap
    → 1 < key slots q
    → walk slots mask (key slots q) cap (home mask (key slots q)) ≡ found q

pub record IsValid (t : Table) : Type 0 where
  pub pow2 : IsPow2 t.cap
  pub masked : t.mask ≡ t.cap - 1
  pub storage : length t.slots ≡ t.cap
  pub reaches : Reaches t.slots t.cap t.mask
  pub used_count : t.used ≡ occupied t.slots
  pub live_count : t.live ≡ living t.slots
  pub roomy : t.used < t.cap

-- The slots hold an entry.
abbrev pub Has : List Slot → ℕ → ℕ → Type 0
Has slots cnx db =
    (q : ℕ) × (q < length slots) × (get_or slots q no_slot ≡ record { cnx = cnx; db = db })

pub home-lt : {cap mask : ℕ} (cnx : ℕ) → IsPow2 cap → mask ≡ cap - 1 → home mask cnx < cap
unfolding home
home-lt {cap} cnx w m = omega (
  arith,
  ap (λ n. bit_and (hash_ptr cnx) n) m ∙ mask-eq-mod (hash_ptr cnx) w,
  mod-lt (hash_ptr cnx) {m = cap} (IsPow2-bounds w).0,
)

-- Where fewer slots are in use than there are, one is empty.
pub hole :
    (slots : List Slot)
    → occupied slots < length slots
    → (p : ℕ) × (p < length slots) × (key slots p ≡ 0)
hole [] h = absurd (omega arith)
hole (s ∷ slots) h = elim (ℕ_discrete s.cnx 0) [
  | yes empty ↦ (0, omega arith, empty)
  | no full ↦
      let one : if_used s.cnx ≡ 1 = ground (arith, full) in
      let (p, below, e) = hole slots (omega (arith, h, one)) in (suc p, omega (arith, below), e)
]

pub tally-set :
    (f : ℕ → ℕ) (slots : List Slot) (j : ℕ) (s : Slot)
    → j < length slots
    → tally f (set slots j s) + f (key slots j) ≡ tally f slots + f s.cnx
tally-set f [] j s h = absurd (omega arith)
tally-set f (x ∷ slots) zero s h = omega arith
tally-set f (x ∷ slots) (suc j) s h = omega (arith, tally-set f slots j s (omega arith))

pub living-le-occupied : (slots : List Slot) → living slots ≤ occupied slots
living-le-occupied [] = omega arith
living-le-occupied (s ∷ slots) =
    let one : if_live s.cnx ≤ if_used s.cnx = ground arith in
    omega (arith, one, living-le-occupied slots)

module _ {t : Table} (v : IsValid t) where
  pub ends : (cnx : ℕ) → Ends t.slots t.cap cnx (walk t.slots t.mask cnx t.cap (home t.mask cnx))
  ends cnx =
      let (p, below, empty) = hole t.slots (omega (arith, v.used_count, v.roomy, v.storage)) in
      let h = home-lt cnx v.pow2 v.masked in
      walk-Ends v.pow2 v.masked t.slots cnx p t.cap (home t.mask cnx) h empty
        (Visits-all v.pow2 v.masked (home t.mask cnx) p h (omega (arith, below, v.storage)))

  pub get-eq :
      (cnx : ℕ) → get t cnx ≡ ring_at t.slots (walk t.slots t.mask cnx t.cap (home t.mask cnx))
  unfolding get
  get-eq cnx =
      let some_slots : (t.cap == 0) ≡ false = ground (arith, (IsPow2-bounds v.pow2).0) in
      rw some_slots

  -- A live entry is what get returns.
  pub get-Has : {cnx db : ℕ} → 1 < cnx → Has t.slots cnx db → get t cnx ≡ done (some db)
  get-Has {cnx} {db} live (q, below, e) =
      get-eq cnx ∙ ap (ring_at t.slots) walks ∙ ap (λ s. done (some s.db)) e
    where
      at_q : key t.slots q ≡ cnx
      at_q = ap (λ s. s.cnx) e

      walks : walk t.slots t.mask cnx t.cap (home t.mask cnx) ≡ found q
      walks =
          subst (λ k. walk t.slots t.mask k t.cap (home t.mask k) ≡ found q) at_q
            (v.reaches q (omega (arith, below, v.storage)) (omega (arith, live, at_q)))

  -- On a valid table get returns, for any connection: no ring, or that of an entry it has.
  pub get_ends :
      (cnx : ℕ)
      → (get t cnx ≡ done none) ⊎ ((db : ℕ) × (get t cnx ≡ done (some db)) × Has t.slots cnx db)
  get_ends cnx = by_end (ends cnx) (get-eq cnx)
    where
      by_end :
          {x : Walk}
          → Ends t.slots t.cap cnx x
          → get t cnx ≡ ring_at t.slots x
          → (get t cnx ≡ done none) ⊎ ((db : ℕ) × (get t cnx ≡ done (some db)) × Has t.slots cnx db)
      by_end (Ends.miss q h e) g = inl g
      by_end (Ends.hit q h e) g = inr (
        (get_or t.slots q no_slot).db,
        g,
        (
          q,
          omega (arith, h, v.storage),
          ap (λ c. record { cnx = c; db = (get_or t.slots q no_slot).db }) e,
        ),
      )

-- Two tables that hold the same entries of a connection give the same ring for it.
pub get_same :
    {t u : Table} (v : IsValid t) (w : IsValid u) (cnx : ℕ)
    → 1 < cnx
    → ((db : ℕ) → Has t.slots cnx db → Has u.slots cnx db)
    → ((db : ℕ) → Has u.slots cnx db → Has t.slots cnx db)
    → get u cnx ≡ get t cnx
get_same v w cnx live to from = elim (get_ends v cnx) [
  | inr (db, e, held) ↦ get-Has w live (to db held) ∙ sym e
  | inl none_t ↦ elim (get_ends w cnx) [
    | inl none_u ↦ none_u ∙ sym none_t
    | inr (db, e, held) ↦ e ∙ sym (get-Has v live (from db held))
  ]
]
