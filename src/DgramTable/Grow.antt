-- ===== src/DgramTable/Grow.antt =====
-- `aiopquic_dgram_table_grow`: a table of twice the size with the same live entries, no tombstones.
use aiopquic.Base.{
  ℕ, zero, suc, ◌+◌, ◌-◌, ◌*◌, ◌^◌, ◌≤◌, ◌<◌, ◌≡◌, refl, ap, sym, ◌∙◌, arith, true, inl, inr, none,
  some, List, [], ◌∷◌, length, ◌==◌, if◌then◌else◌, u32, sub32, replicate, ℕ_discrete,
  length-replicate,
}
use native.Mathlib.Numerals.{unary_clauses}
use aiopquic.Base.Pow2.{IsPow2, IsPow2-bounds}
use aiopquic.DgramTable.{Slot, no_slot, Table, no_table, key, rehash, grow, done, get}
use aiopquic.DgramTable.Valid.{
  IsValid, Has, tally, if_used, if_live, occupied, living, living-le-occupied, get_ends, get_same,
}
use aiopquic.DgramTable.Laws.{same_place}
use aiopquic.DgramTable.Rehash.{Apart, Rehashed, rehash_lem}

key-replicate : (n q : ℕ) → key (replicate n no_slot) q ≡ 0
key-replicate zero q = refl
key-replicate (suc n) zero = refl
key-replicate (suc n) (suc q) = key-replicate n q

tally-replicate : (f : ℕ → ℕ) (n : ℕ) → f 0 ≡ 0 → tally f (replicate n no_slot) ≡ 0
tally-replicate f zero h = refl
tally-replicate f (suc n) h = omega (arith, h, tally-replicate f n h)

IsPow2-double : {n : ℕ} → IsPow2 n → n ≤ 2 ^ 28 → IsPow2 (2 * n)
IsPow2-double {n} (k, h, e) small = elim (ℕ_discrete k 31) [
  | yes last ↦ absurd (omega (arith, small, e ∙ ap (λ x. 2 ^ x) last))
  | no before ↦ (suc k, omega (arith, h, before), double)
]
  where
    double : 2 * n ≡ 2 ^ suc k
    double = simp unary_clauses (omega (arith, e))

-- Slots whose live connections are all apart.
Apart-all :
    (slots : List Slot)
    → ((p q : ℕ)
        → p < length slots
        → q < length slots
        → 1 < key slots p
        → key slots p ≡ key slots q
        → p ≡ q)
    → Apart slots
Apart-all [] same = tt
Apart-all (s ∷ slots) same = (
  λ l q h e. absurd (omega (arith, same 0 (suc q) (omega arith) (omega (arith, h)) l (sym e))),
  Apart-all slots (λ p q h h' l e.
      omega (arith, same (suc p) (suc q) (omega (arith, h)) (omega (arith, h')) l e)),
)

-- What the loop of grow returns when it starts from empty slots.
module _ {cap mask : ℕ} (w : IsPow2 cap) (m : mask ≡ cap - 1) (slots : List Slot)
    (apart : Apart slots) (room : living slots < cap) where
  rehash_all :
      (ns : List Slot) × (rehash cap mask slots (replicate cap no_slot) ≡ some ns)
      × Rehashed w m ns
      × (occupied ns ≡ living slots)
      × ((k d : ℕ) → 1 < k → Has slots k d → Has ns k d)
      × ((k d : ℕ) → 1 < k → Has ns k d → Has slots k d)
  rehash_all =
      let (ns, e, (r, count, to, from)) =
        rehash_lem w m slots (replicate cap no_slot)
          (record {
            storage = length-replicate cap no_slot;
            reaches = λ q h l. absurd (omega (arith, l, key-replicate cap q));
            no_tombs = tally-replicate if_used cap refl ∙ sym (tally-replicate if_live cap refl);
          })
          apart (λ q h l p h' e. absurd (omega (arith, l, e, key-replicate cap p)))
          (omega (arith, room, tally-replicate if_used cap refl)) in
      (
        ns,
        e,
        r,
        omega (arith, count, tally-replicate if_used cap refl),
        λ k d l h. to k d l (inr h),
        λ k d l h. elim (from k d l h) [
          | inl (q, below, e) ↦ absurd (omega (arith, l, ap (λ s. s.cnx) e, key-replicate cap q))
          | inr x ↦ x
        ],
      )

-- A table before its first entry, or one whose size can be doubled twice.
pub data Usable (t : Table) : Type 0 where
  no_entry : t ≡ no_table → Usable t
  in_use : IsValid t → t.cap ≤ 2 ^ 28 → Usable t

abbrev pub grown_cap : Table → ℕ
grown_cap t = if t.cap == 0 then 64 else u32 (t.cap * 2)

slots-Apart : {t : Table} → IsValid t → Apart t.slots
slots-Apart {t} v =
    Apart-all t.slots
      (λ p q h h' l e. same_place v p h l q (omega (arith, h', v.storage)) (omega (arith, l, e)) e)

pub grown_size : {t : Table} → Usable t → IsPow2 (grown_cap t) × (t.live + 1 < grown_cap t)
grown_size (Usable.no_entry e) = rw e ((6, omega arith, refl), omega arith)
grown_size {t} (Usable.in_use v small) =
    let size : grown_cap t ≡ 2 * t.cap = ground (arith, small, (IsPow2-bounds v.pow2).0) in
    rw size (
      IsPow2-double v.pow2 small,
      omega (arith, v.live_count, living-le-occupied t.slots, v.used_count, v.roomy),
    )

-- The live entries, which lie in slots apart.
usable : {t : Table} → Usable t → Apart t.slots × (t.live ≡ living t.slots)
usable (Usable.no_entry e) = rw e (tt, refl)
usable (Usable.in_use v small) = (slots-Apart v, v.live_count)

-- A table that holds the same entries gives the same rings.
usable_same :
    {t u : Table}
    → Usable t
    → IsValid u
    → ((k d : ℕ) → 1 < k → Has t.slots k d → Has u.slots k d)
    → ((k d : ℕ) → 1 < k → Has u.slots k d → Has t.slots k d)
    → (k : ℕ) → 1 < k
    → get u k ≡ get t k
usable_same (Usable.in_use v small) w to from k l =
    get_same v w k l (λ d. to k d l) (λ d. from k d l)
usable_same {t} {u} (Usable.no_entry e) w to from k l = elim (get_ends w k) [
  | inl none_u ↦ none_u ∙ sym (ap (λ x. get x k) e ∙ no_ring)
  | inr (d, g, held) ↦
      let (q, below, x) = from k d l held in
      absurd (omega (arith, below, ap (λ x. length x.slots) e))
]
  where
    no_ring : get no_table k ≡ done none
    no_ring = unfold get in refl

pub grow_lem :
    {t : Table}
    → Usable t
    → (t' : Table) × (grow true t ≡ done t')
      × IsValid t'
      × (t'.cap ≡ grown_cap t)
      × (t'.live ≡ t.live)
      × (t'.used ≡ t.live)
      × ((k : ℕ) → 1 < k → get t' k ≡ get t k)
grow_lem {t} ok =
    let (w, room) = grown_size ok in
    let (apart, count) = usable ok in
    let m : sub32 (grown_cap t) 1 ≡ grown_cap t - 1 = omega (arith, IsPow2-bounds w) in
    let (ns, e, r, used, to, from) = rehash_all w m t.slots apart (omega (arith, room, count)) in
    let t' : Table = record {
      slots = ns;
      cap = grown_cap t;
      mask = sub32 (grown_cap t) 1;
      live = t.live;
      used = t.live;
    } in
    let v : IsValid t' = record {
      pow2 = w;
      masked = m;
      storage = r.storage;
      reaches = r.reaches;
      used_count = count ∙ sym used;
      live_count = count ∙ sym used ∙ r.no_tombs;
      roomy = omega (arith, room);
    } in
    (t', grows ns e, v, refl, refl, refl, usable_same ok v to from)
  where
    grows :
        (ns : List Slot)
        → rehash (grown_cap t) (sub32 (grown_cap t) 1) t.slots (replicate (grown_cap t) no_slot)
          ≡ some ns
        → grow true t
          ≡ done (record {
            slots = ns;
            cap = grown_cap t;
            mask = sub32 (grown_cap t) 1;
            live = t.live;
            used = t.live;
          })
    grows ns e = unfold grow in rw e refl
