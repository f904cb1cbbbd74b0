-- ===== src/DgramTable/Put.antt =====
-- `aiopquic_dgram_table_put`: it ends, and registers a connection once.
use aiopquic.Base.{
  ℕ, ◌+◌, ◌≤◌, ◌<◌, ◌≡◌, ◌≢◌, refl, ap, sym, ◌∙◌, arith, true, false, Bool-cases, ◌⊎◌, inl, inr,
  none, some, length, ltb, get_or, set, u32,
}
use aiopquic.Base.Pow2.{IsPow2-bounds}
use aiopquic.DgramBuf.{DgramBuf, addref}
use aiopquic.DgramTable.{
  Slot, no_slot, Table, Rings, put_at, addref_at, home, key, Walk, found, absent, walk, Place,
  Result, done, no_memory, is_crowded, make_room, grow, enter, enter_in, entered, with_ring, put,
  get, ring_at,
}
use aiopquic.DgramTable.Probe.{Ends}
use aiopquic.DgramTable.Placing.{Placed, scan-Placed, walk-set_fresh}
use aiopquic.DgramTable.Valid.{IsValid, tally-set, if_used, living-le-occupied, get-eq, ends}
use aiopquic.DgramTable.Laws.{entered-IsValid, entered-get, entered-others}
use aiopquic.DgramTable.Rehash.{beyond, used_one}
use aiopquic.DgramTable.Grow.{Usable, grown_size, grow_lem}

true-ne_false : true ≢ false
true-ne_false e = cc (e)

-- The same entries, and room for one more.
record Roomy (t t' : Table) : Type 0 where
  valid : IsValid t'
  room : t'.used + 1 < t'.cap
  live : t'.live ≡ t.live
  same : (k : ℕ) → 1 < k → get t' k ≡ get t k

enough_room : {t : Table} → Usable t → is_crowded t ≡ false → Roomy t t
unfolding is_crowded
enough_room {t} (Usable.no_entry e) enough = absurd (true-ne_false (sym (ap is_crowded e) ∙ enough))
enough_room {t} (Usable.in_use v small) enough = record {
  valid = v;
  room = ground (arith, enough, small, v.roomy);
  live = refl;
  same = λ k l. refl;
}

room_made : {t : Table} → Usable t → (t' : Table) × (make_room true t ≡ done t') × Roomy t t'
unfolding make_room
room_made {t} ok = elim (Bool-cases (is_crowded t)) [
  | inl crowded ↦
      let (t', e, v, size, live, used, same) = grow_lem ok in
      (
        t',
        rw crowded e,
        record {
          valid = v;
          room = omega (arith, (grown_size ok).1, size, used);
          live = live;
          same = same;
        },
      )
  | inr enough ↦ (t, rw enough refl, enough_room ok enough)
]

-- What put leaves: the ring that was registered before, or the new ring with one more reference.
pub data Registered (t : Table) (w : Rings) (cnx db : ℕ) (t' : Table) (w' : Rings) : Type 0 where
  kept :
      (before : ℕ)
      → get t cnx ≡ done (some before)
      → get t' cnx ≡ done (some before)
      → t'.live ≡ t.live
      → w' ≡ w
      → Registered t w cnx db t' w'
  added :
      get t cnx ≡ done none
      → get t' cnx ≡ done (some db)
      → t'.live ≡ t.live + 1
      → addref_at w db ≡ some w'
      → Registered t w cnx db t' w'

abbrev Entered : Table → Rings → ℕ → ℕ → Result (Table × Rings) → Type 0
Entered t w cnx db r =
    (t' : Table) × (w' : Rings) × (r ≡ done (t', w'))
    × IsValid t'
    × Registered t w cnx db t' w'
    × ((k : ℕ) → 1 < k → k ≢ cnx → get t' k ≡ get t k)

module _ {t : Table} (v : IsValid t) (room : t.used + 1 < t.cap) (w : Rings) (cnx db : ℕ)
    (ring : DgramBuf) (live : 1 < cnx) (there : w.at db ≡ some ring) where
  abbrev s : Slot
  s = record { cnx = cnx; db = db }

  abbrev w₁ : Rings
  w₁ = put_at w db (some (addref ring)) w.alive

  referenced : addref_at w db ≡ some w₁
  unfolding addref_at
  referenced = rw (there, addref_at) refl

  -- The connection written into a slot that held none.
  written :
      (i p used : ℕ)
      → i < length t.slots
      → key t.slots i ≤ 1
      → walk t.slots t.mask cnx t.cap (home t.mask cnx) ≡ absent p
      → walk (set t.slots i s) t.mask cnx t.cap (home t.mask cnx) ≡ found i
      → used + if_used (key t.slots i) ≡ t.used + 1
      → used < t.cap
      → Entered t w cnx db (with_ring (entered t cnx db i used) (addref_at w db))
  written i p used inside free missing finds count small =
      let v' =
        entered-IsValid v cnx db i used live inside free p missing finds
          (omega (arith, tally-set if_used t.slots i s inside, used_one live, count, v.used_count))
          small in
      (
        entered t cnx db i used,
        w₁,
        ap (with_ring (entered t cnx db i used)) referenced,
        v',
        Registered.added (get-eq v cnx ∙ ap (ring_at t.slots) missing)
            (entered-get v cnx db i used live inside free v')
            (omega (
              arith,
              v.live_count,
              living-le-occupied t.slots,
              v.used_count,
              v.roomy,
              IsPow2-bounds v.pow2,
            ))
            referenced,
        entered-others v cnx db i used live inside free v',
      )

  -- By the walk of put.
  entered_by :
      {p : Place} {x : Walk}
      → Placed t.slots t.mask cnx t.cap (home t.mask cnx) p x
      → Ends t.slots t.cap cnx x
      → walk t.slots t.mask cnx t.cap (home t.mask cnx) ≡ x
      → Entered t w cnx db (enter t w cnx db p)
  entered_by (Placed.old q) end walks =
      let here : get t cnx ≡ done (some (get_or t.slots q no_slot).db) =
        get-eq v cnx ∙ ap (ring_at t.slots) walks in
      (t, w, refl, v, Registered.kept _ here here refl refl, λ k l other. refl)
  entered_by (Placed.new q) (Ends.miss _ h e) walks =
      let inside : q < length t.slots = omega (arith, h, v.storage) in
      let one : u32 (t.used + 1) ≡ t.used + 1 = omega (arith, room, IsPow2-bounds v.pow2) in
      written q q (u32 (t.used + 1)) inside (omega (arith, e)) walks
        (walk-set_fresh t.slots t.mask cnx q s t.cap (home t.mask cnx) inside refl e walks)
        (omega (arith, one, ap if_used e)) (omega (arith, one, room))
  entered_by (Placed.over i q tomb finds) (Ends.miss _ h e) walks =
      elim (Bool-cases (ltb i (length t.slots))) [
        | inl below ↦
            let inside : i < length t.slots = ground (arith, below) in
            written i q t.used inside (omega (arith, tomb)) walks (finds s refl inside)
              (omega (arith, ap if_used tomb)) (omega (arith, room))
        | inr above ↦ absurd (omega (arith, tomb, beyond t.slots i (ground (arith, above))))
      ]
  entered_by Placed.stuck end walks = elim end [ ]

  put_in : Entered t w cnx db (enter_in (done t) w cnx db)
  put_in = entered_by (scan-Placed t.slots t.mask cnx t.cap (home t.mask cnx)) (ends v cnx) refl

-- For a connection, with a table before its first entry or one of at most 2^28 slots, where the new
-- slots are allocated and the ring is there: put returns; the table left is valid; if the connection
-- had a ring it keeps that one and no reference is taken, else it gets the new ring, one entry more
-- and one reference more on it; every other connection keeps what it had.
pub put_lem :
    (t : Table) (w : Rings) (cnx db : ℕ) (ring : DgramBuf)
    → Usable t
    → 1 < cnx
    → w.at db ≡ some ring
    → (t' : Table) × (w' : Rings) × (put true t w cnx db ≡ done (t', w'))
      × IsValid t'
      × Registered t w cnx db t' w'
      × ((k : ℕ) → 1 < k → k ≢ cnx → get t' k ≡ get t k)
unfolding put
put_lem t w cnx db ring ok live there =
    let (u, made, r) = room_made ok in
    let (t', w', e, v, reg, others) = put_in r.valid r.room w cnx db ring live there in
    (t', w', rw made e, v, before r reg, λ k l other. others k l other ∙ r.same k l)
  where
    before :
        {u t' : Table} {w' : Rings}
        → Roomy t u
        → Registered u w cnx db t' w'
        → Registered t w cnx db t' w'
    before r (Registered.kept d g g' n x) =
        Registered.kept d (sym (r.same cnx live) ∙ g) g' (n ∙ r.live) x
    before r (Registered.added g g' n x) =
        Registered.added (sym (r.same cnx live) ∙ g) g' (omega (arith, n, r.live)) x

-- When the new slots cannot be allocated, put either reports it or does what it does when they can.
pub put-no_memory :
    (t : Table) (w : Rings) (cnx db : ℕ)
    → (put false t w cnx db ≡ no_memory) ⊎ (put false t w cnx db ≡ put true t w cnx db)
unfolding put make_room grow
put-no_memory t w cnx db = elim (Bool-cases (is_crowded t)) [
  | inl crowded ↦ inl (rw crowded refl)
  | inr enough ↦ inr (rw enough refl)
]
