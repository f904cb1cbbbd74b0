-- ===== src/Bridge/Datagrams/Records.antt =====
-- The datagrams that the stack gets: each record whole, once and in order, or kept for another packet.
use aiopquic.Base.{
  ℕ, ◌+◌, ◌^◌, ◌<◌, ◌≡◌, refl, sym, ap, ◌∙◌, arith, Bool, true, false, not, ◌||◌, none, some, List,
  [], ◌∷◌, length, u32, u64, ltb, leb, ◌==◌, if◌then◌else◌,
}
use aiopquic.Base.Pow2.{IsPow2-bounds}
use aiopquic.DgramBuf.{DgramBuf, rec_hdr, pop_into, used, drain_take}
use aiopquic.DgramBuf.Valid.{IsValid, Holds, encode, length-contents, length-encode_cons}
use aiopquic.DgramBuf.Pop.{peek_held, pop_held}
use aiopquic.Bridge.Datagrams.{
  Served, fire_dgram_drain, send_record, nothing, prepare_datagram, provide_datagram,
}

abbrev pub is_empty : List (List ℕ) → Bool
is_empty [] = true
is_empty (r ∷ rs) = false

drain_lem :
    (queued : Bool) (db : DgramBuf) (rs : List (List ℕ))
    → Holds db rs
    → IsValid db
    → let (fired, db') = fire_dgram_drain queued db in
      ((fired || db'.drain_pending) ≡ db.drain_pending) × Holds db' rs × IsValid db'
unfolding fire_dgram_drain drain_take
drain_lem queued db rs held v = by_flag db.drain_pending queued refl
  where
    again : (b : Bool) → IsValid (record db { drain_pending = b })
    again b = record {
      pow2 = v.pow2;
      masked = v.masked;
      storage = v.storage;
      order = v.order;
      room = v.room;
      word = v.word;
      fits = v.fits;
    }

    outcome : Bool → Bool → Bool × DgramBuf
    outcome armed q =
        let down = record db { drain_pending = false } in
        if not armed
        then (false, down)
        else if q
        then (true, down)
        else (false, record down { drain_pending = true })

    by_flag :
        (armed q : Bool)
        → db.drain_pending ≡ armed
        → let (fired, db') = outcome armed q in
          ((fired || db'.drain_pending) ≡ db.drain_pending) × Holds db' rs × IsValid db'
    by_flag false q e = (sym e, held, again false)
    by_flag true true e = (sym e, held, again false)
    by_flag true false e = (sym e, held, again true)

more_left : (rs : List (List ℕ)) → ltb 0 (length (encode rs)) ≡ not (is_empty rs)
more_left [] = refl
more_left (r ∷ rs) = ground (arith, length-encode_cons r rs)

used-held :
    {db : DgramBuf} (r : List ℕ) (rs : List (List ℕ))
    → IsValid db
    → Holds db (r ∷ rs)
    → (used db ≡ 4 + length r + length (encode rs)) × (4 + length r < 2 ^ 32)
unfolding used
used-held {db} r rs v held =
    let e = length-contents db in
    let f = ap length held in
    let g = length-encode_cons r rs in
    (
      omega (arith, e, f, g, v.order, v.room, v.word, IsPow2-bounds v.pow2),
      omega (arith, e, f, g, v.order, v.room, v.word, IsPow2-bounds v.pow2),
    )

-- What a request comes to, for a first record `r` that fits the packet or not.
abbrev pub IsServed : DgramBuf → List ℕ → List (List ℕ) → Bool → Served → Type 0
IsServed db r rs fits p =
    (p.datagram ≡ (if fits then some r else none))
    × (p.size ≡ (if fits then length r else 0))
    × (p.is_active ≡ (not fits || not (is_empty rs)))
    × Holds p.ring (if fits then rs else r ∷ rs)
    × ((p.fired || p.ring.drain_pending) ≡ db.drain_pending)
    × IsValid p.ring

abbrev deferred : DgramBuf → DgramBuf
deferred db = record db { head_deferred = u64 (db.head_deferred + 1) }

deferred-IsValid : {db : DgramBuf} → IsValid db → IsValid (deferred db)
deferred-IsValid v = record {
  pow2 = v.pow2;
  masked = v.masked;
  storage = v.storage;
  order = v.order;
  room = v.room;
  word = v.word;
  fits = v.fits;
}

module _ (queued : Bool) {db : DgramBuf} (r : List ℕ) (rs : List (List ℕ)) (v : IsValid db)
    (held : Holds db (r ∷ rs)) where
  answered :
      (fits : Bool)
      → IsServed db r rs fits
          (if fits then send_record true queued (length r) db else nothing true (deferred db))
  unfolding send_record
  answered false = (refl, refl, refl, held, refl, deferred-IsValid v)
  answered true =
      let (out, others, valid) = pop_held v r rs held in
      let (signal, rest, valid') = drain_lem queued (pop_into db (length r)).1 rs others valid in
      let (size, small) = used-held r rs v held in
      let more : ltb (u32 (rec_hdr + length r)) (used db) ≡ ltb 0 (length (encode rs)) =
        ground (arith, size, small) in
      (ap some out, refl, more ∙ more_left rs, rest, signal ∙ kept, valid')
    where
      kept : (pop_into db (length r)).1.drain_pending ≡ db.drain_pending
      kept = unfold pop_into in refl

  prepare_datagram-eq :
      (space : ℕ)
      → 0 < length r
      → prepare_datagram true queued space db ≡ (
          if leb (length r) (u32 space)
          then send_record true queued (length r) db
          else nothing true (deferred db))
  unfolding prepare_datagram
  prepare_datagram-eq space full =
      let some_bytes : (length r == 0) ≡ false = ground (arith, full) in
      rw (peek_held v r rs held, some_bytes) refl

  provide_datagram-eq :
      (space : ℕ)
      → 0 < length r
      → provide_datagram true queued space db ≡ (
          if ltb (u32 space) (length r)
          then nothing true (deferred db)
          else send_record true queued (length r) db)
  unfolding provide_datagram
  provide_datagram-eq space full =
      let some_bytes : (length r == 0) ≡ false = ground (arith, full) in
      rw (peek_held v r rs held, some_bytes) refl

-- On a valid ring whose first record is `r`, not empty, where the stack gives a buffer: if it fits the packet,
-- the stack gets just `r` and the other records stay, and it asks again exactly if there are any; else it
-- gets nothing, every record stays, and it asks again. The size that it is told is that of what it gets,
-- the ring stays valid, and an armed drain signal fires or stays armed. The two callbacks do the same.
pub prepare_datagram_lem :
    (queued : Bool) (space : ℕ) {db : DgramBuf} (r : List ℕ) (rs : List (List ℕ))
    → IsValid db
    → Holds db (r ∷ rs)
    → 0 < length r
    → IsServed db r rs (leb (length r) (u32 space)) (prepare_datagram true queued space db)
      × (provide_datagram true queued space db ≡ prepare_datagram true queued space db)
prepare_datagram_lem queued space {db} r rs v held full =
    let e = prepare_datagram-eq queued r rs v held space full in
    (
      rw e (answered queued r rs v held (leb (length r) (u32 space))),
      provide_datagram-eq queued r rs v held space full
          ∙ flipped (leb (length r) (u32 space)) (ltb (u32 space) (length r)) (ground arith)
          ∙ sym e,
    )
  where
    flipped :
        (b c : Bool)
        → c ≡ not b
        → (if c then nothing true (deferred db) else send_record true queued (length r) db)
          ≡ (if b then send_record true queued (length r) db else nothing true (deferred db))
    flipped true c e = rw e refl
    flipped false c e = rw e refl
