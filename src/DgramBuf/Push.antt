-- ===== src/DgramBuf/Push.antt =====
-- `aiopquic_dgram_buf_push_record`: whole records or nothing, with the outcome that the room decides.
use aiopquic.Base.{
  ℕ, ◌+◌, ◌-◌, ◌^◌, ◌≤◌, ◌<◌, ◌≡◌, refl, ap, ap₂, sym, ◌∙◌, arith, Bool, true, Bool-cases, inl, inr,
  List, [], ◌∷◌, ◌++◌, append-nil, length, length-append, u32, u64, sub32, sub64, ltb, le→ltb,
  if◌then◌else◌,
}
use aiopquic.Base.Pow2.{IsPow2-bounds}
use aiopquic.Base.Circular.{
  window, write_each, write_each-append, length-write_each, window-write_each,
}
use aiopquic.DgramBuf.{
  DgramBuf, header, ring_write, write_record, push_record_at, push_record, PushResult, accepted,
  full, oversize,
}
use aiopquic.DgramBuf.Header.{length-header}
use aiopquic.DgramBuf.Valid.{
  IsValid, contents, Holds, length-contents, encode-append, ring_write-eq,
}

-- A record that fits, behind those that are there.
module _ {db : DgramBuf} (v : IsValid db) (r : List ℕ)
    (fits : db.tail - db.head + (4 + length r) ≤ db.capacity)
    (word : db.tail + (4 + length r) < 2 ^ 64) where
  abbrev bytes : List ℕ
  bytes = header (length r) ++ r

  length-bytes : length bytes ≡ 4 + length r
  length-bytes = omega (arith, length-append (header (length r)) r, length-header (length r))

  -- The two writes of a record are one write of its bytes.
  abbrev headed : DgramBuf
  headed = record db { buf = write_each 0 db.capacity db.buf db.tail (header (length r)) }

  payload_behind :
      write_each 0 db.capacity headed.buf (u64 (db.tail + 4)) r
      ≡ write_each 0 db.capacity db.buf db.tail bytes
  payload_behind =
      ap (λ p. write_each 0 db.capacity headed.buf p r) (omega (arith, length-header (length r)))
      ∙ sym (write_each-append 0 db.capacity db.buf db.tail (header (length r)) r)

  abbrev written : DgramBuf
  written = record db {
    buf = write_each 0 db.capacity db.buf db.tail bytes;
    tail = db.tail + length bytes;
    records_pushed = u64 (db.records_pushed + 1);
  }

  new_tail : u64 (db.tail + 4 + length r) ≡ db.tail + length bytes
  new_tail = omega (arith, length-bytes)

  write_record-eq : write_record db r ≡ written
  unfolding write_record
  write_record-eq = rw (
    ring_write-eq db v.pow2 v.masked db.tail (header (length r))
        (omega (arith, length-header (length r))),
    ring_write-eq headed v.pow2 v.masked (u64 (db.tail + 4)) r (omega arith),
    payload_behind,
    new_tail,
  )

  written-IsValid : IsValid written
  written-IsValid = record {
    pow2 = v.pow2;
    masked = v.masked;
    storage = length-write_each 0 db.capacity db.buf db.tail bytes ∙ v.storage;
    order = omega (arith, v.order);
    room = omega (arith, v.order, length-bytes);
    word = omega (arith, length-bytes);
    fits = v.fits;
  }

  contents-written : contents written ≡ contents db ++ bytes
  contents-written =
      ap₂ (λ p k. window 0 db.capacity (write_each 0 db.capacity db.buf p bytes) db.head k)
        from_head (omega (arith, v.order))
      ∙ window-write_each 0 db.capacity db.buf db.head (db.tail - db.head) bytes
          (omega (arith, v.storage)) (omega (arith, v.order, length-bytes))
    where
      from_head : db.tail ≡ db.head + (db.tail - db.head)
      from_head = omega (arith, v.order)

  -- The record stands behind those that the ring held.
  pub write_record-Holds :
      (rs : List (List ℕ))
      → Holds db rs
      → Holds (write_record db r) (rs ++ (r ∷ [])) × IsValid (write_record db r)
  write_record-Holds rs held = rw write_record-eq (
    contents-written
        ∙ ap₂ ◌++◌ held (ap (λ l. header (length r) ++ l) (sym (append-nil r)))
        ∙ sym (encode-append rs (r ∷ [])),
    written-IsValid,
  )

-- What the room and the limit decide.
abbrev pub outcome : DgramBuf → ℕ → PushResult
outcome db len =
    if ltb db.max_record len
    then oversize
    else if ltb (db.capacity - (db.tail - db.head)) (4 + len)
    then full
    else accepted

abbrev pub then_records : PushResult → List (List ℕ) → List ℕ → List (List ℕ)
then_records accepted rs r = rs ++ (r ∷ [])
then_records full rs r = rs
then_records oversize rs r = rs

-- A refusal for room leaves the drain signal armed.
abbrev pub armed : PushResult → Bool → Bool
armed full before = true
armed accepted before = before
armed oversize before = before

room_eq :
    {db : DgramBuf}
    → IsValid db
    → sub32 db.capacity (u32 (sub64 db.tail db.head)) ≡ db.capacity - (db.tail - db.head)
room_eq v = omega (arith, v.order, v.room, v.word, IsPow2-bounds v.pow2)

need_eq : {db : DgramBuf} (len : ℕ) → IsValid db → len ≤ db.max_record → u32 (4 + len) ≡ 4 + len
need_eq len v h = omega (arith, v.fits, IsPow2-bounds v.pow2)

-- The invariant says nothing of the counters and the drain signal.
counted :
    (db : DgramBuf) (pending : Bool) (refused too_large : ℕ)
    → IsValid db
    → IsValid
        (record db { drain_pending = pending; push_full = refused; push_oversize = too_large })
counted db pending refused too_large v = record {
  pow2 = v.pow2;
  masked = v.masked;
  storage = v.storage;
  order = v.order;
  room = v.room;
  word = v.word;
  fits = v.fits;
}

drain_pending-write_record :
    (db : DgramBuf) (r : List ℕ) → (write_record db r).drain_pending ≡ db.drain_pending
unfolding write_record ring_write
drain_pending-write_record db r = refl

-- A push of a record on a valid ring is refused as oversize exactly if its payload is above the
-- limit, and as full exactly if header and payload do not fit what is free; then the ring holds the
-- records that it held. Otherwise it is accepted, and the ring holds the record behind the others. The
-- ring stays valid. A refusal as full arms the drain signal, and nothing else changes it. This is
-- before 2^64 bytes have gone through the ring.
pub push_record_lem :
    {db : DgramBuf} (rs : List (List ℕ)) (r : List ℕ)
    → IsValid db
    → Holds db rs
    → db.tail + (4 + length r) < 2 ^ 64
    → let (result, db') = push_record db r in
      (result ≡ outcome db (length r))
      × Holds db' (then_records result rs r)
      × IsValid db'
      × (db'.drain_pending ≡ armed result db.drain_pending)
unfolding push_record push_record_at
push_record_lem {db} rs r v held word = elim (Bool-cases (ltb db.max_record (length r))) [
  | inl over ↦ rw over (refl, held, counted db _ _ _ v, refl)
  | inr within ↦
      let need = need_eq (length r) v (ground arith) in
      elim (Bool-cases (ltb (db.capacity - (db.tail - db.head)) (4 + length r))) [
        | inl none_left ↦
            rw (within, room_eq v, need, none_left) (refl, held, counted db _ _ _ v, refl)
        | inr some_left ↦
            let w = write_record-Holds v r (ground (arith, v.order)) word rs held in
            rw (within, room_eq v, need, some_left)
              (refl, w.0, w.1, drain_pending-write_record db r)
      ]
]

-- Bounded capacity is the only reason to wait: an empty valid ring accepts every record within the
-- limit.
pub push_empty :
    {db : DgramBuf} (r : List ℕ)
    → IsValid db
    → Holds db []
    → db.tail + (4 + length r) < 2 ^ 64
    → length r ≤ db.max_record
    → (push_record db r).0 ≡ accepted
push_empty {db} r v held word small =
    (push_record_lem [] r v held word).0
    ∙ rw (
      le→ltb db.max_record (length r) small,
      le→ltb (db.capacity - (db.tail - db.head)) (4 + length r) room,
    )
  where
    room : 4 + length r ≤ db.capacity - (db.tail - db.head)
    room = omega (arith, length-contents db, ap (λ (l : List ℕ). length l) held, v.fits)

pub tail-push_record-le :
    (db : DgramBuf) (r : List ℕ) → (push_record db r).1.tail ≤ db.tail + (4 + length r)
unfolding push_record push_record_at write_record ring_write
tail-push_record-le db r = ground arith
