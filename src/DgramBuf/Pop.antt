-- ===== src/DgramBuf/Pop.antt =====
-- `aiopquic_dgram_buf_peek_len` and `_pop_into`: the head record, whole, and the others behind it.
use aiopquic.Base.{
  ℕ, ◌+◌, ◌-◌, ◌≤◌, ◌≡◌, refl, ap, ap₂, sym, ◌∙◌, arith, true, false, List, [], ◌∷◌, ◌++◌, length,
  u64, sub64, ltb,
}
use aiopquic.Base.Pow2.{IsPow2-bounds}
use aiopquic.Base.Circular.{window, window-add, length-window}
use aiopquic.DgramBuf.{DgramBuf, header, header_length, peek_len, pop_into}
use aiopquic.DgramBuf.Header.{length-header, header_length-header}
use aiopquic.DgramBuf.Valid.{
  IsValid, contents, encode, Holds, length-contents, length-encode_cons, ring_read-eq,
}

-- Whoever is whole is split in one way at a known length.
unappend :
    (xs ys xs' ys' : List ℕ)
    → xs ++ ys ≡ xs' ++ ys'
    → length xs ≡ length xs'
    → (xs ≡ xs') × (ys ≡ ys')
unappend [] ys [] ys' e h = (refl, e)
unappend [] ys (x' ∷ xs') ys' e h = absurd (omega arith)
unappend (x ∷ xs) ys [] ys' e h = absurd (omega arith)
unappend (x ∷ xs) ys (x' ∷ xs') ys' e h =
    let r = unappend xs ys xs' ys' (cc) (omega arith) in (ap₂ ◌∷◌ (cc) r.0, r.1)

module _ {db : DgramBuf} (v : IsValid db) (r : List ℕ) (rs : List (List ℕ))
    (held : Holds db (r ∷ rs)) where
  abbrev at : ℕ → ℕ → List ℕ
  at p n = window 0 db.capacity db.buf p n

  abbrev rest : ℕ
  rest = db.tail - (db.head + 4 + length r)

  bytes_held : db.tail - db.head ≡ 4 + length r + length (encode rs)
  bytes_held = sym (length-contents db) ∙ ap length held ∙ length-encode_cons r rs

  three :
      contents db
      ≡ at db.head 4 ++ (at (db.head + 4) (length r) ++ at (db.head + 4 + length r) rest)
  three =
      ap (at db.head) (omega (arith, bytes_held))
      ∙ window-add 0 db.capacity db.buf db.head 4 (length r + rest)
      ∙ ap (λ l. at db.head 4 ++ l) (window-add 0 db.capacity db.buf (db.head + 4) (length r) rest)

  record Parts : Type 0 where
    head_is : at db.head 4 ≡ header (length r)
    payload_is : at (db.head + 4) (length r) ≡ r
    others_are : at (db.head + 4 + length r) rest ≡ encode rs

  parts : Parts
  parts =
      let a =
        unappend _ _ _ _ (sym three ∙ held)
          (length-window 0 db.capacity db.buf db.head 4 ∙ sym (length-header (length r))) in
      let b = unappend _ _ _ _ a.1 (length-window 0 db.capacity db.buf (db.head + 4) (length r)) in
      record { head_is = a.0; payload_is = b.0; others_are = b.1 }

  in_word : ltb (sub64 db.tail db.head) 4 ≡ false
  in_word = ground (arith, bytes_held, v.order, v.word)

  small : 4 + length r ≤ db.capacity
  small = omega (arith, bytes_held, v.room, v.order)

  pub peek_held : peek_len db ≡ length r
  unfolding peek_len
  peek_held =
      rw (in_word, ring_read-eq db v.pow2 v.masked db.head 4 (omega (arith, small)) v.storage)
        (ap header_length parts.head_is
          ∙ header_length-header (length r) (omega (arith, small, IsPow2-bounds v.pow2)))

  behind_header : u64 (db.head + 4) ≡ db.head + 4
  behind_header = omega (arith, bytes_held, v.order, v.word)

  new_head : u64 (db.head + 4 + length r) ≡ db.head + 4 + length r
  new_head = omega (arith, bytes_held, v.order, v.word)

  pub pop_held : let (out, db') = pop_into db (length r) in (out ≡ r) × Holds db' rs × IsValid db'
  unfolding pop_into
  pop_held =
      rw
        (
          behind_header,
          new_head,
          ring_read-eq db v.pow2 v.masked (db.head + 4) (length r) (omega (arith, small)) v.storage,
        )
        (
          parts.payload_is,
          parts.others_are,
          record {
            pow2 = v.pow2;
            masked = v.masked;
            storage = v.storage;
            order = omega (arith, bytes_held, v.order);
            room = omega (arith, v.room);
            word = v.word;
            fits = v.fits;
          },
        )

-- On a valid ring whose first record is `r`, a peek returns the length of `r`, and a pop of that
-- many bytes delivers just `r`, leaves the other records, and keeps the ring valid.
pub peek_pop :
    {db : DgramBuf} (r : List ℕ) (rs : List (List ℕ))
    → IsValid db
    → Holds db (r ∷ rs)
    → let (out, db') = pop_into db (peek_len db) in
      (peek_len db ≡ length r) × (out ≡ r) × Holds db' rs × IsValid db'
peek_pop r rs v held =
    let (out, others, valid) = pop_held v r rs held in
    rw (peek_held v r rs held) (refl, out, others, valid)

pub tail-pop_into : (db : DgramBuf) (len : ℕ) → (pop_into db len).1.tail ≡ db.tail
unfolding pop_into
tail-pop_into db len = refl

-- On a valid ring with no record a peek returns 0.
pub peek_empty : {db : DgramBuf} → IsValid db → Holds db [] → peek_len db ≡ 0
unfolding peek_len
peek_empty {db} v held =
    let none_left : ltb (sub64 db.tail db.head) 4 ≡ true = ground (arith, empty, v.order, v.word) in
    rw none_left
  where
    empty : db.tail - db.head ≡ 0
    empty = sym (length-contents db) ∙ ap length held
