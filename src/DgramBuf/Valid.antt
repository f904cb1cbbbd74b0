-- ===== src/DgramBuf/Valid.antt =====
-- The invariant of the record ring, its records as a list, and what its copies do.
use aiopquic.Base.{
  ℕ, ◌+◌, ◌-◌, ◌*◌, ◌%◌, ◌^◌, ◌≤◌, ◌<◌, ◌≡◌, refl, ap, sym, ◌∙◌, arith, List, [], ◌∷◌, ◌++◌,
  append_assoc, length, length-append, u32, bit_and,
}
use aiopquic.Base.Pow2.{IsPow2, IsPow2-bounds, mask_index, before_end}
use aiopquic.Base.Circular.{
  window, length-window, write_each, write_wrapped-eq-write_each, read_wrapped-eq-window,
}
use aiopquic.DgramBuf.{DgramBuf, header, ring_write, ring_read}
use aiopquic.DgramBuf.Header.{length-header}

pub record IsValid (db : DgramBuf) : Type 0 where
  pub pow2 : IsPow2 db.capacity
  pub masked : db.mask ≡ db.capacity - 1
  pub storage : length db.buf ≡ db.capacity
  pub order : db.head ≤ db.tail
  pub room : db.tail ≤ db.head + db.capacity
  pub word : db.tail < 2 ^ 64
  pub fits : 2 * (4 + db.max_record) ≤ db.capacity

-- The bytes between head and tail.
abbrev pub contents : DgramBuf → List ℕ
contents db = window 0 db.capacity db.buf db.head (db.tail - db.head)

-- Records as the ring stores them.
abbrev pub encode : List (List ℕ) → List ℕ
encode [] = []
encode (r ∷ rs) = header (length r) ++ (r ++ encode rs)

-- The ring holds just these records, oldest first.
abbrev pub Holds : DgramBuf → List (List ℕ) → Type 0
Holds db rs = contents db ≡ encode rs

pub length-contents : (db : DgramBuf) → length (contents db) ≡ db.tail - db.head
length-contents db = length-window 0 db.capacity db.buf db.head (db.tail - db.head)

pub length-encode_cons :
    (r : List ℕ) (rs : List (List ℕ)) → length (encode (r ∷ rs)) ≡ 4 + length r + length (encode rs)
length-encode_cons r rs = omega (
  arith,
  length-append (header (length r)) (r ++ encode rs),
  length-append r (encode rs),
  length-header (length r),
)

pub encode-append : (rs ss : List (List ℕ)) → encode (rs ++ ss) ≡ encode rs ++ encode ss
encode-append [] ss = refl
encode-append (r ∷ rs) ss = simp (append_assoc, encode-append rs ss)

module _ (db : DgramBuf) (w : IsPow2 db.capacity) (m : db.mask ≡ db.capacity - 1) where
  index : (p : ℕ) → u32 (bit_and p db.mask) ≡ p % db.capacity
  index p = ap (λ k. u32 (bit_and p k)) m ∙ mask_index p w

  pub ring_write-eq :
      (p : ℕ) (src : List ℕ)
      → length src ≤ db.capacity
      → ring_write db p src ≡ record db { buf = write_each 0 db.capacity db.buf p src }
  unfolding ring_write
  ring_write-eq p src h =
      rw (index p, before_end p w)
        (ap (λ b. record db { buf = b })
          (write_wrapped-eq-write_each 0 db.capacity db.buf p src (IsPow2-bounds w).0 h))

  pub ring_read-eq :
      (p n : ℕ)
      → n ≤ db.capacity
      → length db.buf ≡ db.capacity
      → ring_read db p n ≡ window 0 db.capacity db.buf p n
  unfolding ring_read
  ring_read-eq p n h s =
      rw (index p, before_end p w)
        (read_wrapped-eq-window 0 db.capacity db.buf p n (IsPow2-bounds w).0 h (sym s))
