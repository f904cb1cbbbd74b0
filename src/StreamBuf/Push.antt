-- ===== src/StreamBuf/Push.antt =====
-- `aiopquic_stream_buf_push`: how many bytes it takes, where they go, and what the ring holds then.
use aiopquic.Base.{
  ℕ, ◌+◌, ◌-◌, ◌^◌, ◌≤◌, ◌<◌, min, ◌≡◌, refl, sym, ap, ap₂, ◌∙◌, arith, Bool-cases, inl, inr, List,
  [], ◌++◌, length, take, u32, u64, sub32, sub64, ltb, if◌then◌else◌, length-take, ◌==◌,
}
use aiopquic.Base.Pow2.{IsPow2-bounds, before_end}
use aiopquic.Base.Circular.{
  write_wrapped, write_each, write_wrapped-eq-write_each, window-write_each, length-write_each,
  window,
}
use aiopquic.StreamBuf.{StreamBuf, fnv1a_step, push_at, push, index}
use aiopquic.StreamBuf.Valid.{IsValid, contents, length-contents, index-eq-mod}

-- What a push of bytes that fit does, with no machine arithmetic.
abbrev pub append : StreamBuf → List ℕ → StreamBuf
append sb bytes = record sb {
  buf = write_each 0 sb.capacity sb.buf sb.tail bytes;
  push_hash = if sb.hash_enabled then fnv1a_step sb.push_hash bytes else sb.push_hash;
  tail = sb.tail + length bytes;
}

-- The bytes that fit, for a producer that has loaded `head`.
abbrev pub accepts : StreamBuf → ℕ → List ℕ → ℕ
accepts sb head bytes = min (length bytes) (sb.capacity - (sb.tail - head))

append_none : (sb : StreamBuf) → append sb [] ≡ sb
unfolding write_each fnv1a_step
append_none sb = ground arith

module _ {sb : StreamBuf} (v : IsValid sb) (head : ℕ) (bytes : List ℕ) (stale : head ≤ sb.head)
    (known : sb.tail ≤ head + sb.capacity) (short : length bytes < 2 ^ 32)
    (word : sb.tail + length bytes < 2 ^ 64) where
  free_bytes : sub32 sb.capacity (u32 (sub64 sb.tail head)) ≡ sb.capacity - (sb.tail - head)
  free_bytes = omega (arith, IsPow2-bounds v.pow2)

  to_write : (f : ℕ) → (if ltb (length bytes) f then length bytes else f) ≡ min (length bytes) f
  to_write f = ground arith

  abbrev pub n : ℕ
  n = accepts sb head bytes

  pub length_taken : length (take n bytes) ≡ n
  length_taken = omega (arith, length-take n bytes)

  stored :
      write_wrapped sb.buf (sub32 sb.capacity (index sb sb.tail)) (index sb sb.tail) (take n bytes)
      ≡ write_each 0 sb.capacity sb.buf sb.tail (take n bytes)
  stored =
      rw (index-eq-mod sb.tail v, before_end sb.tail v.pow2)
        (write_wrapped-eq-write_each 0 sb.capacity sb.buf sb.tail (take n bytes)
          (IsPow2-bounds v.pow2).0 (omega (arith, length_taken)))

  advanced : u64 (sb.tail + n) ≡ sb.tail + length (take n bytes)
  advanced = omega (arith, length_taken)

  pub push_at-eq-append : push_at sb sb.tail head bytes ≡ (n, append sb (take n bytes))
  unfolding push_at
  push_at-eq-append = elim (Bool-cases (sb.capacity - (sb.tail - head) == 0)) [
    | inl full ↦
        let e : n ≡ 0 = ground arith in
        rw (free_bytes, full, e) (ap (λ s. (0, s)) (sym (append_none sb)))
    | inr some_room ↦ rw (free_bytes, some_room, to_write, stored, advanced)
  ]

  contents-append : contents (append sb (take n bytes)) ≡ contents sb ++ take n bytes
  contents-append =
      ap₂ (λ p k. window 0 sb.capacity (write_each 0 sb.capacity sb.buf p (take n bytes)) sb.head k)
        from_head (omega (arith, v.order))
      ∙ window-write_each 0 sb.capacity sb.buf sb.head (sb.tail - sb.head) (take n bytes)
          (omega (arith, v.storage)) (omega (arith, length_taken, v.order))
    where
      from_head : sb.tail ≡ sb.head + (sb.tail - sb.head)
      from_head = omega (arith, v.order)

  append-IsValid : IsValid (append sb (take n bytes))
  append-IsValid = record {
    pow2 = v.pow2;
    masked = v.masked;
    storage = length-write_each 0 sb.capacity sb.buf sb.tail (take n bytes) ∙ v.storage;
    order = omega (arith, v.order);
    room = omega (arith, length_taken, v.order);
    word = omega (arith, length_taken);
  }

  -- A producer that has loaded an old `head` appends what that head leaves room for.
  pub push_at_lem :
      let (m, sb') = push_at sb sb.tail head bytes in
      (m ≡ n)
      × (contents sb' ≡ contents sb ++ take m bytes)
      × (sb'.tail ≡ sb.tail + m)
      × IsValid sb'
  push_at_lem =
      rw push_at-eq-append (refl, contents-append, omega (arith, length_taken), append-IsValid)

pub push-eq-append :
    {sb : StreamBuf} (bytes : List ℕ)
    → IsValid sb
    → length bytes < 2 ^ 32
    → sb.tail + length bytes < 2 ^ 64
    → let n = accepts sb sb.head bytes in push sb bytes ≡ (n, append sb (take n bytes))
unfolding push
push-eq-append {sb} bytes v short word =
    push_at-eq-append v sb.head bytes (omega arith) v.room short word

-- On a valid ring, `push` accepts as many bytes as there are and as fit, and returns their number.
-- Exactly that prefix stands behind the bytes that the ring held, and the ring stays valid. This is
-- for a request of less than 2^32 bytes, before 2^64 bytes have gone through the ring.
pub push_lem :
    {sb : StreamBuf} (bytes : List ℕ)
    → IsValid sb
    → length bytes < 2 ^ 32
    → sb.tail + length bytes < 2 ^ 64
    → let (n, sb') = push sb bytes in
      (n ≡ min (length bytes) (sb.capacity - length (contents sb)))
      × (contents sb' ≡ contents sb ++ take n bytes)
      × (sb'.tail ≡ sb.tail + n)
      × IsValid sb'
unfolding push
push_lem {sb} bytes v short word =
    rw (length-contents sb) (push_at_lem v sb.head bytes (omega arith) v.room short word)
