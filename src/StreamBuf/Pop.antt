-- ===== src/StreamBuf/Pop.antt =====
-- `aiopquic_stream_buf_pop`: which bytes it takes, and what the ring holds then.
use native.Mathlib.Nat.{le_refl}
use aiopquic.Base.{
  ℕ, ◌+◌, ◌-◌, ◌≤◌, min, ◌≡◌, refl, sym, ap, ap₂, ◌∙◌, arith, Bool-cases, inl, inr, List, [], ◌++◌,
  length, take, drop, u32, u64, sub32, sub64, ltb, if◌then◌else◌, ◌==◌, split_front,
}
use aiopquic.Base.Pow2.{IsPow2-bounds, before_end}
use aiopquic.Base.Circular.{read_wrapped, read_wrapped-eq-window, window-add, length-window, window}
use aiopquic.StreamBuf.{StreamBuf, fnv1a_step, pop_at, pop, index}
use aiopquic.StreamBuf.Valid.{IsValid, contents, length-contents, index-eq-mod, distance}

-- What a pop of `n` bytes that are there does, with no machine arithmetic.
abbrev pub oldest : StreamBuf → ℕ → List ℕ
oldest sb n = window 0 sb.capacity sb.buf sb.head n

abbrev pub consume : StreamBuf → ℕ → StreamBuf
consume sb n = record sb {
  pop_hash = if sb.hash_enabled then fnv1a_step sb.pop_hash (oldest sb n) else sb.pop_hash;
  head = sb.head + n;
}

oldest_none : (sb : StreamBuf) → oldest sb 0 ≡ []
unfolding window
oldest_none sb = refl

consume_none : (sb : StreamBuf) → consume sb 0 ≡ sb
unfolding window fnv1a_step
consume_none sb = ground arith

contents_split :
    (sb : StreamBuf) (n : ℕ)
    → n ≤ sb.tail - sb.head
    → contents sb ≡ oldest sb n ++ contents (consume sb n)
contents_split sb n h =
    ap (window 0 sb.capacity sb.buf sb.head) e
    ∙ window-add 0 sb.capacity sb.buf sb.head n (sb.tail - (sb.head + n))
  where
    e : sb.tail - sb.head ≡ n + (sb.tail - (sb.head + n))
    e = omega arith

-- The bytes that go, for a consumer that has loaded `tail`.
abbrev pub takes : StreamBuf → ℕ → ℕ → ℕ
takes sb tail max_bytes = min max_bytes (tail - sb.head)

module _ {sb : StreamBuf} (v : IsValid sb) (tail max_bytes : ℕ) (known : sb.head ≤ tail)
    (stale : tail ≤ sb.tail) where
  abbrev pub n : ℕ
  n = takes sb tail max_bytes

  available : u32 (sub64 tail sb.head) ≡ tail - sb.head
  available =
      distance tail sb.head known (omega (arith, v.room, IsPow2-bounds v.pow2))
        (omega (arith, v.word))

  to_read :
      (if ltb max_bytes (tail - sb.head) then max_bytes else tail - sb.head)
      ≡ min max_bytes (tail - sb.head)
  to_read = ground arith

  loaded :
      read_wrapped sb.buf (sub32 sb.capacity (index sb sb.head)) (index sb sb.head) n ≡ oldest sb n
  loaded =
      rw (index-eq-mod sb.head v, before_end sb.head v.pow2)
        (read_wrapped-eq-window 0 sb.capacity sb.buf sb.head n (IsPow2-bounds v.pow2).0
          (omega (arith, v.room)) (sym v.storage))

  advanced : u64 (sb.head + n) ≡ sb.head + n
  advanced = omega (arith, v.word)

  pub pop_at-eq-consume : pop_at sb sb.head tail max_bytes ≡ (n, oldest sb n, consume sb n)
  unfolding pop_at
  pop_at-eq-consume = elim (Bool-cases (tail - sb.head == 0)) [
    | inl empty ↦
        let e : n ≡ 0 = ground arith in
        rw (available, empty, e)
          (ap₂ (λ o s. (0, o, s)) (sym (oldest_none sb)) (sym (consume_none sb)))
    | inr some_bytes ↦ rw (available, some_bytes, to_read, loaded, advanced)
  ]

  consume-IsValid : IsValid (consume sb n)
  consume-IsValid = record {
    pow2 = v.pow2;
    masked = v.masked;
    storage = v.storage;
    order = omega (arith, v.order);
    room = omega (arith, v.room);
    word = v.word;
  }

  -- A consumer that has loaded an old `tail` takes from what that tail shows it.
  pub pop_at_lem :
      let (m, out, sb') = pop_at sb sb.head tail max_bytes in
      (m ≡ n)
      × (length out ≡ m)
      × (contents sb ≡ out ++ contents sb')
      × (sb'.head ≡ sb.head + m)
      × IsValid sb'
  pop_at_lem = rw pop_at-eq-consume (
    refl,
    length-window 0 sb.capacity sb.buf sb.head n,
    contents_split sb n (omega arith),
    refl,
    consume-IsValid,
  )

pub pop-eq-consume :
    {sb : StreamBuf} (max_bytes : ℕ)
    → IsValid sb
    → let n = takes sb sb.tail max_bytes in pop sb max_bytes ≡ (n, oldest sb n, consume sb n)
unfolding pop
pop-eq-consume {sb} max_bytes v = pop_at-eq-consume v sb.tail max_bytes v.order (le_refl sb.tail)

-- On a valid ring, `pop` takes as many bytes as it may and as are there, and returns their number.
-- They are the oldest ones in order, the others stay, the producer's position does not move, and the ring stays valid.
pub pop_lem :
    {sb : StreamBuf} (max_bytes : ℕ)
    → IsValid sb
    → let (n, out, sb') = pop sb max_bytes in
      (n ≡ min max_bytes (length (contents sb)))
      × (out ≡ take n (contents sb))
      × (contents sb' ≡ drop n (contents sb))
      × (sb'.tail ≡ sb.tail)
      × IsValid sb'
unfolding pop
pop_lem {sb} max_bytes v =
    let r = pop_at_lem v sb.tail max_bytes v.order (le_refl sb.tail) in
    let (n, out, sb') = pop sb max_bytes in
    let (front, rest) = split_front n out (contents sb') (contents sb) r.1 r.2 in
    (omega (arith, r.0, length-contents sb), front, rest, rw (pop-eq-consume max_bytes v), r.4)
