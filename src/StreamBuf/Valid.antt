-- ===== src/StreamBuf/Valid.antt =====
-- The representation invariant of the byte ring, what it gives for the machine arithmetic, and the
-- bytes that a ring holds.
use aiopquic.Base.{
  ℕ, ◌+◌, ◌-◌, ◌%◌, ◌^◌, ◌≤◌, ◌<◌, ◌≡◌, ap, ◌∙◌, arith, List, length, u32, sub64, bit_and,
}
use aiopquic.Base.Pow2.{IsPow2, mask_index}
use aiopquic.Base.Circular.{window, length-window}
use aiopquic.StreamBuf.{StreamBuf, index}

pub record IsValid (sb : StreamBuf) : Type 0 where
  pub pow2 : IsPow2 sb.capacity
  pub masked : sb.mask ≡ sb.capacity - 1
  pub storage : length sb.buf ≡ sb.capacity
  pub order : sb.head ≤ sb.tail
  pub room : sb.tail ≤ sb.head + sb.capacity
  pub word : sb.tail < 2 ^ 64

-- The bytes between head and tail, oldest first.
abbrev pub contents : StreamBuf → List ℕ
contents sb = window 0 sb.capacity sb.buf sb.head (sb.tail - sb.head)

pub length-contents : (sb : StreamBuf) → length (contents sb) ≡ sb.tail - sb.head
length-contents sb = length-window 0 sb.capacity sb.buf sb.head (sb.tail - sb.head)

pub index-eq-mod : {sb : StreamBuf} (p : ℕ) → IsValid sb → index sb p ≡ p % sb.capacity
unfolding index
index-eq-mod p v = ap (λ m. u32 (bit_and p m)) v.masked ∙ mask_index p v.pow2

-- The machine difference of two positions less than a round apart is their difference.
pub distance : (a b : ℕ) → b ≤ a → a ≤ b + 2 ^ 31 → a < 2 ^ 64 → u32 (sub64 a b) ≡ a - b
distance a b h k w = omega arith
