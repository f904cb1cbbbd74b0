-- ===== src/DgramBuf/Header.antt =====
-- The length field of a record: four bytes that spell every 32-bit length, and no other.
use aiopquic.Base.{
  ℕ, ◌+◌, ◌*◌, ◌/◌, ◌%◌, ◌^◌, ◌<◌, bit_and, bit_or, ◌≡◌, refl, ◌∙◌, arith, length, u32,
}
use aiopquic.Base.Bits.{bit_and_mask, bit_or_fields}
use aiopquic.DgramBuf.{header, header_length}

low_byte : (a : ℕ) → bit_and a 0xff ≡ a % 256
low_byte a = bit_and_mask 8 a

join_bytes :
    (a b c d : ℕ)
    → a < 256
    → b < 256
    → c < 256
    → d < 256
    → bit_or (bit_or (bit_or a (b * 2 ^ 8)) (c * 2 ^ 16)) (u32 (d * 2 ^ 24))
      ≡ a + b * 2 ^ 8 + c * 2 ^ 16 + d * 2 ^ 24
join_bytes a b c d ha hb hc hd =
    rw (whole, bit_or_fields 8 a b ha, bit_or_fields 16 (a + b * 2 ^ 8) c (omega arith))
      (bit_or_fields 24 (a + b * 2 ^ 8 + c * 2 ^ 16) d (omega arith))
  where
    whole : u32 (d * 2 ^ 24) ≡ d * 2 ^ 24
    whole = omega arith

-- A length below 2^32 is read back from the four bytes that are written for it.
pub header_length-header : (n : ℕ) → n < 2 ^ 32 → header_length (header n) ≡ n
unfolding header_length header
header_length-header n h =
    rw (low_byte n, low_byte (n / 2 ^ 8), low_byte (n / 2 ^ 16), low_byte (n / 2 ^ 24))
      (join_bytes _ _ _ _ (omega arith) (omega arith) (omega arith) (omega arith) ∙ omega arith)

pub length-header : (n : ℕ) → length (header n) ≡ 4
unfolding header
length-header n = refl
