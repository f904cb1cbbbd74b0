-- ===== src/StreamBuf.antt =====
-- src/aiopquic/_binding/c/stream_buf.h: the per-stream byte ring of the pull-model send path, and
-- of the receive path. A function that changes `*sb` returns the new record beside its result. The
-- loads of `head` and `tail` come first in push and pop: `push_at` and `pop_at` are the bodies over
-- the loaded values, which may be stale when the other side runs (StreamBuf/Race).
pub mod Pow2
pub mod Valid
pub mod Push
pub mod Pop
pub mod Run
pub mod Race
use aiopquic.Base.{
  ℕ, ◌+◌, ◌-◌, ◌*◌, ◌/◌, ◌^◌, zero, suc, bit_and, bit_xor, Bool, true, false, not, Option, none,
  some, List, [], ◌∷◌, u32, u64, sub32, sub64, ltb, leb, ◌==◌, if◌then◌else◌, take, length,
}
use aiopquic.Base.Circular.{write_wrapped, read_wrapped}

-- `aiopquic_stream_buf_t`
pub record StreamBuf : Type 0 where
  pub buf : List ℕ
  pub capacity : ℕ
  pub mask : ℕ
  pub tail : ℕ
  pub head : ℕ
  pub fin_pending : Bool
  pub hash_enabled : Bool
  pub push_hash : ℕ
  pub pop_hash : ℕ

abbrev pub fnv1a_init : ℕ
fnv1a_init = 0x811c9dc5

abbrev pub fnv1a_prime : ℕ
fnv1a_prime = 0x01000193

unfoldable pub fnv1a_step : ℕ → List ℕ → ℕ
fnv1a_step h [] = h
fnv1a_step h (b ∷ bs) = fnv1a_step (u32 (bit_xor h b * fnv1a_prime)) bs

-- The digits of `n`, up to the fuel.
unfoldable pub bit_length : ℕ → ℕ → ℕ
bit_length zero n = 0
bit_length (suc f) n = let rest = bit_length f (n / 2) in if n == 0 then 0 else rest + 1

-- `__builtin_clz` of a 32-bit number
unfoldable pub clz : ℕ → ℕ
clz n = 32 - bit_length 32 n

unfoldable pub ceil_pow2_u32 : ℕ → ℕ
unfolding clz
ceil_pow2_u32 n =
    if n == 0
    then 1
    else if bit_and n (n - 1) == 0
    then n
    else let bits = 32 - clz n in if leb 32 bits then 2 ^ 31 else 2 ^ bits

-- `getenv("AIOPQUIC_TX_HASH")`: set, not empty, and not beginning with '0'
unfoldable pub hash_gate : Option (List ℕ) → Bool
hash_gate none = false
hash_gate (some []) = false
hash_gate (some (c ∷ cs)) = not (c == b'0')

-- `calloc_ok`: the record is allocated; `block` is what malloc returns for a size, whose contents
-- are not determined; `env` is the environment variable.
unfoldable pub create : Bool → (ℕ → Option (List ℕ)) → Option (List ℕ) → ℕ → Option StreamBuf
create calloc_ok block env requested =
    let capacity = ceil_pow2_u32 requested in
    if capacity == 0 then none else if not calloc_ok then none else elim (block capacity) [
      | none ↦ none
      | some bytes ↦ some (record {
        buf = bytes;
        capacity = capacity;
        mask = sub32 capacity 1;
        tail = 0;
        head = 0;
        fin_pending = false;
        hash_enabled = hash_gate env;
        push_hash = fnv1a_init;
        pop_hash = fnv1a_init;
      })
    ]

-- The index of a position: `(uint32_t)(pos & sb->mask)`.
unfoldable pub index : StreamBuf → ℕ → ℕ
index sb pos = u32 (bit_and pos sb.mask)

unfoldable pub push_at : StreamBuf → ℕ → ℕ → List ℕ → ℕ × StreamBuf
unfolding index
push_at sb tail head bytes =
    let free_bytes = sub32 sb.capacity (u32 (sub64 tail head)) in
    if free_bytes == 0
    then (0, sb)
    else let len = length bytes in
      let to_write = if ltb len free_bytes then len else free_bytes in
      let off = index sb tail in
      let written = take to_write bytes in
      (
        to_write,
        record sb {
          buf = write_wrapped sb.buf (sub32 sb.capacity off) off written;
          push_hash = if sb.hash_enabled then fnv1a_step sb.push_hash written else sb.push_hash;
          tail = u64 (tail + to_write);
        },
      )

-- The result is the count of bytes accepted.
unfoldable pub push : StreamBuf → List ℕ → ℕ × StreamBuf
push sb bytes = push_at sb sb.tail sb.head bytes

-- The count of bytes, and the bytes that go to `out`.
unfoldable pub pop_at : StreamBuf → ℕ → ℕ → ℕ → ℕ × List ℕ × StreamBuf
unfolding index
pop_at sb head tail max_bytes =
    let available = u32 (sub64 tail head) in
    if available == 0
    then (0, [], sb)
    else let to_read = if ltb max_bytes available then max_bytes else available in
      let off = index sb head in
      let out = read_wrapped sb.buf (sub32 sb.capacity off) off to_read in
      (
        to_read,
        out,
        record sb {
          pop_hash = if sb.hash_enabled then fnv1a_step sb.pop_hash out else sb.pop_hash;
          head = u64 (head + to_read);
        },
      )

unfoldable pub pop : StreamBuf → ℕ → ℕ × List ℕ × StreamBuf
pop sb max_bytes = pop_at sb sb.head sb.tail max_bytes

unfoldable pub used : StreamBuf → ℕ
used sb = u32 (sub64 sb.tail sb.head)

unfoldable pub free : StreamBuf → ℕ
unfolding used
free sb = sub32 sb.capacity (used sb)

unfoldable pub set_fin : StreamBuf → StreamBuf
set_fin sb = record sb { fin_pending = true }
