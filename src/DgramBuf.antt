-- ===== src/DgramBuf.antt =====
-- src/aiopquic/_binding/c/datagram_buf.h, the record ring: whole datagrams between the Python
-- producer and the worker, each as a 4-byte length and its payload in one circular byte array.
pub mod Header
pub mod Valid
pub mod Push
pub mod Pop
pub mod Run
pub mod Life
use aiopquic.Base.{
  ℕ, ◌+◌, ◌*◌, ◌/◌, ◌^◌, bit_and, bit_or, Bool, true, false, not, ◌||◌, Option, none, some, List,
  [], ◌∷◌, u32, u64, u8, sub32, sub64, ltb, ◌==◌, if◌then◌else◌, length,
}
use aiopquic.Base.Circular.{write_wrapped, read_wrapped}
use aiopquic.StreamBuf.{ceil_pow2_u32}

abbrev pub rec_hdr : ℕ
rec_hdr = 4

-- `aiopquic_dgram_buf_t`
pub record DgramBuf : Type 0 where
  pub buf : List ℕ
  pub capacity : ℕ
  pub mask : ℕ
  pub max_record : ℕ
  pub tail : ℕ
  pub head : ℕ
  pub refcnt : ℕ
  pub drain_pending : Bool
  pub records_pushed : ℕ
  pub push_full : ℕ
  pub push_oversize : ℕ
  pub records_popped : ℕ
  pub bytes_popped : ℕ
  pub head_deferred : ℕ

-- The capacity that `create` settles on: twice the greatest record fits.
unfoldable pub ring_capacity : ℕ → ℕ → ℕ
ring_capacity requested max_record =
    let capacity = ceil_pow2_u32 requested in
    let twice = u32 (2 * u32 (rec_hdr + max_record)) in
    if ltb capacity twice then ceil_pow2_u32 twice else capacity

-- `alive` is the process-wide count of rings, a 64-bit word. `block` is malloc.
unfoldable pub create : Bool → (ℕ → Option (List ℕ)) → ℕ → ℕ → ℕ → Option (DgramBuf × ℕ)
create calloc_ok block requested max_record alive =
    if ceil_pow2_u32 requested == 0 || max_record == 0
    then none
    else if not calloc_ok
    then none
    else let capacity = ring_capacity requested max_record in
      elim (block capacity) [
        | none ↦ none
        | some bytes ↦ some (
          record {
            buf = bytes;
            capacity = capacity;
            mask = sub32 capacity 1;
            max_record = max_record;
            tail = 0;
            head = 0;
            refcnt = 1;
            drain_pending = false;
            records_pushed = 0;
            push_full = 0;
            push_oversize = 0;
            records_popped = 0;
            bytes_popped = 0;
            head_deferred = 0;
          },
          u64 (alive + 1),
        )
      ]

unfoldable pub addref : DgramBuf → DgramBuf
addref db = record db { refcnt = u32 (db.refcnt + 1) }

-- `none` is a ring that is freed.
unfoldable pub unref : DgramBuf → ℕ → Option DgramBuf × ℕ
unref db alive =
    if db.refcnt == 1
    then (none, sub64 alive 1)
    else (some (record db { refcnt = sub32 db.refcnt 1 }), alive)

unfoldable pub ring_write : DgramBuf → ℕ → List ℕ → DgramBuf
ring_write db pos src =
    let off = u32 (bit_and pos db.mask) in
    record db { buf = write_wrapped db.buf (sub32 db.capacity off) off src }

unfoldable pub ring_read : DgramBuf → ℕ → ℕ → List ℕ
ring_read db pos n =
    let off = u32 (bit_and pos db.mask) in read_wrapped db.buf (sub32 db.capacity off) off n

-- The four bytes of a length, lowest first.
unfoldable pub header : ℕ → List ℕ
header len =
    u8 (bit_and len 0xff)
    ∷ u8 (bit_and (len / 2 ^ 8) 0xff)
    ∷ u8 (bit_and (len / 2 ^ 16) 0xff)
    ∷ u8 (bit_and (len / 2 ^ 24) 0xff)
    ∷ []

-- The return values 1, 0 and -1 of a push.
pub data PushResult : Type 0 where
  accepted full oversize : PushResult

-- The copy of a record that fits, and the store of `tail`.
unfoldable pub write_record : DgramBuf → List ℕ → DgramBuf
write_record db payload =
    let len = length payload in
    let hdr = ring_write db db.tail (header len) in
    let both = ring_write hdr (u64 (db.tail + rec_hdr)) payload in
    record both {
      tail = u64 (db.tail + rec_hdr + len);
      records_pushed = u64 (db.records_pushed + 1);
    }

-- `head` and `again` are the two loads of `db->head`: a full ring arms the drain signal and looks
-- once more.
unfoldable pub push_record_at : DgramBuf → ℕ → ℕ → List ℕ → PushResult × DgramBuf
push_record_at db head again payload =
    let len = length payload in
    let need = u32 (rec_hdr + len) in
    let room = λ (h : ℕ). sub32 db.capacity (u32 (sub64 db.tail h)) in
    if ltb db.max_record len
    then (oversize, record db { push_oversize = u64 (db.push_oversize + 1) })
    else if ltb (room head) need
    then (if ltb (room again) need
        then (full, record db { drain_pending = true; push_full = u64 (db.push_full + 1) })
        else (accepted, write_record (record db { drain_pending = true }) payload))
    else (accepted, write_record db payload)

unfoldable pub push_record : DgramBuf → List ℕ → PushResult × DgramBuf
push_record db payload = push_record_at db db.head db.head payload

-- The length that four header bytes spell.
unfoldable pub header_length : List ℕ → ℕ
header_length (a ∷ b ∷ c ∷ d ∷ rest) =
    bit_or (bit_or (bit_or a (b * 2 ^ 8)) (c * 2 ^ 16)) (u32 (d * 2 ^ 24))
header_length short = 0

unfoldable pub peek_len : DgramBuf → ℕ
peek_len db =
    if ltb (sub64 db.tail db.head) rec_hdr then 0 else header_length (ring_read db db.head rec_hdr)

-- The bytes that go to `out`, and the ring without the record.
unfoldable pub pop_into : DgramBuf → ℕ → List ℕ × DgramBuf
pop_into db len = (
  ring_read db (u64 (db.head + rec_hdr)) len,
  record db {
    head = u64 (db.head + rec_hdr + len);
    records_popped = u64 (db.records_popped + 1);
    bytes_popped = u64 (db.bytes_popped + len);
  },
)

unfoldable pub used : DgramBuf → ℕ
used db = u32 (sub64 db.tail db.head)

-- An exchange with 0: whether the signal was armed.
unfoldable pub drain_take : DgramBuf → Bool × DgramBuf
drain_take db = (db.drain_pending, record db { drain_pending = false })
