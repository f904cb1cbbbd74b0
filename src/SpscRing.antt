-- ===== src/SpscRing.antt =====
-- src/aiopquic/_binding/c/spsc_ring.h: the single-producer single-consumer event ring, its payloads
-- on the heap, and the overflow list behind it.
pub mod Events
pub mod Memory
pub mod Valid
pub mod Push
pub mod Pop
pub mod Overflow
use aiopquic.Base.{
  ℕ, zero, suc, ◌+◌, ◌-◌, bit_and, Bool, true, false, not, ◌&&◌, Option, none, some, List, [], ◌∷◌,
  u8, u32, u64, sub32, sub64, ltb, leb, ◌==◌, if◌then◌else◌, length, get_or, set,
}
use Memory.{Heap, malloc, free}
use Events.{event_code, stream_data, stream_fin}

-- `spsc_entry_t`. A pointer is a number, 0 for NULL.
pub record Entry : Type 0 where
  pub stream_id : ℕ
  pub event_type : ℕ
  pub data_length : ℕ
  pub is_fin : ℕ
  pub aux : ℕ
  pub data_buf : ℕ
  pub cnx : ℕ
  pub stream_ctx : ℕ
  pub error_code : ℕ

abbrev pub no_entry : Entry
no_entry = record {
  stream_id = 0;
  event_type = 0;
  data_length = 0;
  is_fin = 0;
  aux = 0;
  data_buf = 0;
  cnx = 0;
  stream_ctx = 0;
  error_code = 0;
}

-- `spsc_ring_t`
pub record Ring : Type 0 where
  pub tail : ℕ
  pub head : ℕ
  pub bytes_pending : ℕ
  pub capacity : ℕ
  pub mask : ℕ
  pub entries : List Entry

-- `alloc_ok`: the ring itself is allocated; `block` is calloc of the entries.
unfoldable pub create : Bool → (ℕ → Option (List Entry)) → ℕ → Option Ring
create alloc_ok block capacity =
    if not (bit_and capacity (sub32 capacity 1) == 0)
    then none
    else if not alloc_ok
    then none
    else elim (block capacity) [
      | none ↦ none
      | some entries ↦ some (record {
        tail = 0;
        head = 0;
        bytes_pending = 0;
        capacity = capacity;
        mask = sub32 capacity 1;
        entries = entries;
      })
    ]

unfoldable pub count : Ring → ℕ
count r = u32 (sub64 r.tail r.head)

unfoldable pub is_full : Ring → Bool
unfolding count
is_full r = leb r.capacity (count r)

unfoldable pub is_empty : Ring → Bool
unfolding count
is_empty r = count r == 0

-- The slot of a position.
unfoldable pub slot : Ring → ℕ → ℕ
slot r pos = u32 (bit_and pos r.mask)

-- Whether the ring frees the payload: `e->data_buf && e->data_length > 0`.
abbrev pub owns : Entry → Bool
owns e = not (e.data_buf == 0) && ltb 0 e.data_length

-- The return values 0, -1 and -2 of a push.
pub data PushResult : Type 0 where
  pushed full no_memory : PushResult

-- What both pushes do once there is room: the entry into its slot, and the store of `tail`.
unfoldable pub store : Ring → Entry → Ring
store r e = record r {
  entries = set r.entries (slot r r.tail) e;
  bytes_pending =
      if ltb 0 e.data_length then u64 (r.bytes_pending + e.data_length) else r.bytes_pending;
  tail = u64 (r.tail + 1);
}

unfoldable pub has_room : Ring → Bool
has_room r = ltb (sub64 r.tail r.head) r.capacity

-- Whether there is a payload to copy: `data && data_len > 0`, with `none` for NULL.
abbrev pub copies : Option (List ℕ) → Bool
copies (some (b ∷ bs)) = true
copies empty = false

-- `bytes` is `data`, `none` for NULL; `alloc_ok` is whether malloc succeeds.
unfoldable pub push : Bool → Ring → Heap → Entry → Option (List ℕ) → PushResult × Ring × Heap
push alloc_ok r h entry bytes = if not (has_room r) then (full, r, h) else elim bytes [
  | none ↦ (pushed, store r (record entry { data_buf = 0; data_length = 0 }), h)
  | some [] ↦ (pushed, store r (record entry { data_buf = 0; data_length = 0 }), h)
  | some (b ∷ bs) ↦
      if not alloc_ok
      then (no_memory, r, h)
      else let (p, h') = malloc h (b ∷ bs) in
        (pushed, store r (record entry { data_buf = p; data_length = length (b ∷ bs) }), h')
]

-- The entry goes in as it is; the running total is not touched.
unfoldable pub push_borrowed : Ring → Entry → PushResult × Ring
push_borrowed r entry = if not (has_room r) then (full, r) else (
  pushed,
  record r { entries = set r.entries (slot r r.tail) entry; tail = u64 (r.tail + 1) },
)

unfoldable pub peek : Ring → Option Entry
peek r = if leb r.tail r.head then none else some (get_or r.entries (slot r r.head) no_entry)

-- What a pop does with `e`, the entry at the head. `none` is a fault: a free of what is not
-- allocated.
unfoldable pub pop_entry : Ring → Heap → Entry → Option (Ring × Heap)
pop_entry r h e =
    if owns e
    then elim (free h e.data_buf) [
      | none ↦ none
      | some h' ↦ some (
        record r {
          bytes_pending = sub64 r.bytes_pending e.data_length;
          entries = set r.entries (slot r r.head) (record e { data_buf = 0 });
          head = u64 (r.head + 1);
        },
        h',
      )
    ]
    else some (record r { head = u64 (r.head + 1) }, h)

unfoldable pub pop : Ring → Heap → Option (Ring × Heap)
pop r h = pop_entry r h (get_or r.entries (slot r r.head) no_entry)

-- The payload of the entry at the head goes to the caller; the entry is changed in its slot.
unfoldable pub take_data : Ring → ℕ × Ring
take_data r =
    let e = get_or r.entries (slot r r.head) no_entry in
    (
      e.data_buf,
      record r {
        entries = set r.entries (slot r r.head) (record e { data_buf = 0; data_length = 0 });
      },
    )

-- The loop of `spsc_ring_destroy` over the `n` entries from `head` on.
unfoldable pub free_pending : Ring → Heap → ℕ → ℕ → Option Heap
free_pending r h head zero = some h
free_pending r h head (suc n) =
    let e = get_or r.entries (slot r head) no_entry in
    let rest = λ (h' : Heap). free_pending r h' (head + 1) n in
    if owns e then elim (free h e.data_buf) [ none ↦ none | some h' ↦ rest h' ] else rest h

unfoldable pub destroy : Ring → Heap → Option Heap
unfolding free_pending
destroy r h = free_pending r h r.head (r.tail - r.head)

unfoldable pub push_event : Bool → Ring → Heap → ℕ → ℕ → ℕ → ℕ → PushResult × Ring × Heap
push_event alloc_ok r h event_type stream_id cnx error_code =
    push alloc_ok r h
      (record no_entry {
        event_type = event_type;
        stream_id = stream_id;
        cnx = cnx;
        error_code = error_code;
      })
      none

unfoldable pub push_stream_data :
    Bool → Ring → Heap → ℕ → Option (List ℕ) → ℕ → ℕ → ℕ → PushResult × Ring × Heap
push_stream_data alloc_ok r h stream_id bytes is_fin cnx stream_ctx =
    push alloc_ok r h
      (record no_entry {
        event_type = event_code (if is_fin == 0 then stream_data else stream_fin);
        stream_id = stream_id;
        is_fin = u8 is_fin;
        cnx = cnx;
        stream_ctx = stream_ctx;
      })
      bytes
