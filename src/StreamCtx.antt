-- ===== src/StreamCtx.antt =====
-- src/aiopquic/_binding/c/stream_ctx.h: what the two threads share of a stream, its byte rings, flags
-- and reference count, and the process-wide counters. A function that changes `*sc` or the counters
-- returns them beside its result; the NULL context, which every function turns away, is left out.
pub mod Send
pub mod Life
use aiopquic.Base.{
  ℕ, ◌+◌, Bool, true, false, not, Option, none, some, List, u32, u64, sub32, sub64, ltb, ◌==◌,
  if◌then◌else◌, length,
}
use aiopquic.StreamBuf as Buf
use aiopquic.StreamBuf.{StreamBuf}

-- `aiopquic_stream_ctx_t`
pub record StreamCtx : Type 0 where
  pub tx : Option StreamBuf
  pub rx : Option StreamBuf
  pub rx_consumed : ℕ
  pub bytes_pending_release : ℕ
  pub rx_credit_limit : ℕ
  pub last_fc_push_consumed : ℕ
  pub tx_drain_pending : Bool
  pub rx_event_pending : Bool
  pub pending_destroy : Bool
  pub tx_reset_pending : Bool
  pub tx_reliable_size : ℕ
  pub cnt_drain_arms : ℕ
  pub cnt_drain_fires : ℕ
  pub cnt_drain_dropped : ℕ
  pub last_drain_arm_ns : ℕ
  pub last_drain_fire_ns : ℕ
  pub refcount : ℕ

-- The process-wide counters, 64-bit words.
pub record Counters : Type 0 where
  pub sc_created : ℕ
  pub sc_destroyed : ℕ
  pub tx_pushed : ℕ
  pub tx_pulled : ℕ
  pub tx_discarded : ℕ
  pub rx_bytes_pushed : ℕ
  pub rx_bytes_popped : ℕ
  pub chunks_alive : ℕ

-- Bytes pushed and neither pulled nor discarded.
unfoldable pub tx_data_bytes_queued : Counters → ℕ
tx_data_bytes_queued c =
    let consumed = u64 (c.tx_pulled + c.tx_discarded) in
    if ltb consumed c.tx_pushed then sub64 c.tx_pushed consumed else 0

unfoldable pub tx_data_bytes_pushed_add : Counters → ℕ → Counters
tx_data_bytes_pushed_add c n = record c { tx_pushed = u64 (c.tx_pushed + n) }

unfoldable pub tx_data_bytes_pulled_add : Counters → ℕ → Counters
tx_data_bytes_pulled_add c n = record c { tx_pulled = u64 (c.tx_pulled + n) }

unfoldable pub sc_rx_bytes_pushed_add : Counters → ℕ → Counters
sc_rx_bytes_pushed_add c n = record c { rx_bytes_pushed = u64 (c.rx_bytes_pushed + n) }

unfoldable pub sc_rx_bytes_popped_add : Counters → ℕ → Counters
sc_rx_bytes_popped_add c n = record c { rx_bytes_popped = u64 (c.rx_bytes_popped + n) }

unfoldable pub chunks_alive_inc : Counters → Counters
chunks_alive_inc c = record c { chunks_alive = u64 (c.chunks_alive + 1) }

unfoldable pub chunks_alive_dec : Counters → Counters
chunks_alive_dec c = record c { chunks_alive = sub64 c.chunks_alive 1 }

-- `calloc_ok` is whether the context is allocated.
unfoldable pub create : Bool → Counters → Option StreamCtx × Counters
create calloc_ok c = if not calloc_ok then (none, c) else (
  some (record {
    tx = none;
    rx = none;
    rx_consumed = 0;
    bytes_pending_release = 0;
    rx_credit_limit = 0;
    last_fc_push_consumed = 0;
    tx_drain_pending = false;
    rx_event_pending = false;
    pending_destroy = false;
    tx_reset_pending = false;
    tx_reliable_size = 0;
    cnt_drain_arms = 0;
    cnt_drain_fires = 0;
    cnt_drain_dropped = 0;
    last_drain_arm_ns = 0;
    last_drain_fire_ns = 0;
    refcount = 1;
  }),
  record c { sc_created = u64 (c.sc_created + 1) },
)

unfoldable pub ref : StreamCtx → StreamCtx
ref sc = record sc { refcount = u32 (sc.refcount + 1) }

-- `now` is the monotonic clock.
unfoldable pub set_tx_data_drain_pending : ℕ → StreamCtx → StreamCtx
set_tx_data_drain_pending now sc = record sc {
  cnt_drain_arms = u64 (sc.cnt_drain_arms + 1);
  last_drain_arm_ns = now;
  tx_drain_pending = true;
}

unfoldable pub clear_tx_data_drain_pending : StreamCtx → StreamCtx
clear_tx_data_drain_pending sc = record sc { tx_drain_pending = false }

-- An exchange with 0: whether the signal was armed.
unfoldable pub tx_drain_take : StreamCtx → Bool × StreamCtx
tx_drain_take sc = (sc.tx_drain_pending, record sc { tx_drain_pending = false })

-- A ring that is there, or a new one of `capacity`; `make` is `aiopquic_stream_buf_create`.
unfoldable pub ensure : (ℕ → Option StreamBuf) → ℕ → Option StreamBuf → Option StreamBuf
ensure make capacity (some sb) = some sb
ensure make capacity none = make capacity

-- Whether the ring is there, the return values 0 and -1.
unfoldable pub ensure_tx : (ℕ → Option StreamBuf) → ℕ → StreamCtx → Bool × StreamCtx
unfolding ensure
ensure_tx make capacity sc =
    let ring = ensure make capacity sc.tx in
    (elim ring [ none ↦ false | some sb ↦ true ], record sc { tx = ring })

unfoldable pub ensure_rx : (ℕ → Option StreamBuf) → ℕ → StreamCtx → Bool × StreamCtx
unfolding ensure
ensure_rx make capacity sc =
    let ring = ensure make capacity sc.rx in
    (elim ring [ none ↦ false | some sb ↦ true ], record sc { rx = ring })

-- The bytes still in a ring that is freed.
abbrev pub remaining : Option StreamBuf → ℕ
remaining none = 0
remaining (some sb) = Buf.used sb

-- `none` is a context that is freed, and its rings with it.
unfoldable pub destroy : StreamCtx → Counters → Option StreamCtx × Counters
destroy sc c =
    if not (sc.refcount == 1) then (some (record sc { refcount = sub32 sc.refcount 1 }), c) else (
      none,
      record c {
        tx_discarded =
            if ltb 0 (remaining sc.tx)
            then u64 (c.tx_discarded + remaining sc.tx)
            else c.tx_discarded;
        sc_destroyed = u64 (c.sc_destroyed + 1);
      },
    )

unfoldable pub abandon_ring : StreamBuf → StreamCtx → Counters → StreamCtx × Counters
abandon_ring sb sc c =
    if ltb sb.head sb.tail
    then (
      record sc { tx = some (record sb { head = sb.tail }) },
      record c { tx_discarded = u64 (c.tx_discarded + sub64 sb.tail sb.head) },
    )
    else (sc, c)

unfoldable pub tx_abandon : StreamCtx → Counters → StreamCtx × Counters
tx_abandon sc c = elim sc.tx [ none ↦ (sc, c) | some sb ↦ abandon_ring sb sc c ]

-- `sb` is `*sc->tx`.
unfoldable pub tx_sendable : StreamCtx → StreamBuf → ℕ → ℕ
tx_sendable sc sb avail =
    if not sc.tx_reset_pending
    then avail
    else let left =
        if ltb sb.head sc.tx_reliable_size then sub64 sc.tx_reliable_size sb.head else 0 in
      if ltb left avail then u32 left else avail

unfoldable pub rx_consumed_add : StreamCtx → ℕ → StreamCtx
rx_consumed_add sc delta = record sc { rx_consumed = u64 (sc.rx_consumed + delta) }

unfoldable pub rx_credit_store : StreamCtx → ℕ → StreamCtx
rx_credit_store sc value = record sc { rx_credit_limit = value }

unfoldable pub pending_add : StreamCtx → ℕ → StreamCtx
pending_add sc n =
    if n == 0 then sc else record sc { bytes_pending_release = u64 (sc.bytes_pending_release + n) }

unfoldable pub pending_sub : StreamCtx → ℕ → StreamCtx
pending_sub sc n =
    if n == 0 then sc else record sc { bytes_pending_release = sub64 sc.bytes_pending_release n }

unfoldable pub last_fc_push_consumed_store : StreamCtx → ℕ → StreamCtx
last_fc_push_consumed_store sc v = record sc { last_fc_push_consumed = v }

-- Whether this caller set the flag.
unfoldable pub rx_event_pending_arm : StreamCtx → Bool × StreamCtx
rx_event_pending_arm sc = (not sc.rx_event_pending, record sc { rx_event_pending = true })

unfoldable pub rx_event_pending_clear : StreamCtx → StreamCtx
rx_event_pending_clear sc = record sc { rx_event_pending = false }

-- The return values 1, 0, -1 and -2 of a send.
pub data SendResult : Type 0 where
  sent retry failed never_fits : SendResult

-- The FIN of a send that asks for it.
abbrev pub with_fin : Bool → StreamBuf → StreamBuf
with_fin true sb = Buf.set_fin sb
with_fin false sb = sb

-- The push of all bytes once they fit, and the FIN.
unfoldable pub push_all : StreamCtx → StreamBuf → List ℕ → Bool → SendResult × StreamCtx
push_all sc sb bytes fin =
    let (accepted, sb') = Buf.push sb bytes in
    if not (accepted == length bytes)
    then (retry, record sc { tx = some sb' })
    else (sent, record sc { tx = some (with_fin fin sb') })

-- The send once the ring is there. `head` and `again` are the two loads of the ring's head.
unfoldable pub send_on : ℕ → StreamCtx → StreamBuf → ℕ → ℕ → List ℕ → Bool → SendResult × StreamCtx
send_on now sc sb head again bytes fin =
    let len = length bytes in
    let room = λ (h : ℕ). sub32 sb.capacity (u32 (sub64 sb.tail h)) in
    if ltb sb.capacity len
    then (never_fits, sc)
    else if len == 0
    then (sent, record sc { tx = some (with_fin fin sb) })
    else if not (ltb (room head) len)
    then push_all sc sb bytes fin
    else if ltb (room again) len
    then (retry, set_tx_data_drain_pending now sc)
    else push_all (set_tx_data_drain_pending now sc) sb bytes fin

unfoldable pub send_data :
    (ℕ → Option StreamBuf) → ℕ → StreamCtx → List ℕ → ℕ → Bool → SendResult × StreamCtx
send_data make now sc bytes capacity fin = elim (ensure make capacity sc.tx) [
  | none ↦ (failed, sc)
  | some sb ↦ send_on now (record sc { tx = some sb }) sb sb.head sb.head bytes fin
]
