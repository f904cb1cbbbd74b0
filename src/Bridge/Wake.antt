-- ===== src/Bridge/Wake.antt =====
-- src/aiopquic/_binding/c/callback.h, the wake-up of asyncio by the network thread: notify_rx on the
-- worker's side, clear_rx on asyncio's. The queue is seen as the two counts that these read, those of
-- the event ring and of its overflow. The file descriptor is the kernel's: a parameter, of which the
-- code relies on one law, that it is readable after a write, an event counter that is full included.
pub mod Steps
pub mod Reached
pub mod Calls
use aiopquic.Base.{
  ℕ, ◌+◌, ◌-◌, ◌*◌, ◌%◌, ◌^◌, bit_and, bit_or, ◌≡◌, Bool, true, false, ◌||◌, List, u64, ltb, ◌==◌,
  if◌then◌else◌, set,
}

-- The wake descriptor: what a write leaves with its errno (0 for none), and what reads leave with what
-- they got.
pub record WakeFd : Type 1 where
  pub Fd : Type 0
  pub write : Fd → Fd × ℕ
  pub read : Fd → Fd × ℕ
  pub readable : Fd → Bool
  pub write-readable : (fd : Fd) → readable (write fd).0 ≡ true

abbrev pub trace_len : ℕ
trace_len = 128

-- `aiopquic_wake_trace_entry_t`
pub record TraceEntry : Type 0 where
  pub ts_ns : ℕ
  pub kind : ℕ
  pub a : ℕ
  pub b : ℕ

-- `aiopquic_wake_trace_t`
pub record Trace : Type 0 where
  pub next : ℕ
  pub e : List TraceEntry

unfoldable pub trace_add : Trace → ℕ → ℕ → ℕ → ℕ → Trace
trace_add t now kind a b = record t {
  next = u64 (t.next + 1);
  e = set t.e (t.next % trace_len) (record { ts_ns = now; kind = kind; a = a; b = b });
}

abbrev pub wake_notify : ℕ
wake_notify = 1

abbrev pub wake_clear : ℕ
wake_clear = 2

abbrev pub clear_was_pending : ℕ
clear_was_pending = 1

abbrev pub clear_rearmed : ℕ
clear_rearmed = 2

abbrev pub clear_read_empty : ℕ
clear_read_empty = 4

abbrev pub clear_rearm_err : ℕ
clear_rearm_err = 8

module _ (F : WakeFd) where
  -- The part of `aiopquic_ctx_t` that these use; `left` and `depth` are the counts of the RX event ring
  -- and of its overflow.
  pub record Rx : Type 0 where
    pub left : ℕ
    pub depth : ℕ
    pub fd : F.Fd
    pub rx_notify_pending : Bool
    pub cnt_rx_notify_flips : ℕ
    pub cnt_rx_notify_skips : ℕ
    pub cnt_rx_notify_write_errs : ℕ
    pub last_rx_notify_errno : ℕ
    pub cnt_rx_clears : ℕ
    pub cnt_rx_clear_read_empty : ℕ
    pub cnt_rx_rearms : ℕ
    pub worker_trace : Trace
    pub asyncio_trace : Trace

  -- The exchange of the flag; the test is on what it was.
  unfoldable pub notify_flip : Rx → Bool × Rx
  notify_flip x = (
    x.rx_notify_pending,
    record x {
      rx_notify_pending = true;
      cnt_rx_notify_skips =
          if x.rx_notify_pending then u64 (x.cnt_rx_notify_skips + 1) else x.cnt_rx_notify_skips;
    },
  )

  -- The write after the flag went from 0 to 1.
  unfoldable pub notify_write : ℕ → Rx → Rx
  notify_write now x =
      let (fd, err) = F.write x.fd in
      record x {
        fd = fd;
        cnt_rx_notify_flips = u64 (x.cnt_rx_notify_flips + 1);
        cnt_rx_notify_write_errs =
            if err == 0 then x.cnt_rx_notify_write_errs else u64 (x.cnt_rx_notify_write_errs + 1);
        last_rx_notify_errno = if err == 0 then x.last_rx_notify_errno else err;
        worker_trace = trace_add x.worker_trace now wake_notify err x.left;
      }

  unfoldable pub notify_rx : ℕ → Rx → Rx
  notify_rx now x = let (was, y) = notify_flip x in if was then y else notify_write now y

  -- What `spsc_ring_refill_from_overflow` does to the counts when it moves `k` entries.
  abbrev pub refilled : ℕ → Rx → Rx
  refilled k x = record x { left = x.left + k; depth = x.depth - k }

  -- The read of the descriptor, with what it got.
  unfoldable pub clear_read : Rx → ℕ × Rx
  clear_read x = let (fd, got) = F.read x.fd in (got, record x { fd = fd })

  -- The exchange of the flag, with the trace flags.
  unfoldable pub clear_flag : ℕ → Rx → ℕ × Rx
  clear_flag got x =
      let was = if x.rx_notify_pending then clear_was_pending else 0 in
      (
        if got == 0 then bit_or was clear_read_empty else was,
        record x {
          rx_notify_pending = false;
          cnt_rx_clears = u64 (x.cnt_rx_clears + 1);
          cnt_rx_clear_read_empty =
              if got == 0 then u64 (x.cnt_rx_clear_read_empty + 1) else x.cnt_rx_clear_read_empty;
        },
      )

  -- Whether the wake-up is armed again: `left` is what was read of the ring before.
  unfoldable pub must_rearm : ℕ → Rx → Bool
  must_rearm left x = ltb 0 left || ltb 0 x.depth

  unfoldable pub clear_rearm : ℕ → Rx → ℕ × Rx
  clear_rearm flags x =
      let (fd, err) = F.write x.fd in
      (
        if err == 0
            then bit_or flags clear_rearmed
            else bit_or (bit_or flags clear_rearmed) clear_rearm_err,
        record x { fd = fd; cnt_rx_rearms = u64 (x.cnt_rx_rearms + 1) },
      )

  unfoldable pub clear_trace : ℕ → ℕ → ℕ → ℕ → Rx → Rx
  clear_trace now got left flags x = record x {
    asyncio_trace =
        trace_add x.asyncio_trace now wake_clear flags
          (bit_or (u64 (left * 2 ^ 32)) (bit_and got 0xffffffff));
  }

  unfoldable pub clear_end : ℕ → ℕ → ℕ → ℕ → Rx → Rx
  clear_end now got left flags x =
      if must_rearm left x
      then (let (all_flags, y) = clear_rearm flags x in clear_trace now got left all_flags y)
      else clear_trace now got left flags x

  -- `moved` is what the refill returns.
  unfoldable pub clear_rx : ℕ → ℕ → Rx → Rx
  clear_rx moved now x =
      let (got, y) = clear_read (refilled moved x) in
      let (flags, z) = clear_flag got y in clear_end now got z.left flags z
