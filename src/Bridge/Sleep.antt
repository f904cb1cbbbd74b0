-- ===== src/Bridge/Sleep.antt =====
-- src/aiopquic/_binding/c/callback.h, the wake-up of the network thread by a producer: the idle flag that
-- the worker raises before a wait, and the call that wakes it, made only by a producer that lowers the
-- flag. `queued` is the count of the TX event ring, a wait that is not positive is 0.
pub mod Steps
pub mod Reached
use aiopquic.Base.{ℕ, ◌+◌, Bool, true, false, not, ◌&&◌, u64, sub64, ltb, leb, ◌==◌, if◌then◌else◌}

abbrev pub tx_wake_lost_us : ℕ
tx_wake_lost_us = 50000

-- The part of `aiopquic_ctx_t` that these use.
pub record Tx : Type 0 where
  pub queued : ℕ
  pub tx_worker_idle : Bool
  pub cnt_wake_calls : ℕ
  pub cnt_wake_skipped_coalesced : ℕ
  pub tx_worker_armed_at : ℕ
  pub cnt_tx_wake_lost : ℕ
  pub cnt_loop_cb : ℕ

abbrev pub skipped : Tx → Tx
skipped x = record x { cnt_wake_skipped_coalesced = u64 (x.cnt_wake_skipped_coalesced + 1) }

-- The exchange of the flag, by a producer that read it as raised.
unfoldable pub wake_exchange : Tx → Bool × Tx
wake_exchange x =
    if x.tx_worker_idle
    then (true, record x { tx_worker_idle = false; cnt_wake_calls = u64 (x.cnt_wake_calls + 1) })
    else (false, skipped x)

unfoldable pub tx_wake_needed : Tx → Bool × Tx
tx_wake_needed x = if x.tx_worker_idle then wake_exchange x else (false, skipped x)

abbrev pub raised : Tx → Tx
raised x = record x { tx_worker_idle = true }

abbrev pub lowered : Tx → Tx
lowered x = record x { tx_worker_idle = false }

-- The look at the ring, with the flag raised: whether entries are queued.
unfoldable pub arm_peek : Tx → Bool
arm_peek x = ltb 0 x.queued

unfoldable pub tx_worker_idle_arm : Tx → Bool × Tx
tx_worker_idle_arm x = let y = raised x in if arm_peek y then (true, lowered y) else (false, y)

-- The start of the loop callback.
unfoldable pub loop_enter : ℕ → Tx → Tx
loop_enter now x =
    let y = record x { cnt_loop_cb = u64 (x.cnt_loop_cb + 1) } in
    if not x.tx_worker_idle
    then y
    else if x.tx_worker_armed_at == 0
    then lowered y
    else if leb tx_wake_lost_us (sub64 now x.tx_worker_armed_at) && ltb 0 x.queued
    then record (lowered y) { cnt_tx_wake_lost = u64 (x.cnt_tx_wake_lost + 1) }
    else lowered y

abbrev pub planned : ℕ → ℕ → Tx → Tx
planned delta_t now x =
    if ltb 0 delta_t
    then record x { tx_worker_armed_at = if leb tx_wake_lost_us delta_t then now else 0 }
    else x

-- Whether entries are queued, with the flag raised where the wait can block.
unfoldable pub check_queued : ℕ → Tx → Bool × Tx
check_queued delta_t x = if ltb 0 delta_t then tx_worker_idle_arm x else (ltb 0 x.queued, x)

abbrev pub wait_or_drain : ℕ → Bool × Tx → ℕ × Bool × Tx
wait_or_drain delta_t (true, x) = (0, true, x)
wait_or_drain delta_t (false, x) = (delta_t, false, x)

-- The check before a wait: the wait that is left, and whether the ring is drained first.
unfoldable pub time_check : ℕ → ℕ → Tx → ℕ × Bool × Tx
time_check delta_t now x = wait_or_drain delta_t (check_queued delta_t (planned delta_t now x))
