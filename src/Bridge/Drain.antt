-- ===== src/Bridge/Drain.antt =====
-- src/aiopquic/_binding/c/callback.h, the signal of the TX event ring: a writer that finds the ring full arms
-- it and waits, the network thread fires it once the ring is at or below low water. `queued` is the count
-- of the ring, and whether there is memory for the event is an argument.
pub mod Steps
pub mod Reached
use aiopquic.Base.{ℕ, ◌+◌, Bool, true, false, not, u64, ltb, if◌then◌else◌}

-- The part of `aiopquic_ctx_t` that these use.
pub record TxRing : Type 0 where
  pub queued : ℕ
  pub low_water : ℕ
  pub drain_pending : Bool
  pub cnt_arms : ℕ
  pub last_arm_ns : ℕ
  pub cnt_fires : ℕ
  pub last_fire_ns : ℕ
  pub cnt_fire_dropped : ℕ

abbrev pub armed : ℕ → TxRing → TxRing
armed now x = record x { cnt_arms = u64 (x.cnt_arms + 1); last_arm_ns = now; drain_pending = true }

unfoldable pub above : TxRing → Bool
above x = ltb x.low_water x.queued

-- Whether the caller may wait.
unfoldable pub arm_drain_pending : ℕ → TxRing → Bool × TxRing
arm_drain_pending now x = let y = armed now x in (above y, y)

unfoldable pub clear_drain_pending : TxRing → TxRing
clear_drain_pending x = record x { drain_pending = false }

-- The compare-and-exchange from 1 to 0.
unfoldable pub clear_armed : TxRing → Bool × TxRing
clear_armed x = if x.drain_pending then (true, record x { drain_pending = false }) else (false, x)

-- The push of the event, and its counters.
unfoldable pub fired : Bool → ℕ → TxRing → TxRing
fired true now x = record x { cnt_fires = u64 (x.cnt_fires + 1); last_fire_ns = now }
fired false now x = record x {
  cnt_fire_dropped = u64 (x.cnt_fire_dropped + 1);
  drain_pending = true;
}

-- Whether the event goes out.
unfoldable pub maybe_fire_drained : Bool → ℕ → TxRing → Bool × TxRing
maybe_fire_drained has_memory now x =
    if not x.drain_pending
    then (false, x)
    else if above x
    then (false, x)
    else let (won, y) = clear_armed x in
      if not won then (false, y) else (has_memory, fired has_memory now y)

unfoldable pub drained_final : Bool → ℕ → TxRing → Bool × TxRing
drained_final has_memory now x = maybe_fire_drained has_memory now x
