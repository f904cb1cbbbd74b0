-- ===== src/Bridge/Sleep/Steps.antt =====
-- A producer and the network thread, one atomic access at a time: pushes that wake, and waits that arm.
use aiopquic.Base.{ℕ, ◌+◌, ◌-◌, ◌<◌, Bool, true, false}
use aiopquic.Bridge.Sleep.{
  Tx, skipped, wake_exchange, raised, lowered, arm_peek, loop_enter, planned,
}

-- Where the producer stands in a push: before it, with the entry published, with the flag read as
-- raised, about to wake.
pub data Producer : Type 0 where
  resting published loaded calling : Producer

-- Where the worker stands: running, armed, with entries found after that, in a wait that can block, and
-- out of it before the loop callback.
pub data Worker : Type 0 where
  running armed queued_found asleep roused : Worker

-- `woken` is a call of picoquic's wake-up that no wait took yet.
pub record State : Type 0 where
  pub tx : Tx
  pub woken : Bool
  pub producer : Producer
  pub worker : Worker

abbrev pub at : Tx → Bool → Producer → Worker → State
at x k p w = record { tx = x; woken = k; producer = p; worker = w }

-- After the load of the flag.
abbrev pub after_load : Bool → Tx → Bool → Worker → State
after_load true x k w = at x k loaded w
after_load false x k w = at (skipped x) k resting w

abbrev pub after_exchange : Bool × Tx → Bool → Worker → State
after_exchange (true, x) k w = at x k calling w
after_exchange (false, x) k w = at x k resting w

abbrev pub after_peek : Bool → Worker
after_peek true = queued_found
after_peek false = asleep

pub data Step : State → State → Type 0 where
  push :
      (x : Tx) (k : Bool) (w : Worker)
      → Step (at x k resting w) (at (record x { queued = x.queued + 1 }) k published w)
  load :
      (x : Tx) (k : Bool) (w : Worker)
      → Step (at x k published w) (after_load x.tx_worker_idle x k w)
  exchange :
      (x : Tx) (k : Bool) (w : Worker)
      → Step (at x k loaded w) (after_exchange (wake_exchange x) k w)
  call : (x : Tx) (k : Bool) (w : Worker) → Step (at x k calling w) (at x true resting w)
  take :
      (x : Tx) (k : Bool) (p : Producer)
      → Step (at x k p running) (at (record x { queued = x.queued - 1 }) k p running)
  arm :
      (delta_t now : ℕ) (x : Tx) (k : Bool) (p : Producer)
      → 0 < delta_t
      → Step (at x k p running) (at (raised (planned delta_t now x)) k p armed)
  peek :
      (x : Tx) (k : Bool) (p : Producer)
      → Step (at x k p armed) (at x k p (after_peek (arm_peek x)))
  disarm :
      (x : Tx) (k : Bool) (p : Producer) → Step (at x k p queued_found) (at (lowered x) k p running)
  -- A wait ends, woken or not; one that cannot block takes a wake-up as well.
  rouse : (x : Tx) (k : Bool) (p : Producer) → Step (at x k p asleep) (at x false p roused)
  poll : (x : Tx) (k : Bool) (p : Producer) → Step (at x k p running) (at x false p roused)
  enter :
      (now : ℕ) (x : Tx) (k : Bool) (p : Producer)
      → Step (at x k p roused) (at (loop_enter now x) k p running)

-- Any number of steps.
pub data Reach (s : State) : State → Type 0 where
  none_yet : Reach s s
  then_step : {t u : State} → Reach s t → Step t u → Reach s u
