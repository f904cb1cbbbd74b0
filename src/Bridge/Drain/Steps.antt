-- ===== src/Bridge/Drain/Steps.antt =====
-- A writer and the network thread at the TX event ring, one atomic access at a time. The writer's thread may
-- push and arm for other writers while this one waits.
use aiopquic.Base.{ℕ, ◌+◌, ◌-◌, Bool, true, false}
use aiopquic.Bridge.Drain.{TxRing, armed, above, clear_armed, fired}

-- Where the writer stands: running, with the signal armed, and in its wait.
pub data Writer : Type 0 where
  running rechecking waiting : Writer

-- Where the worker stands: in the drain loop, in a test of the signal, the one after a pop or the final one,
-- before each of its accesses, and out of the loop.
pub data Worker : Type 0 where
  draining : Worker
  loading counting clearing firing : Bool → Worker
  quiet : Worker

-- `told` is an event that the writer's thread has not taken yet, `dropped` that memory was short for one.
pub record State : Type 0 where
  pub ring : TxRing
  pub told : Bool
  pub dropped : Bool
  pub writer : Writer
  pub worker : Worker

abbrev pub at : TxRing → Bool → Bool → Writer → Worker → State
at x t d w k = record { ring = x; told = t; dropped = d; writer = w; worker = k }

-- After the test: the drain loop goes on, or it is over.
abbrev pub rest : Bool → Worker
rest false = draining
rest true = quiet

abbrev pub after_recheck : Bool → Writer
after_recheck true = waiting
after_recheck false = running

abbrev pub after_load : Bool → Bool → Worker
after_load true final = counting final
after_load false final = rest final

abbrev pub after_count : Bool → Bool → Worker
after_count true final = rest final
after_count false final = clearing final

abbrev pub after_clear : Bool × TxRing → Bool → Bool → Writer → Bool → State
after_clear (true, x) t d w final = at x t d w (firing final)
after_clear (false, x) t d w final = at x t d w (rest final)

abbrev pub after_fire : Bool → ℕ → TxRing → Bool → Bool → Writer → Bool → State
after_fire true now x t d w final = at (fired true now x) true d w (rest final)
after_fire false now x t d w final = at (fired false now x) t true w (rest final)

pub data Step : State → State → Type 0 where
  push :
      (x : TxRing) (t d : Bool) (w : Writer) (k : Worker)
      → Step (at x t d w k) (at (record x { queued = x.queued + 1 }) t d w k)
  arm :
      (x : TxRing) (t d : Bool) (k : Worker) (now : ℕ)
      → Step (at x t d running k) (at (armed now x) t d rechecking k)
  recheck :
      (x : TxRing) (t d : Bool) (k : Worker)
      → Step (at x t d rechecking k) (at x t d (after_recheck (above x)) k)
  arm_other :
      (x : TxRing) (t d : Bool) (k : Worker) (now : ℕ)
      → Step (at x t d waiting k) (at (armed now x) t d waiting k)
  wake :
      (x : TxRing) (d : Bool) (k : Worker) → Step (at x true d waiting k) (at x false d running k)
  hear :
      (x : TxRing) (d : Bool) (k : Worker) → Step (at x true d running k) (at x false d running k)
  pop :
      (x : TxRing) (t d : Bool) (w : Writer)
      → Step (at x t d w draining) (at (record x { queued = x.queued - 1 }) t d w (loading false))
  emptied :
      (x : TxRing) (t d : Bool) (w : Writer)
      → Step (at x t d w draining) (at x t d w (loading true))
  load :
      (x : TxRing) (t d : Bool) (w : Writer) (final : Bool)
      → Step (at x t d w (loading final)) (at x t d w (after_load x.drain_pending final))
  count :
      (x : TxRing) (t d : Bool) (w : Writer) (final : Bool)
      → Step (at x t d w (counting final)) (at x t d w (after_count (above x) final))
  clear :
      (x : TxRing) (t d : Bool) (w : Writer) (final : Bool)
      → Step (at x t d w (clearing final)) (after_clear (clear_armed x) t d w final)
  fire :
      (x : TxRing) (t d : Bool) (w : Writer) (final has_memory : Bool) (now : ℕ)
      → Step (at x t d w (firing final)) (after_fire has_memory now x t d w final)
  resume : (x : TxRing) (t d : Bool) (w : Writer) → Step (at x t d w quiet) (at x t d w draining)

pub data Reach (s : State) : State → Type 0 where
  none_yet : Reach s s
  then_step : {t u : State} → Reach s t → Step t u → Reach s u
