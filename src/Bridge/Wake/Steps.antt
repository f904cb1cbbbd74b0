-- ===== src/Bridge/Wake/Steps.antt =====
-- The network thread and asyncio, one atomic access at a time: pushes that notify, and drains that clear.
use aiopquic.Base.{ℕ, ◌+◌, ◌-◌, ◌≤◌, Bool, true, false}
use aiopquic.Bridge.Wake.{
  WakeFd, Rx, notify_flip, notify_write, refilled, clear_read, clear_flag, must_rearm, clear_rearm,
  clear_trace,
}

-- Where the network thread stands in a push: before it, with the entry published, with the flag raised.
pub data Producer : Type 0 where
  resting published flipped : Producer

-- Where asyncio stands: waiting for the descriptor, taking entries, after the read of the descriptor
-- (with what it got), after the lowering of the flag, after the look at the ring (with its count), and
-- about to write.
pub data Consumer : Type 0 where
  waiting draining : Consumer
  emptied : ℕ → Consumer
  lowered : ℕ → ℕ → Consumer
  looked rearming : ℕ → ℕ → ℕ → Consumer

abbrev pub after_flip : Bool → Producer
after_flip true = resting
after_flip false = flipped

module _ (F : WakeFd) where
  pub record State : Type 0 where
    pub rx : Rx F
    pub producer : Producer
    pub consumer : Consumer

  abbrev pub at : Rx F → Producer → Consumer → State
  at x p c = record { rx = x; producer = p; consumer = c }

  -- After the look at the overflow.
  abbrev pub after_look : Bool → ℕ → ℕ → ℕ → ℕ → Rx F → Producer → State
  after_look true now got flags left x p = at x p (rearming got flags left)
  after_look false now got flags left x p = at (clear_trace F now got left flags x) p waiting

  pub data Step : State → State → Type 0 where
    push_ring :
        (x : Rx F) (c : Consumer)
        → Step (at x resting c) (at (record x { left = x.left + 1 }) published c)
    push_overflow :
        (x : Rx F) (c : Consumer)
        → Step (at x resting c) (at (record x { depth = x.depth + 1 }) published c)
    flip :
        (x : Rx F) (c : Consumer)
        → Step (at x published c) (at (notify_flip F x).1 (after_flip (notify_flip F x).0) c)
    notify :
        (now : ℕ) (x : Rx F) (c : Consumer)
        → Step (at x flipped c) (at (notify_write F now x) resting c)
    wake : (x : Rx F) (p : Producer) → Step (at x p waiting) (at x p draining)
    take :
        (x : Rx F) (p : Producer)
        → Step (at x p draining) (at (record x { left = x.left - 1 }) p draining)
    refill :
        (k : ℕ) (x : Rx F) (p : Producer)
        → k ≤ x.depth
        → Step (at x p draining) (at (refilled F k x) p draining)
    empty :
        (x : Rx F) (p : Producer)
        → Step (at x p draining) (at (clear_read F x).1 p (emptied (clear_read F x).0))
    lower :
        (got : ℕ) (x : Rx F) (p : Producer)
        → Step
            (at x p (emptied got))
            (at (clear_flag F got x).1 p (lowered got (clear_flag F got x).0))
    look_ring :
        (got flags : ℕ) (x : Rx F) (p : Producer)
        → Step (at x p (lowered got flags)) (at x p (looked got flags x.left))
    look_overflow :
        (now got flags left : ℕ) (x : Rx F) (p : Producer)
        → Step
            (at x p (looked got flags left))
            (after_look (must_rearm F left x) now got flags left x p)
    rearm :
        (now got flags left : ℕ) (x : Rx F) (p : Producer)
        → Step (at x p (rearming got flags left)) (
            at
              (clear_trace F now got left (clear_rearm F flags x).0 (clear_rearm F flags x).1)
              p
              waiting)

  -- Any number of steps.
  pub data Reach (s : State) : State → Type 0 where
    none_yet : Reach s s
    then_step : {t u : State} → Reach s t → Step t u → Reach s u
