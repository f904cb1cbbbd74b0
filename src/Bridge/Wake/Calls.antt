-- ===== src/Bridge/Wake/Calls.antt =====
-- `aiopquic_notify_rx` and `aiopquic_clear_rx` as runs of the steps of the two threads.
use aiopquic.Base.{ℕ, ◌≤◌, Bool, true, false, if◌then◌else◌}
use aiopquic.Bridge.Wake.{
  WakeFd, Rx, notify_flip, notify_write, refilled, clear_read, clear_flag, must_rearm, clear_rearm,
  clear_trace, notify_rx, clear_rx, clear_end,
}
use aiopquic.Bridge.Wake.Steps.{
  Producer, resting, published, Consumer, waiting, draining, looked, after_flip, State, at,
  after_look, Step, Reach,
}

module _ (F : WakeFd) where
  module _ {s : State F} (now : ℕ) where
    notified :
        (x : Rx F) (c : Consumer) (was : Bool)
        → Reach F s (at F x (after_flip was) c)
        → Reach F s (at F (if was then x else notify_write F now x) resting c)
    notified x c true r = r
    notified x c false r = Reach.then_step r (Step.notify now x c)

    looked_after :
        (got flags left : ℕ) (x : Rx F) (p : Producer) (more : Bool)
        → Reach F s (after_look F more now got flags left x p)
        → Reach F s (
            at F
              (if more
                then clear_trace F now got left (clear_rearm F flags x).0 (clear_rearm F flags x).1
                else clear_trace F now got left flags x)
              p
              waiting)
    looked_after got flags left x p true r = Reach.then_step r (Step.rearm now got flags left x p)
    looked_after got flags left x p false r = r

    ended :
        (got flags left : ℕ) (x : Rx F) (p : Producer)
        → Reach F s (at F x p (looked got flags left))
        → Reach F s (at F (clear_end F now got left flags x) p waiting)
    unfolding clear_end
    ended got flags left x p r =
        looked_after got flags left x p (must_rearm F left x)
          (Reach.then_step r (Step.look_overflow now got flags left x p))

  -- Both calls, whatever the other thread's place, are runs of these steps that nothing comes between:
  -- a notification after a push, and a clear after a drain, which moves entries of the overflow.
  pub calls-Reach :
      (now moved : ℕ) (x : Rx F) (p : Producer) (c : Consumer)
      → moved ≤ x.depth
      → Reach F (at F x published c) (at F (notify_rx F now x) resting c)
        × Reach F (at F x p draining) (at F (clear_rx F moved now x) p waiting)
  unfolding notify_rx clear_rx
  calls-Reach now moved x p c h =
      let y = refilled F moved x in
      let (got, z) = clear_read F y in
      let (flags, u) = clear_flag F got z in
      (
        notified now (notify_flip F x).1 c (notify_flip F x).0
            (Reach.then_step Reach.none_yet (Step.flip x c)),
        ended now got flags u.left u p (
            Reach.then_step
              (Reach.then_step
                (Reach.then_step (Reach.then_step Reach.none_yet (Step.refill moved x p h))
                  (Step.empty y p))
                (Step.lower got z p))
              (Step.look_ring got flags u p)),
      )
