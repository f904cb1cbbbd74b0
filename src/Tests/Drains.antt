-- ===== src/Tests/Drains.antt =====
-- The signal of the TX event ring at concrete inputs: a writer that waits at four entries with a low water of
-- two, and the network thread that takes two of them.
use aiopquic.Base.{ℕ, ◌≡◌, arith, true, false}
use aiopquic.Bridge.Drain.{TxRing, armed, above, clear_armed, fired}
use aiopquic.Bridge.Drain.Steps.{running, waiting, draining, quiet, at, Step, Reach}
use aiopquic.Bridge.Drain.Reached.{Reach-told}

abbrev four_queued : TxRing
four_queued = record {
  queued = 4;
  low_water = 2;
  drain_pending = false;
  cnt_arms = 0;
  last_arm_ns = 0;
  cnt_fires = 0;
  last_fire_ns = 0;
  cnt_fire_dropped = 0;
}

abbrev armed_ring : TxRing
armed_ring = armed 10 four_queued

abbrev taken : ℕ → TxRing
taken n = record armed_ring { queued = n }

abbrev low_ring : TxRing
low_ring = record armed_ring { queued = 2; drain_pending = false }

abbrev fired_ring : TxRing
fired_ring = record low_ring { cnt_fires = 1; last_fire_ns = 20 }

told_writer :
    Reach (at four_queued false false running draining) (at fired_ring true false waiting quiet)
unfolding above clear_armed fired
told_writer =
    Reach.then_step
      (Reach.then_step
        (Reach.then_step
          (Reach.then_step
            (Reach.then_step
              (Reach.then_step
                (Reach.then_step
                  (Reach.then_step
                    (Reach.then_step
                      (Reach.then_step
                        (Reach.then_step
                          (Reach.then_step Reach.none_yet
                            (Step.arm four_queued false false draining 10))
                          (Step.recheck armed_ring false false draining))
                        (Step.pop armed_ring false false waiting))
                      (Step.load (taken 3) false false waiting false))
                    (Step.count (taken 3) false false waiting false))
                  (Step.pop (taken 3) false false waiting))
                (Step.load (taken 2) false false waiting false))
              (Step.count (taken 2) false false waiting false))
            (Step.clear (taken 2) false false waiting false))
          (Step.fire low_ring false false waiting false true 20))
        (Step.emptied fired_ring true false waiting))
      (Step.load fired_ring true false waiting true)

Reach-told_example : true ≡ true
Reach-told_example = Reach-told four_queued fired_ring false true told_writer (omega arith)
