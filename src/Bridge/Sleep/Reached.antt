-- ===== src/Bridge/Sleep/Reached.antt =====
-- No wake-up of the network thread is lost: in a wait with entries queued it is woken, or a push that is
-- under way wakes it.
use aiopquic.Base.{
  ℕ, ◌<◌, ◌≡◌, refl, sym, subst, arith, Bool, true, false, not, ◌||◌, ltb, if◌then◌else◌,
}
use aiopquic.Bridge.Sleep.{
  Tx, skipped, wake_exchange, raised, lowered, arm_peek, planned, tx_wake_needed,
  tx_worker_idle_arm, check_queued, wait_or_drain, time_check,
}
use aiopquic.Bridge.Sleep.Steps.{
  Producer, resting, published, loaded, calling, Worker, running, armed, queued_found, asleep,
  roused, State, at, after_load, after_exchange, after_peek, Step, Reach,
}

abbrev is_calling : Producer → Bool
is_calling resting = false
is_calling published = false
is_calling loaded = false
is_calling calling = true

-- A push that has still to exchange the flag.
abbrev will_exchange : Producer → Bool
will_exchange resting = false
will_exchange published = true
will_exchange loaded = true
will_exchange calling = false

abbrev is_asleep : Worker → Bool
is_asleep running = false
is_asleep armed = false
is_asleep queued_found = false
is_asleep asleep = true
is_asleep roused = false

-- Armed, and not yet out of the wait.
abbrev may_wait : Worker → Bool
may_wait running = false
may_wait armed = true
may_wait queued_found = false
may_wait asleep = true
may_wait roused = false

record Inv (s : State) : Type 0 where
  lowered_by :
      (not (may_wait s.worker) || s.tx.tx_worker_idle || s.woken || is_calling s.producer) ≡ true
  seen_by :
      (not (is_asleep s.worker)
        || not (ltb 0 s.tx.queued)
        || not s.tx.tx_worker_idle
        || will_exchange s.producer)
      ≡ true

loaded_Inv :
    (x : Tx) (k : Bool) (w : Worker) (idle : Bool)
    → x.tx_worker_idle ≡ idle
    → Inv (at x k published w)
    → Inv (after_load idle x k w)
loaded_Inv x k w true e v = record {
  lowered_by = ground (arith, v.lowered_by);
  seen_by = ground arith;
}
loaded_Inv x k w false e v = record {
  lowered_by = ground (arith, v.lowered_by);
  seen_by = ground (arith, e);
}

exchanged_Inv :
    (x : Tx) (k : Bool) (w : Worker) (idle : Bool)
    → x.tx_worker_idle ≡ idle
    → Inv (at x k loaded w)
    → Inv (after_exchange (wake_exchange x) k w)
unfolding wake_exchange
exchanged_Inv x k w true e v = rw e (record { lowered_by = ground arith; seen_by = ground arith })
exchanged_Inv x k w false e v =
    rw e (record { lowered_by = ground (arith, v.lowered_by); seen_by = ground (arith, e) })

peeked_Inv :
    (x : Tx) (k : Bool) (p : Producer) (more : Bool)
    → arm_peek x ≡ more
    → Inv (at x k p armed)
    → Inv (at x k p (after_peek more))
unfolding arm_peek
peeked_Inv x k p true e v = record { lowered_by = ground arith; seen_by = ground arith }
peeked_Inv x k p false e v = record {
  lowered_by = ground (arith, v.lowered_by);
  seen_by = ground (arith, e);
}

Step-Inv : {s t : State} → Inv s → Step s t → Inv t
Step-Inv v (Step.push x k w) = record {
  lowered_by = ground (arith, v.lowered_by);
  seen_by = ground arith;
}
Step-Inv v (Step.load x k w) = loaded_Inv x k w x.tx_worker_idle refl v
Step-Inv v (Step.exchange x k w) = exchanged_Inv x k w x.tx_worker_idle refl v
Step-Inv v (Step.call x k w) = record {
  lowered_by = ground arith;
  seen_by = ground (arith, v.seen_by);
}
Step-Inv v (Step.take x k p) = record { lowered_by = ground arith; seen_by = ground arith }
Step-Inv v (Step.arm delta_t now x k p h) = record {
  lowered_by = ground arith;
  seen_by = ground arith;
}
Step-Inv v (Step.peek x k p) = peeked_Inv x k p (arm_peek x) refl v
Step-Inv v (Step.disarm x k p) = record { lowered_by = ground arith; seen_by = ground arith }
Step-Inv v (Step.rouse x k p) = record { lowered_by = ground arith; seen_by = ground arith }
Step-Inv v (Step.poll x k p) = record { lowered_by = ground arith; seen_by = ground arith }
Step-Inv v (Step.enter now x k p) = record { lowered_by = ground arith; seen_by = ground arith }

Reach-Inv : {s t : State} → Inv s → Reach s t → Inv t
Reach-Inv v Reach.none_yet = v
Reach-Inv v (Reach.then_step r step) = Step-Inv (Reach-Inv v r) step

-- From a running worker and a producer at rest, however their accesses interleave: when the producer
-- rests and the worker is in a wait that can block, with entries queued, the worker is woken and its
-- idle flag is down.
pub Reach-woken :
    (x y : Tx) (k woken : Bool)
    → Reach (at x k resting running) (at y woken resting asleep)
    → 0 < y.queued
    → (woken ≡ true) × (y.tx_worker_idle ≡ false)
Reach-woken x y k woken r queued =
    let v : Inv (at y woken resting asleep) =
      Reach-Inv (record { lowered_by = ground arith; seen_by = ground arith }) r in
    (ground (arith, v.lowered_by, v.seen_by, queued), ground (arith, v.seen_by, queued))

abbrev after_check : Bool → Worker
after_check true = running
after_check false = asleep

module _ {s : State} (x : Tx) (k : Bool) where
  needed :
      (idle : Bool) (w : Worker)
      → Reach s (after_load idle x k w)
      → Reach s (after_exchange (if idle then wake_exchange x else (false, skipped x)) k w)
  needed true w r = Reach.then_step r (Step.exchange x k w)
  needed false w r = r

  checked :
      (delta_t : ℕ) (p : Producer) (more : Bool)
      → Reach s (at x k p (after_peek more))
      → Reach s (
          at (wait_or_drain delta_t (if more then (true, lowered x) else (false, x))).2 k p (
            after_check (wait_or_drain delta_t (if more then (true, lowered x) else (false, x))).1))
  checked delta_t p true r = Reach.then_step r (Step.disarm x k p)
  checked delta_t p false r = r

check_queued-blocks :
    (delta_t : ℕ) (x : Tx) → 0 < delta_t → check_queued delta_t x ≡ tx_worker_idle_arm x
unfolding check_queued
check_queued-blocks delta_t x h =
    let blocks : ltb 0 delta_t ≡ true = ground (arith, h) in rw blocks refl

-- The calls are runs of these steps: the producer's test after a push, and the check before a wait that
-- can block, after which the worker drains the ring if it says so and waits otherwise.
pub waits-Reach :
    (x : Tx) (k : Bool) (p : Producer) (w : Worker) (delta_t now : ℕ)
    → 0 < delta_t
    → Reach (at x k published w) (after_exchange (tx_wake_needed x) k w)
      × Reach
          (at x k p running)
          (at (time_check delta_t now x).2 k p (after_check (time_check delta_t now x).1))
unfolding tx_wake_needed time_check tx_worker_idle_arm
waits-Reach x k p w delta_t now h =
    let y = planned delta_t now x in
    (
      needed x k x.tx_worker_idle w (Reach.then_step Reach.none_yet (Step.load x k w)),
      subst
          (λ c.
            Reach (at x k p running)
              (at (wait_or_drain delta_t c).2 k p (after_check (wait_or_drain delta_t c).1)))
          (sym (check_queued-blocks delta_t y h))
          (checked (raised y) k delta_t p (arm_peek (raised y)) (
            Reach.then_step (Reach.then_step Reach.none_yet (Step.arm delta_t now x k p h))
              (Step.peek (raised y) k p))),
    )
