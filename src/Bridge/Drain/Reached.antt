-- ===== src/Bridge/Drain/Reached.antt =====
-- No signal of the TX event ring is lost: a writer that waits is told, or the ring is above low water.
use aiopquic.Base.{ℕ, ◌≤◌, ◌≡◌, refl, arith, Bool, true, false, not, ◌||◌, ltb, if◌then◌else◌}
use aiopquic.Bridge.Drain.{
  TxRing, armed, above, arm_drain_pending, clear_armed, fired, maybe_fire_drained,
}
use aiopquic.Bridge.Drain.Steps.{
  Writer, running, rechecking, waiting, Worker, draining, loading, counting, clearing, firing,
  quiet, State, at, rest, after_recheck, after_load, after_count, after_clear, after_fire, Step,
  Reach,
}

abbrev has_armed : Writer → Bool
has_armed running = false
has_armed rechecking = true
has_armed waiting = true

abbrev is_waiting : Writer → Bool
is_waiting running = false
is_waiting rechecking = false
is_waiting waiting = true

abbrev is_firing : Worker → Bool
is_firing draining = false
is_firing (loading f) = false
is_firing (counting f) = false
is_firing (clearing f) = false
is_firing (firing f) = true
is_firing quiet = false

abbrev is_quiet : Worker → Bool
is_quiet draining = false
is_quiet (loading f) = false
is_quiet (counting f) = false
is_quiet (clearing f) = false
is_quiet (firing f) = false
is_quiet quiet = true

record Inv (s : State) : Type 0 where
  kept : (not (has_armed s.writer) || s.told || s.ring.drain_pending || is_firing s.worker) ≡ true
  high :
      (not (is_waiting s.writer)
        || s.told
        || s.dropped
        || not (is_quiet s.worker)
        || ltb s.ring.low_water s.ring.queued)
      ≡ true

rechecked_Inv :
    (x : TxRing) (t d : Bool) (k : Worker) (high : Bool)
    → above x ≡ high
    → Inv (at x t d rechecking k)
    → Inv (at x t d (after_recheck high) k)
unfolding above
rechecked_Inv x t d k true e v = record { kept = v.kept; high = ground (arith, e) }
rechecked_Inv x t d k false e v = record { kept = ground arith; high = ground arith }

loaded_Inv :
    (x : TxRing) (t d : Bool) (w : Writer) (final pending : Bool)
    → x.drain_pending ≡ pending
    → Inv (at x t d w (loading final))
    → Inv (at x t d w (after_load pending final))
loaded_Inv x t d w final true e v = record { kept = ground (arith, v.kept); high = ground arith }
loaded_Inv x t d w false false e v = record { kept = ground (arith, v.kept); high = ground arith }
loaded_Inv x t d running true false e v = record { kept = ground arith; high = ground arith }
loaded_Inv x t d rechecking true false e v = record {
  kept = ground (arith, v.kept);
  high = ground arith;
}
loaded_Inv x t d waiting true false e v = record {
  kept = ground (arith, v.kept);
  high = ground (arith, v.kept, e);
}

counted_Inv :
    (x : TxRing) (t d : Bool) (w : Writer) (final high : Bool)
    → above x ≡ high
    → Inv (at x t d w (counting final))
    → Inv (at x t d w (after_count high final))
unfolding above
counted_Inv x t d w false true e v = record { kept = v.kept; high = ground arith }
counted_Inv x t d w true true e v = record { kept = v.kept; high = ground (arith, e) }
counted_Inv x t d w final false e v = record { kept = v.kept; high = ground arith }

cleared_Inv :
    (x : TxRing) (t d : Bool) (w : Writer) (final pending : Bool)
    → x.drain_pending ≡ pending
    → Inv (at x t d w (clearing final))
    → Inv (
        after_clear
          (if pending then (true, record x { drain_pending = false }) else (false, x))
          t
          d
          w
          final)
cleared_Inv x t d w final true e v = record { kept = ground arith; high = ground arith }
cleared_Inv x t d w false false e v = record { kept = v.kept; high = ground arith }
cleared_Inv x t d running true false e v = record { kept = ground arith; high = ground arith }
cleared_Inv x t d rechecking true false e v = record { kept = v.kept; high = ground arith }
cleared_Inv x t d waiting true false e v = record {
  kept = v.kept;
  high = ground (arith, v.kept, e);
}

fired_Inv :
    (x : TxRing) (t d : Bool) (w : Writer) (final has_memory : Bool) (now : ℕ)
    → Inv (at x t d w (firing final))
    → Inv (after_fire has_memory now x t d w final)
unfolding fired
fired_Inv x t d w final true now v = record { kept = ground arith; high = ground arith }
fired_Inv x t d w false false now v = record { kept = ground arith; high = ground arith }
fired_Inv x t d w true false now v = record { kept = ground arith; high = ground arith }

Step-Inv : {s t : State} → Inv s → Step s t → Inv t
unfolding clear_armed
Step-Inv v (Step.push x t d w k) = record { kept = v.kept; high = ground (arith, v.high) }
Step-Inv v (Step.arm x t d k now) = record { kept = ground arith; high = ground arith }
Step-Inv v (Step.recheck x t d k) = rechecked_Inv x t d k (above x) refl v
Step-Inv v (Step.arm_other x t d k now) = record { kept = ground arith; high = v.high }
Step-Inv v (Step.wake x d k) = record { kept = ground arith; high = ground arith }
Step-Inv v (Step.hear x d k) = record { kept = ground arith; high = ground arith }
Step-Inv v (Step.pop x t d w) = record { kept = v.kept; high = ground arith }
Step-Inv v (Step.emptied x t d w) = record { kept = v.kept; high = ground arith }
Step-Inv v (Step.load x t d w final) = loaded_Inv x t d w final x.drain_pending refl v
Step-Inv v (Step.count x t d w final) = counted_Inv x t d w final (above x) refl v
Step-Inv v (Step.clear x t d w final) = cleared_Inv x t d w final x.drain_pending refl v
Step-Inv v (Step.fire x t d w final has_memory now) = fired_Inv x t d w final has_memory now v
Step-Inv v (Step.resume x t d w) = record { kept = v.kept; high = ground arith }

Reach-Inv : {s t : State} → Inv s → Reach s t → Inv t
Reach-Inv v Reach.none_yet = v
Reach-Inv v (Reach.then_step r step) = Step-Inv (Reach-Inv v r) step

-- From a running writer, with no event of the signal on its way, and the network thread in its drain loop,
-- however their accesses interleave: when the writer waits, the network thread is out of the loop with the
-- ring at or below low water, and memory was never short for the event, the writer's thread is told.
pub Reach-told :
    (x y : TxRing) (d told : Bool)
    → Reach (at x false d running draining) (at y told false waiting quiet)
    → y.queued ≤ y.low_water
    → told ≡ true
Reach-told x y d told r low =
    let v : Inv (at y told false waiting quiet) =
      Reach-Inv (record { kept = ground arith; high = ground arith }) r in
    ground (arith, v.high, low)

module _ (x : TxRing) (t d : Bool) (w : Writer) (final : Bool) (now : ℕ) where
  -- Where a test of the signal ends that comes to `r`.
  abbrev ended : Bool × TxRing → State
  ended r = at r.1 (r.0 || t) d w (rest final)

  loaded :
      {s : State} (pending : Bool) (r : Bool × TxRing)
      → Reach s (at x t d w (after_load pending final))
      → (Reach s (at x t d w (counting final)) → Reach s (ended r))
      → Reach s (ended (if not pending then (false, x) else r))
  loaded true r here on = on here
  loaded false r here on = here

  counted :
      {s : State} (high : Bool) (r : Bool × TxRing)
      → Reach s (at x t d w (after_count high final))
      → (Reach s (at x t d w (clearing final)) → Reach s (ended r))
      → Reach s (ended (if high then (false, x) else r))
  counted true r here on = here
  counted false r here on = on here

module _ (now : ℕ) where
  -- What follows the exchange.
  abbrev won : Bool × TxRing → Bool × TxRing
  won (b, y) = if not b then (false, y) else (true, fired true now y)

module _ (t d : Bool) (w : Writer) (final : Bool) (now : ℕ) {s : State} where
  cleared :
      (r : Bool × TxRing)
      → Reach s (after_clear r t d w final)
      → Reach s (at (won now r).1 ((won now r).0 || t) d w (rest final))
  cleared (true, y) here = Reach.then_step here (Step.fire y t d w final true now)
  cleared (false, y) here = here

-- The calls are runs of these steps: the arm and its re-check, and the test of the signal, with memory for the
-- event, after a pop as after the loop.
pub calls-Reach :
    (x : TxRing) (t d : Bool) (w : Writer) (k : Worker) (final : Bool) (now : ℕ)
    → let (may_wait, y) = arm_drain_pending now x in
      let (fires, z) = maybe_fire_drained true now x in
      Reach (at x t d running k) (at y t d (after_recheck may_wait) k)
      × Reach (at x t d w (loading final)) (at z (fires || t) d w (rest final))
unfolding arm_drain_pending maybe_fire_drained
calls-Reach x t d w k final now = (
  Reach.then_step (Reach.then_step Reach.none_yet (Step.arm x t d k now))
      (Step.recheck (armed now x) t d k),
  loaded x t d w final now x.drain_pending _
      (Reach.then_step Reach.none_yet (Step.load x t d w final))
      (λ here.
        counted x t d w final now (above x) _ (Reach.then_step here (Step.count x t d w final))
          (λ low.
            cleared t d w final now (clear_armed x)
              (Reach.then_step low (Step.clear x t d w final)))),
)
