-- ===== src/Bridge/Wake/Reached.antt =====
-- No wake-up of asyncio is lost: whenever both threads rest and an entry is queued, the descriptor that
-- asyncio waits for is readable.
use aiopquic.Base.{ℕ, ◌+◌, ◌<◌, ◌≡◌, refl, arith, Bool, true, false, not, ◌||◌, ltb}
use aiopquic.Bridge.Wake.{
  WakeFd, Rx, notify_flip, notify_write, clear_read, clear_flag, must_rearm, clear_rearm,
  clear_trace,
}
use aiopquic.Bridge.Wake.Steps.{
  Producer, resting, published, flipped, Consumer, waiting, draining, emptied, lowered, looked,
  rearming, after_flip, State, at, after_look, Step, Reach,
}

abbrev is_flipped : Producer → Bool
is_flipped resting = false
is_flipped published = false
is_flipped flipped = true

abbrev is_published : Producer → Bool
is_published resting = false
is_published published = true
is_published flipped = false

abbrev is_emptied : Consumer → Bool
is_emptied waiting = false
is_emptied draining = false
is_emptied (emptied got) = true
is_emptied (lowered got flags) = false
is_emptied (looked got flags left) = false
is_emptied (rearming got flags left) = false

-- An entry in the ring is still seen, or seen already.
abbrev sees_ring : Consumer → Bool
sees_ring waiting = false
sees_ring draining = true
sees_ring (emptied got) = true
sees_ring (lowered got flags) = true
sees_ring (looked got flags left) = ltb 0 left
sees_ring (rearming got flags left) = true

abbrev sees_overflow : Consumer → Bool
sees_overflow waiting = false
sees_overflow draining = true
sees_overflow (emptied got) = true
sees_overflow (lowered got flags) = true
sees_overflow (looked got flags left) = true
sees_overflow (rearming got flags left) = true

module _ (F : WakeFd) where
  -- The flag is up only with a wake-up to come, and an entry that asyncio does not see any more has one.
  record Inv (s : State F) : Type 0 where
    raised :
        (not s.rx.rx_notify_pending
          || F.readable s.rx.fd
          || is_flipped s.producer
          || is_emptied s.consumer)
        ≡ true
    in_ring :
        (not (ltb 0 s.rx.left)
          || s.rx.rx_notify_pending
          || F.readable s.rx.fd
          || is_published s.producer
          || sees_ring s.consumer)
        ≡ true
    in_overflow :
        (not (ltb 0 s.rx.depth)
          || s.rx.rx_notify_pending
          || F.readable s.rx.fd
          || is_published s.producer
          || sees_overflow s.consumer)
        ≡ true

  after_flip_raised :
      (up r e : Bool)
      → (not up || r || false || e) ≡ true
      → (not true || r || is_flipped (after_flip up) || e) ≡ true
  after_flip_raised true r e h = ground (arith, h)
  after_flip_raised false r e h = ground arith

  looked_Inv :
      (now got flags left : ℕ) (x : Rx F) (p : Producer)
      → Inv (at F x p (looked got flags left))
      → (more : Bool) → must_rearm F left x ≡ more
      → Inv (after_look F more now got flags left x p)
  unfolding must_rearm clear_trace
  looked_Inv now got flags left x p v true e = record {
    raised = ground (arith, v.raised);
    in_ring = ground arith;
    in_overflow = ground arith;
  }
  looked_Inv now got flags left x p v false e = record {
    raised = ground (arith, v.raised);
    in_ring = ground (arith, v.in_ring, e);
    in_overflow = ground (arith, e);
  }

  Step-Inv : {s t : State F} → Inv s → Step F s t → Inv t
  unfolding notify_flip notify_write clear_read clear_flag must_rearm clear_rearm clear_trace
  Step-Inv v (Step.push_ring x c) = record {
    raised = ground (arith, v.raised);
    in_ring = ground arith;
    in_overflow = ground arith;
  }
  Step-Inv v (Step.push_overflow x c) = record {
    raised = ground (arith, v.raised);
    in_ring = ground arith;
    in_overflow = ground arith;
  }
  Step-Inv v (Step.flip x c) = record {
    raised = after_flip_raised x.rx_notify_pending (F.readable x.fd) (is_emptied c) v.raised;
    in_ring = ground arith;
    in_overflow = ground arith;
  }
  Step-Inv v (Step.notify now x c) = record {
    raised = ground (arith, F.write-readable x.fd);
    in_ring = ground (arith, F.write-readable x.fd);
    in_overflow = ground (arith, F.write-readable x.fd);
  }
  Step-Inv v (Step.wake x p) = record {
    raised = ground (arith, v.raised);
    in_ring = ground arith;
    in_overflow = ground arith;
  }
  Step-Inv v (Step.take x p) = record {
    raised = ground (arith, v.raised);
    in_ring = ground arith;
    in_overflow = ground arith;
  }
  Step-Inv v (Step.refill k x p h) = record {
    raised = ground (arith, v.raised);
    in_ring = ground arith;
    in_overflow = ground arith;
  }
  Step-Inv v (Step.empty x p) = record {
    raised = ground arith;
    in_ring = ground arith;
    in_overflow = ground arith;
  }
  Step-Inv v (Step.lower got x p) = record {
    raised = ground arith;
    in_ring = ground arith;
    in_overflow = ground arith;
  }
  Step-Inv v (Step.look_ring got flags x p) = record {
    raised = ground (arith, v.raised);
    in_ring = ground (arith, v.in_ring);
    in_overflow = ground arith;
  }
  Step-Inv v (Step.look_overflow now got flags left x p) =
      looked_Inv now got flags left x p v (must_rearm F left x) refl
  Step-Inv v (Step.rearm now got flags left x p) = record {
    raised = ground (arith, F.write-readable x.fd);
    in_ring = ground (arith, F.write-readable x.fd);
    in_overflow = ground (arith, F.write-readable x.fd);
  }

  Reach-Inv : {s t : State F} → Inv s → Reach F s t → Inv t
  Reach-Inv v Reach.none_yet = v
  Reach-Inv v (Reach.then_step r step) = Step-Inv (Reach-Inv v r) step

  -- From a start at rest with nothing queued and the flag down, however the accesses of the network
  -- thread and of asyncio interleave: whenever the network thread is done with a push and asyncio waits,
  -- an entry in the ring or in the overflow makes the descriptor readable.
  pub Reach-readable :
      (x y : Rx F)
      → x.left ≡ 0
      → x.depth ≡ 0
      → x.rx_notify_pending ≡ false
      → Reach F (at F x resting waiting) (at F y resting waiting)
      → 0 < y.left + y.depth
      → F.readable y.fd ≡ true
  Reach-readable x y no_ring no_overflow down r queued =
      let v : Inv (at F y resting waiting) =
        Reach-Inv
          (record {
            raised = ground (arith, down);
            in_ring = ground (arith, no_ring);
            in_overflow = ground (arith, no_overflow);
          })
          r in
      ground (arith, v.raised, v.in_ring, v.in_overflow, queued)
