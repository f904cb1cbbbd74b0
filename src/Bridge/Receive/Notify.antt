-- ===== src/Bridge/Receive/Notify.antt =====
-- The event of a stream's bytes: its reference, and that at most one of data is outstanding.
use aiopquic.Base.{
  ℕ, ◌+◌, ◌-◌, ◌^◌, ◌≤◌, ◌<◌, ◌≡◌, refl, ap, arith, Bool, true, false, not, ◌||◌, some, List, [],
  ◌∷◌, u32, sub32, ◌==◌, if◌then◌else◌,
}
use aiopquic.StreamCtx.{
  StreamCtx, Counters, ref, destroy, rx_event_pending_arm, rx_event_pending_clear,
}
use aiopquic.Bridge.Receive.{
  Call, stream_data, stream_fin, open_flow_control, rx_push_sc, cleared, Notified, notify,
}

abbrev is_event : Call → ℕ
is_event stream_data = 1
is_event stream_fin = 1
is_event _ = 0

-- How many events of the stream are queued.
abbrev pub events : List Call → ℕ
events [] = 0
events (x ∷ calls) = is_event x + events calls

-- The grants to the peer.
abbrev pub grants : List Call → List ℕ
grants [] = []
grants (open_flow_control n ∷ calls) = n ∷ grants calls
grants (_ ∷ calls) = grants calls

abbrev pub flag : Bool → ℕ
flag b = if b then 1 else 0

pub dropped :
    (sc : StreamCtx) (c : Counters)
    → 1 ≤ sc.refcount
    → sc.refcount < 2 ^ 32 - 1
    → destroy (ref sc) c ≡ (some sc, c)
unfolding destroy ref
dropped sc c some_ref few = rw (shared, back)
  where
    shared : (u32 (sc.refcount + 1) == 1) ≡ false
    shared = ground (arith, some_ref, few)

    back : sub32 (u32 (sc.refcount + 1)) 1 ≡ sc.refcount
    back = omega (arith, some_ref, few)

-- What the notification leaves of a context.
pub record IsTold (fin queued : Bool) (sc : StreamCtx) (n : Notified) : Type 0 where
  pub after : StreamCtx
  pub there : n.kept.0 ≡ some after
  pub rx : after.rx ≡ sc.rx
  pub refs : after.refcount ≡ sc.refcount + events n.events
  pub pending :
      flag after.rx_event_pending ≡ flag sc.rx_event_pending + (if fin then 0 else events n.events)
  pub heard : (not queued || fin || after.rx_event_pending) ≡ true
  pub no_grant : grants n.events ≡ []
  pub ended : (not fin || (events n.events == flag queued)) ≡ true

module _ (sc : StreamCtx) (c : Counters) (some_ref : 1 ≤ sc.refcount)
    (few : sc.refcount < 2 ^ 32 - 1) where
  fin_told : (queued : Bool) → IsTold true queued sc (notify true queued sc c)
  unfolding notify rx_push_sc ref
  fin_told true = record {
    after = ref sc;
    there = refl;
    rx = refl;
    refs = omega (arith, few);
    pending = ground arith;
    heard = ground arith;
    no_grant = refl;
    ended = ground arith;
  }
  fin_told false = record {
    after = sc;
    there = ap (λ p. p.0) (dropped sc c some_ref few);
    rx = refl;
    refs = omega arith;
    pending = ground arith;
    heard = ground arith;
    no_grant = refl;
    ended = ground arith;
  }

  armed : StreamCtx
  armed = record sc { rx_event_pending = true }

  -- What `notify` does when the flag is `waiting`.
  abbrev for_data : Bool → Bool → Notified
  for_data waiting queued =
      if not (not waiting)
      then record { events = []; kept = (some armed, c) }
      else if queued
      then record { events = stream_data ∷ []; kept = rx_push_sc true armed c }
      else record {
        events = [];
        kept = (cleared (rx_push_sc false armed c).0, (rx_push_sc false armed c).1);
      }

  for_data_told :
      (waiting queued : Bool)
      → sc.rx_event_pending ≡ waiting
      → IsTold false queued sc (for_data waiting queued)
  unfolding rx_push_sc ref armed rx_event_pending_clear
  for_data_told true queued e = record {
    after = armed;
    there = refl;
    rx = refl;
    refs = omega arith;
    pending = ground arith;
    heard = ground arith;
    no_grant = refl;
    ended = ground arith;
  }
  for_data_told false true e = record {
    after = ref armed;
    there = refl;
    rx = refl;
    refs = omega (arith, few);
    pending = ground arith;
    heard = ground arith;
    no_grant = refl;
    ended = ground arith;
  }
  for_data_told false false e = record {
    after = record armed { rx_event_pending = false };
    there = ap (λ p. cleared p.0) (dropped armed c some_ref few);
    rx = refl;
    refs = omega arith;
    pending = ground arith;
    heard = ground arith;
    no_grant = refl;
    ended = ground arith;
  }

  data_told : (queued : Bool) → IsTold false queued sc (notify false queued sc c)
  unfolding notify rx_event_pending_arm armed
  data_told queued = for_data_told sc.rx_event_pending queued refl

  pub notify_lem : (fin queued : Bool) → IsTold fin queued sc (notify fin queued sc c)
  notify_lem true queued = fin_told queued
  notify_lem false queued = data_told queued
