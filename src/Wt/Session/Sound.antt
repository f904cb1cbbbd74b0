-- ===== src/Wt/Session/Sound.antt =====
-- What every step of a session keeps to: its end is told at most once, its flags are not taken back, and
-- no deadline is armed before the teardown is done.
use aiopquic.Base.{
  ℕ, ◌+◌, ◌≤◌, ◌≡◌, ◌≢◌, refl, arith, Bool, true, false, not, ◌||◌, Bool-cases, inl, inr, Option,
  none, some, List, [], ◌∷◌, ◌++◌, ltb, ◌==◌, if◌then◌else◌,
}
use aiopquic.SpscRing.Events.{EventType, wt_session_closed}
use aiopquic.Wt.Session.{
  Session, Event, Action, push, set_app_wake_time, Cnx, closed, uncount_session, delete_prefix,
  reset_stream, after, also, sooner, close_at, maybe_close_cnx, peer_fin, fin_sent, drop_retry,
}
use aiopquic.Wt.Session.Handlers.{
  Stream, reconnect, retry_connect, released, unless_retry, may_retry,
}
use aiopquic.Wt.Session.Commands.{while_open}
use aiopquic.Wt.Session.Run.{ends, closes, flag, torn_down, guarded, is_end}

-- What a handler keeps to.
pub record IsSound (s : Session) (r : Session × List Action) : Type 0 where
  pub told : ends r.1 + flag s.session_closing ≤ flag r.0.session_closing
  pub kept : (not (torn_down s) || torn_down r.0) ≡ true
  pub armed : (not (guarded s) || guarded r.0) ≡ true
  pub shut : (not (guarded s) || not (closes r.1) || torn_down r.0) ≡ true

pub ends-append : (a b : List Action) → ends (a ++ b) ≡ ends a + ends b
ends-append [] b = omega arith
ends-append (x ∷ a) b = omega (arith, ends-append a b)

pub closes-append : (a b : List Action) → closes (a ++ b) ≡ (closes a || closes b)
closes-append [] b = refl
closes-append (x ∷ a) b = ground (arith, closes-append a b)

pub also-IsSound :
    {s : Session} (pre : List Action) (r : Session × List Action)
    → ends pre ≡ 0
    → closes pre ≡ false
    → IsSound s r
    → IsSound s (also pre r)
also-IsSound pre (t, more) none_told none_closed v = record {
  told = omega (arith, ends-append pre more, none_told, v.told);
  kept = v.kept;
  armed = v.armed;
  shut = ground (arith, closes-append pre more, none_closed, v.shut);
}

pub after-IsSound :
    {s : Session} (r : Session × List Action) (f : Session → Session × List Action)
    → IsSound s r
    → IsSound r.0 (f r.0)
    → IsSound s (after r f)
after-IsSound {s} (t, actions) f v w = record {
  told = omega (arith, ends-append actions (f t).1, v.told, w.told);
  kept = ground (arith, v.kept, w.kept);
  armed = ground (arith, v.armed, w.armed);
  shut = ground (arith, closes-append actions (f t).1, v.shut, w.shut, v.armed, w.kept);
}

-- A handler that tells no end, closes nothing and keeps the deadline.
pub still-IsSound :
    (s t : Session) (actions : List Action)
    → ends actions ≡ 0
    → closes actions ≡ false
    → (not s.session_closing || t.session_closing) ≡ true
    → t.close_deadline ≡ s.close_deadline
    → (not (torn_down s) || torn_down t) ≡ true
    → IsSound s (t, actions)
still-IsSound s t actions none_told none_closed closing same down = record {
  told = ground (arith, none_told, closing);
  kept = down;
  armed = ground (arith, same, down);
  shut = ground (arith, none_closed);
}

true-ne_false : true ≢ false
true-ne_false e = cc (e)

pub or_not : (b : Bool) → (not b || b) ≡ true
or_not b = ground arith

pub unchanged-IsSound :
    (s : Session) (actions : List Action)
    → ends actions ≡ 0
    → closes actions ≡ false
    → IsSound s (s, actions)
unchanged-IsSound s actions none_told none_closed =
    still-IsSound s s actions none_told none_closed (or_not s.session_closing) refl
      (or_not (torn_down s))

is_end-le : (e : EventType) → is_end e ≤ 1
is_end-le wt_session_closed = omega arith
is_end-le _ = omega arith

pub closed-IsSound : (s : Session) (e : Event) → IsSound s (closed s (push e))
unfolding closed
closed-IsSound s e = by_flag s.session_closing refl
  where
    by_flag :
        (closing : Bool)
        → s.session_closing ≡ closing
        → IsSound s (record s { session_closing = true }, if closing then [] else push e ∷ [])
    by_flag true already = still-IsSound s _ [] refl refl (ground arith) refl (or_not (torn_down s))
    by_flag false first = record {
      told = ground (arith, first, is_end-le e.event_type);
      kept = or_not (torn_down s);
      armed = ground arith;
      shut = ground arith;
    }

pub maybe_close_cnx-IsSound : (s : Session) (cnx : Option Cnx) → IsSound s (maybe_close_cnx s cnx)
unfolding maybe_close_cnx
maybe_close_cnx-IsSound s none = unchanged-IsSound s [] refl refl
maybe_close_cnx-IsSound s (some cnx) =
    by_test (not cnx.is_client || not s.fin_sent || not s.cleanup_done) refl
  where
    by_room :
        (at : ℕ) (room : Bool)
        → torn_down s ≡ true
        → IsSound s (
            if room then (record s { close_deadline = at }, set_app_wake_time at ∷ []) else (s, []))
    by_room at true down = record {
      told = omega arith;
      kept = or_not (torn_down s);
      armed = ground (arith, down);
      shut = ground arith;
    }
    by_room at false down = unchanged-IsSound s [] refl refl

    by_test :
        (early : Bool)
        → (not cnx.is_client || not s.fin_sent || not s.cleanup_done) ≡ early
        → IsSound s (if early then (s, []) else sooner s (close_at s cnx.now))
    by_test true e = unchanged-IsSound s [] refl refl
    by_test false e =
        by_room (close_at s cnx.now)
          ((s.close_deadline == 0) || ltb (close_at s cnx.now) s.close_deadline) (ground (arith, e))

pub then-IsSound :
    {s t : Session} (r : Session × List Action) → IsSound s (t, []) → IsSound t r → IsSound s r
then-IsSound r v w = record {
  told = omega (arith, v.told, w.told);
  kept = ground (arith, v.kept, w.kept);
  armed = ground (arith, v.armed, w.armed);
  shut = ground (arith, w.shut, v.armed);
}

pub peer_fin-IsSound : (s : Session) (cnx : Option Cnx) → IsSound s (peer_fin s cnx)
unfolding peer_fin
peer_fin-IsSound s cnx =
    let t = record s { peer_fin = true } in
    then-IsSound (maybe_close_cnx t cnx)
      (still-IsSound s t [] refl refl (or_not s.session_closing) refl (or_not (torn_down s)))
      (maybe_close_cnx-IsSound t cnx)

pub fin_sent-IsSound : (s : Session) (cnx : Option Cnx) → IsSound s (fin_sent s cnx)
unfolding fin_sent
fin_sent-IsSound s cnx =
    let t = record s { fin_sent = true; session_closing = true } in
    then-IsSound (maybe_close_cnx t cnx)
      (still-IsSound s t [] refl refl (ground arith) refl (ground arith))
      (maybe_close_cnx-IsSound t cnx)

-- Actions of which a test decides whether they are there.
pub quiet_if :
    (b : Bool) (actions : List Action)
    → ends actions ≡ 0
    → closes actions ≡ false
    → (ends (if b then actions else []) ≡ 0) × (closes (if b then actions else []) ≡ false)
quiet_if true actions e c = (e, c)
quiet_if false actions e c = (refl, refl)

reconnect-IsSound :
    (control : Option Stream) (sent : Bool) (s : Session) → IsSound s (reconnect control sent s)
unfolding drop_retry
reconnect-IsSound none sent s =
    still-IsSound s _ _ refl refl (or_not s.session_closing) refl (or_not (torn_down s))
reconnect-IsSound (some control) true s =
    still-IsSound s _ _ refl refl (or_not s.session_closing) refl (or_not (torn_down s))
reconnect-IsSound (some control) false s =
    still-IsSound s _ _ refl refl (or_not s.session_closing) refl (or_not (torn_down s))

retry_connect-IsSound :
    (control : Option Stream) (sent : Bool) (stream : Stream) (s : Session)
    → IsSound s (retry_connect control sent stream s)
unfolding retry_connect
retry_connect-IsSound control sent stream s =
    let t = released s stream in
    let r = reconnect control sent t in
    also-IsSound
      (uncount_session ∷ delete_prefix s.control_stream_id ∷ reset_stream s.control_stream_id ∷ [])
      r refl refl
      (then-IsSound r
        (still-IsSound s t [] refl refl (or_not s.session_closing) refl (or_not (torn_down s)))
        (reconnect-IsSound control sent t))

pub unless_retry-IsSound :
    (enabled : Bool) (stream control : Option Stream) (sent : Bool)
    (refused : Session × List Action) (s : Session)
    → IsSound s refused
    → IsSound s (unless_retry enabled stream control sent refused s)
unfolding unless_retry
unless_retry-IsSound enabled none control sent refused s v = v
unless_retry-IsSound enabled (some stream) control sent refused s v =
    elim (Bool-cases (may_retry enabled (some stream) s)) [
      | inl again ↦ rw again (retry_connect-IsSound control sent stream s)
      | inr no_more ↦ rw no_more v
    ]

pub while_open-IsSound :
    (s : Session) (r : Session × List Action) → IsSound s r → IsSound s (while_open s r)
while_open-IsSound s r v = by_pointers s.cnx s.control_stream
  where
    by_pointers :
        (cnx control : Option ℕ)
        → IsSound s
            (elim cnx [ none ↦ (s, []) | some c ↦ elim control [ none ↦ (s, []) | some x ↦ r ] ])
    by_pointers none control = unchanged-IsSound s [] refl refl
    by_pointers (some c) none = unchanged-IsSound s [] refl refl
    by_pointers (some c) (some x) = v
