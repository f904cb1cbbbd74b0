-- ===== src/Tests/Arrivals.antt =====
-- Bytes that arrive, at concrete inputs: a ring of eight bytes that holds three.
use aiopquic.Base.{
  ℕ, ◌+◌, ◌-◌, ◌≡◌, ◌≤◌, ◌<◌, refl, arith, true, false, not, ◌&&◌, ◌||◌, some, List, [], ◌∷◌, ◌++◌,
  length, ltb, ◌==◌, if◌then◌else◌,
}
use aiopquic.Base.Circular.{window}
use aiopquic.StreamBuf.{StreamBuf}
use aiopquic.StreamBuf.Valid.{IsValid, contents}
use aiopquic.StreamCtx.{StreamCtx, ensure}
use aiopquic.Bridge.Receive.{Around, advertise_cap, is_first, receive_on}
use aiopquic.Bridge.Receive.Notify.{events, flag, grants}
use aiopquic.Bridge.Receive.Whole.{receive_lem, receive_events, receive_grants, receive_overflow}
use aiopquic.Wt.Streams.{announced, link_receive}
use aiopquic.Wt.Streams.Arrive.{announcements, told_of, link_receive_lem}
use aiopquic.Tests.Streams.{eight, eight-IsValid, stream, counters}

-- The ring is made by the first bytes: malloc gives `eight`.
abbrev around : Around
around = record {
  rx_data_ring_cap = 0;
  window = 4;
  make = λ cap. some eight;
  calloc_ok = true;
  queued = true;
}

abbrev three : List ℕ
three = 1 ∷ 2 ∷ 3 ∷ []

abbrev six : List ℕ
six = 1 ∷ 2 ∷ 3 ∷ 4 ∷ 5 ∷ 6 ∷ []

three_fit : length three ≤ eight.capacity - length (contents eight)
unfolding window
three_fit = omega arith

six_overflow : eight.capacity - length (contents eight) < length six
unfolding window
six_overflow = omega arith

made : ensure around.make (advertise_cap around) stream.rx ≡ some eight
unfolding ensure
made = refl

receive_lem_example :
    let r = receive_on around true three stream counters in
    (after : StreamCtx) × (ring : StreamBuf) × (r.is_ok ≡ true)
    × (r.sc ≡ some after)
    × (after.rx ≡ some ring)
    × (contents ring ≡ contents eight ++ three)
    × (ring.fin_pending ≡ (true || eight.fin_pending))
    × (after.refcount ≡ stream.refcount + events r.calls)
    × IsValid ring
receive_lem_example =
    receive_lem around true three stream counters made eight-IsValid (omega arith) (omega arith)
      (omega arith) three_fit (omega arith) (omega arith)

receive_events_example :
    let r = receive_on around false three stream counters in
    (after : StreamCtx) × (r.sc ≡ some after)
    × (flag after.rx_event_pending
        ≡ flag stream.rx_event_pending + (if false then 0 else events r.calls))
    × ((not around.queued || false || after.rx_event_pending) ≡ true)
    × ((not false || (events r.calls == flag around.queued)) ≡ true)
receive_events_example =
    receive_events around false three stream counters made eight-IsValid (omega arith) (omega arith)
      (omega arith) three_fit (omega arith) (omega arith)

receive_grants_example : grants (receive_on around false three stream counters).calls ≡ (
    if is_first stream && not false && ltb around.window (advertise_cap around)
    then (eight.capacity - length (contents eight ++ three)) ∷ []
    else [])
receive_grants_example =
    receive_grants around false three stream counters made eight-IsValid (omega arith) (omega arith)
      (omega arith) three_fit (omega arith) (omega arith)

receive_overflow_example :
    let r = receive_on around false six stream counters in
    (after : StreamCtx) × (r.is_ok ≡ false)
    × (events r.calls ≡ 0)
    × (grants r.calls ≡ [])
    × (r.sc ≡ some after)
    × (after.refcount ≡ stream.refcount)
    × (after.rx_event_pending ≡ stream.rx_event_pending)
receive_overflow_example =
    receive_overflow around false six stream counters made eight-IsValid (omega arith) (omega arith)
      six_overflow

link_receive_lem_example :
    let r = link_receive around true false true three stream counters in
    (after : StreamCtx) × (ring : StreamBuf) × (r.is_ok ≡ true)
    × (r.sc ≡ some after)
    × (after.rx ≡ some ring)
    × (contents ring ≡ contents eight ++ three)
    × (ring.fin_pending ≡ (false || eight.fin_pending))
    × (after.refcount ≡ stream.refcount)
    × (announcements r.calls
        ≡ announced true true ++ told_of false around.queued stream.rx_event_pending)
    × (after.rx_event_pending ≡ (stream.rx_event_pending || (not false && around.queued)))
    × IsValid ring
link_receive_lem_example =
    link_receive_lem around true false true three stream counters made eight-IsValid (omega arith)
      (omega arith) three_fit
