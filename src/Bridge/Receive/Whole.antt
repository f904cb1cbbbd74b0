-- ===== src/Bridge/Receive/Whole.antt =====
-- What the stack's bytes come to as a whole: the ring, the FIN, the references, the event and the grant.
use aiopquic.Base.{
  ℕ, ◌+◌, ◌-◌, ◌^◌, ◌≤◌, ◌<◌, ◌≡◌, refl, sym, ap, ap₂, ◌∙◌, arith, Bool, true, false, not, ◌&&◌,
  ◌||◌, some, List, [], ◌∷◌, ◌++◌, append-nil, length, take, take_all, u32, ltb, ◌==◌,
  if◌then◌else◌,
}
use aiopquic.Base.Pow2.{IsPow2-bounds}
use aiopquic.StreamBuf as Buf
use aiopquic.StreamBuf.{StreamBuf}
use aiopquic.StreamBuf.Valid.{IsValid, contents, length-contents}
use aiopquic.StreamBuf.Push.{push_lem}
use aiopquic.StreamCtx.{StreamCtx, Counters, ref, ensure}
use aiopquic.StreamCtx.Life.{used-eq}
use aiopquic.StreamCtx.Send.{
  with_fin-IsValid, contents-with_fin, fin_pending-with_fin, fin_pending-push,
}
use aiopquic.Bridge.Receive.{
  Call, set_app_stream_ctx, new_stream, open_flow_control, set_app_flow_control, stream_data,
  stream_fin, Around, advertise_cap, is_first, opening, room, grant, notify, rx_push_sc, push_frame,
  receive_on,
}
use aiopquic.Bridge.Receive.Notify.{events, grants, flag, dropped, IsTold, notify_lem}
use aiopquic.Bridge.Receive.Bytes.{
  fits, counted, filled, before, accepted_as, receive_on-eq, receive_refused, grant-keeps,
  events-append, events-opening,
}

grants-append : (xs ys : List Call) → grants (xs ++ ys) ≡ grants xs ++ grants ys
grants-append [] ys = refl
grants-append (open_flow_control n ∷ xs) ys = ap (λ l. n ∷ l) (grants-append xs ys)
grants-append (set_app_stream_ctx ∷ xs) ys = grants-append xs ys
grants-append (set_app_flow_control ∷ xs) ys = grants-append xs ys
grants-append (new_stream ∷ xs) ys = grants-append xs ys
grants-append (stream_data ∷ xs) ys = grants-append xs ys
grants-append (stream_fin ∷ xs) ys = grants-append xs ys

grants-opening : (first : Bool) → grants (opening first) ≡ []
grants-opening true = refl
grants-opening false = refl

grants-grant :
    (a : Around) (first fin : Bool) (sc : StreamCtx)
    → grants (grant a first fin sc).0
      ≡ (if first && not fin && ltb a.window (advertise_cap a) then room sc ∷ [] else [])
unfolding grant
grants-grant a false fin sc = refl
grants-grant a true fin sc = by_test (not fin && ltb a.window (advertise_cap a))
  where
    by_test :
        (b : Bool)
        → grants (if b then open_flow_control (room sc) ∷ [] else [])
          ≡ (if b then room sc ∷ [] else [])
    by_test true = refl
    by_test false = refl

capacity-filled :
    (sb : StreamBuf) (bytes : List ℕ) (fin : Bool) → (filled sb bytes fin).capacity ≡ sb.capacity
unfolding Buf.push Buf.push_at Buf.set_fin
capacity-filled sb bytes true = ground arith
capacity-filled sb bytes false = ground arith

free-eq : {sb : StreamBuf} → IsValid sb → Buf.free sb ≡ sb.capacity - length (contents sb)
unfolding Buf.free
free-eq {sb} v = omega (arith, used-eq v, length-contents sb, v.room, v.order, IsPow2-bounds v.pow2)

pub filled-IsValid :
    (bytes : List ℕ) (fin : Bool) {sb : StreamBuf}
    → IsValid sb
    → length bytes < 2 ^ 32
    → sb.tail + length bytes < 2 ^ 64
    → fits sb bytes ≡ true
    → (contents (filled sb bytes fin) ≡ contents sb ++ bytes)
      × ((filled sb bytes fin).fin_pending ≡ (fin || sb.fin_pending))
      × IsValid (filled sb bytes fin)
filled-IsValid bytes fin {sb} v short word ok =
    let (n, sb') = Buf.push sb bytes in
    let (count, held, tail, valid) = push_lem bytes v short word in
    let whole : take n bytes ≡ bytes = take_all n bytes (ground (arith, ok, count)) in
    (
      contents-with_fin fin sb' ∙ held ∙ ap (λ b. contents sb ++ b) whole,
      fin_pending-with_fin fin sb' ∙ ap (λ b. fin || b) (fin_pending-push sb bytes),
      with_fin-IsValid fin valid,
    )

module _ (a : Around) (fin : Bool) (bytes : List ℕ) (sc : StreamCtx) {sb : StreamBuf} (c : Counters)
    (there : ensure a.make (advertise_cap a) sc.rx ≡ some sb) (v : IsValid sb)
    (short : length bytes < 2 ^ 32) (word : sb.tail + length bytes < 2 ^ 64)
    (some_bytes : 0 < length bytes) (ok : length bytes ≤ sb.capacity - length (contents sb))
    (some_ref : 1 ≤ sc.refcount) (few : sc.refcount < 2 ^ 32 - 1) where
  room_enough : fits sb bytes ≡ true
  room_enough = ground (arith, ok)

  ready : StreamCtx
  ready = (before a fin sc sb bytes).1

  told : IsTold fin a.queued ready (notify fin a.queued ready (counted sb bytes c))
  unfolding ready
  told =
      let (rx, refs, pending, none_yet) =
        grant-keeps a (is_first sc) fin (record sc { rx = some (filled sb bytes fin) }) in
      notify_lem ready (counted sb bytes c) (omega (arith, refs, some_ref))
        (omega (arith, refs, few)) fin a.queued

  accepted_lem :
      let r = accepted_as a fin sc sb bytes c in
      (r.sc ≡ some told.after)
      × (told.after.rx ≡ some (filled sb bytes fin))
      × (told.after.refcount ≡ sc.refcount + events r.calls)
      × (flag told.after.rx_event_pending
          ≡ flag sc.rx_event_pending + (if fin then 0 else events r.calls))
      × ((not a.queued || fin || told.after.rx_event_pending) ≡ true)
      × ((not fin || (events r.calls == flag a.queued)) ≡ true)
  unfolding ready
  accepted_lem =
      let start = record sc { rx = some (filled sb bytes fin) } in
      let n = notify fin a.queued ready (counted sb bytes c) in
      let granted = (grant a (is_first sc) fin start).0 in
      let (rx, refs, pending, none_yet) = grant-keeps a (is_first sc) fin start in
      let count : events (opening (is_first sc) ++ granted ++ n.events) ≡ events n.events = omega (
        arith,
        events-append (opening (is_first sc) ++ granted) n.events,
        events-append (opening (is_first sc)) granted,
        none_yet,
        events-opening (is_first sc),
      ) in
      (
        told.there,
        told.rx ∙ rx,
        omega (arith, count, told.refs, refs),
        told.pending ∙ ap₂ (λ p k. flag p + (if fin then 0 else k)) pending (sym count),
        told.heard,
        ap (λ k. not fin || (k == flag a.queued)) count ∙ told.ended,
      )

  accepted-grants : grants (accepted_as a fin sc sb bytes c).calls ≡ (
      if is_first sc && not fin && ltb a.window (advertise_cap a)
      then (sb.capacity - length (contents sb ++ bytes)) ∷ []
      else [])
  unfolding ready
  accepted-grants =
      let start = record sc { rx = some (filled sb bytes fin) } in
      let n = notify fin a.queued ready (counted sb bytes c) in
      let granted = (grant a (is_first sc) fin start).0 in
      let (held, ended, valid) = filled-IsValid bytes fin v short word room_enough in
      let free : Buf.free (filled sb bytes fin) ≡ sb.capacity - length (contents sb ++ bytes) =
        free-eq valid ∙ ap₂ (λ x y. x - length y) (capacity-filled sb bytes fin) held in
      grants-append (opening (is_first sc) ++ granted) n.events
      ∙ ap₂ (λ x y. x ++ y) (grants-append (opening (is_first sc)) granted) told.no_grant
      ∙ append-nil _
      ∙ ap₂ (λ x y. x ++ y) (grants-opening (is_first sc)) (grants-grant a (is_first sc) fin start)
      ∙ ap (λ x. if is_first sc && not fin && ltb a.window (advertise_cap a) then x ∷ [] else [])
          free

  -- At least one and less than 2^32 bytes of a stream, before 2^64 of them, whose ring is there or made, and is
  -- valid, and which fit the ring, the context having from 1 to 2^32 - 2 references: they are accepted, stand
  -- in order behind those that the ring held, the FIN is set if they end the stream, the ring stays valid,
  -- and there are as many references more as events are queued.
  pub receive_lem :
      let r = receive_on a fin bytes sc c in
      (after : StreamCtx) × (ring : StreamBuf) × (r.is_ok ≡ true)
      × (r.sc ≡ some after)
      × (after.rx ≡ some ring)
      × (contents ring ≡ contents sb ++ bytes)
      × (ring.fin_pending ≡ (fin || sb.fin_pending))
      × (after.refcount ≡ sc.refcount + events r.calls)
      × IsValid ring
  receive_lem =
      let (held, ended, valid) = filled-IsValid bytes fin v short word room_enough in
      let (there', rx, refs, pending, heard, counts) = accepted_lem in
      rw (receive_on-eq a fin bytes sc c there v short word some_bytes room_enough)
        (told.after, filled sb bytes fin, refl, there', rx, held, ended, refs, valid)

  -- For bytes that are accepted, under the conditions of `receive_lem`: the flag is up exactly as often as an
  -- event of data is outstanding, at most one of them; it is up after bytes that do not end the stream,
  -- where there is memory for an event; and bytes that end the stream queue an event, where there is.
  pub receive_events :
      let r = receive_on a fin bytes sc c in
      (after : StreamCtx) × (r.sc ≡ some after)
      × (flag after.rx_event_pending
          ≡ flag sc.rx_event_pending + (if fin then 0 else events r.calls))
      × ((not a.queued || fin || after.rx_event_pending) ≡ true)
      × ((not fin || (events r.calls == flag a.queued)) ≡ true)
  receive_events =
      let (there', rx, refs, pending, heard, counts) = accepted_lem in
      rw (receive_on-eq a fin bytes sc c there v short word some_bytes room_enough)
        (told.after, there', pending, heard, counts)

  -- For bytes that are accepted, under the conditions of `receive_lem`: the peer is granted more only with the
  -- first bytes of a stream, which do not end it and whose window is below the cap, and then just the
  -- bytes that the ring still has room for.
  pub receive_grants : grants (receive_on a fin bytes sc c).calls ≡ (
      if is_first sc && not fin && ltb a.window (advertise_cap a)
      then (sb.capacity - length (contents sb ++ bytes)) ∷ []
      else [])
  receive_grants =
      ap (λ r. grants r.calls)
        (receive_on-eq a fin bytes sc c there v short word some_bytes room_enough)
      ∙ accepted-grants

module _ (a : Around) (fin : Bool) (bytes : List ℕ) (sc : StreamCtx) {sb : StreamBuf} (c : Counters)
    (there : ensure a.make (advertise_cap a) sc.rx ≡ some sb) (v : IsValid sb)
    (short : length bytes < 2 ^ 32) (word : sb.tail + length bytes < 2 ^ 64) where
  -- Less than 2^32 bytes of a stream, before 2^64 of them, that do not fit the ring, which is valid: an error is
  -- returned, no event is queued, nothing granted, and no reference or event flag changes.
  pub receive_overflow :
      sb.capacity - length (contents sb) < length bytes
      → let r = receive_on a fin bytes sc c in
        (after : StreamCtx) × (r.is_ok ≡ false)
        × (events r.calls ≡ 0)
        × (grants r.calls ≡ [])
        × (r.sc ≡ some after)
        × (after.refcount ≡ sc.refcount)
        × (after.rx_event_pending ≡ sc.rx_event_pending)
  receive_overflow over = rw (receive_refused a fin bytes sc c there v short word over) (
    record sc { rx = some (Buf.push sb bytes).1 },
    refl,
    events-opening (is_first sc),
    grants-opening (is_first sc),
    refl,
    refl,
    refl,
  )

pushed-refs :
    (sc : StreamCtx) (c : Counters)
    → 1 ≤ sc.refcount
    → sc.refcount < 2 ^ 32 - 1
    → (queued fin : Bool)
    → let calls = if queued then (if fin then stream_fin else stream_data) ∷ [] else [] in
      (rx_push_sc queued sc c).0 ≡ some (record sc { refcount = sc.refcount + events calls })
unfolding rx_push_sc ref
pushed-refs sc c some_ref few true true =
    let one_more : u32 (sc.refcount + 1) ≡ sc.refcount + 1 = omega (arith, few) in
    ap (λ n. some (record sc { refcount = n })) one_more
pushed-refs sc c some_ref few true false =
    let one_more : u32 (sc.refcount + 1) ≡ sc.refcount + 1 = omega (arith, few) in
    ap (λ n. some (record sc { refcount = n })) one_more
pushed-refs sc c some_ref few false fin =
    let same : sc.refcount ≡ sc.refcount + 0 = omega arith in
    ap (λ p. p.0) (dropped sc c some_ref few) ∙ ap (λ n. some (record sc { refcount = n })) same

-- A frame without bytes, whether or not it ends the stream, for a context that has from 1 to 2^32 - 2
-- references: its event is queued where there is memory, with a reference to the context, and the ring,
-- its FIN and the flag stay as they were.
pub receive_no_bytes :
    (a : Around) (fin : Bool) (sc : StreamCtx) (c : Counters)
    → 1 ≤ sc.refcount
    → sc.refcount < 2 ^ 32 - 1
    → let r = receive_on a fin [] sc c in
      (r.is_ok ≡ true)
      × (r.calls ≡ (if a.queued then (if fin then stream_fin else stream_data) ∷ [] else []))
      × (r.sc ≡ some (record sc { refcount = sc.refcount + events r.calls }))
unfolding receive_on push_frame
receive_no_bytes a fin sc c some_ref few = (refl, refl, pushed-refs sc c some_ref few a.queued fin)
