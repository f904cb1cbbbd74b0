-- ===== src/Wt/Streams/Arrive.antt =====
-- The bytes of a session's stream: all of them in order, the stream announced once and before its bytes, or the
-- error that closes the connection.
use aiopquic.Base.{
  ℕ, ◌+◌, ◌-◌, ◌^◌, ◌≤◌, ◌<◌, ◌≡◌, refl, sym, ap, ap₂, ◌∙◌, arith, Bool, true, false, not, ◌&&◌,
  ◌||◌, Bool-cases, inl, inr, none, some, List, [], ◌∷◌, ◌++◌, append-nil, length, ltb, ◌==◌,
  if◌then◌else◌,
}
use aiopquic.StreamBuf.{StreamBuf}
use aiopquic.StreamBuf.Valid.{IsValid, contents}
use aiopquic.StreamCtx.{
  StreamCtx, Counters, ensure, ensure_rx, with_fin, rx_credit_store, rx_event_pending_arm,
  rx_event_pending_clear,
}
use aiopquic.StreamCtx.Send.{with_fin-IsValid, contents-with_fin, fin_pending-with_fin}
use aiopquic.Bridge.Receive.{
  Call, set_app_stream_ctx, set_app_flow_control, new_stream, stream_data, stream_fin,
  open_flow_control, Around, advertise_cap, is_first, opening, end_rx, grant, room,
}
use aiopquic.Bridge.Receive.Bytes.{fits, filled, counted, take_in-eq}
use aiopquic.Bridge.Receive.Whole.{filled-IsValid}
use aiopquic.Wt.Streams.{link_take_in, link_grant, announced, push_event_with_sc, link_receive}

-- What is left after bytes that fit.
record IsTaken (a : Around) (fin : Bool) (bytes : List ℕ) (sc : StreamCtx) (sb : StreamBuf)
    (c : Counters) : Type 0 where
  ring : StreamBuf
  counters : Counters
  taken : link_take_in a fin bytes sc c ≡ (true, record sc { rx = some ring }, counters)
  held : contents ring ≡ contents sb ++ bytes
  fin_kept : ring.fin_pending ≡ sb.fin_pending
  valid : IsValid ring

no_bytes : (bytes : List ℕ) → (length bytes == 0) ≡ true → bytes ≡ []
no_bytes [] e = refl
no_bytes (b ∷ bytes) e = ground (arith, e)

module _ (a : Around) (fin : Bool) (bytes : List ℕ) (sc : StreamCtx) {sb : StreamBuf} (c : Counters)
    (there : ensure a.make (advertise_cap a) sc.rx ≡ some sb) (v : IsValid sb)
    (short : length bytes < 2 ^ 32) (word : sb.tail + length bytes < 2 ^ 64)
    (ok : length bytes ≤ sb.capacity - length (contents sb)) where
  ensured : ensure_rx a.make (advertise_cap a) sc ≡ (true, record sc { rx = some sb })
  unfolding ensure_rx
  ensured = ap (λ ring. (elim ring [ none ↦ false | some b ↦ true ], record sc { rx = ring })) there

  taken_lem : IsTaken a fin bytes sc sb c
  unfolding link_take_in
  taken_lem = elim (Bool-cases (fin && (length bytes == 0))) [
    | inl only_fin ↦
        let empty = no_bytes bytes (ground (arith, only_fin)) in
        record {
          ring = sb;
          counters = c;
          taken = rw (only_fin, ensured) refl;
          held = sym (append-nil (contents sb)) ∙ ap (λ b. contents sb ++ b) (sym empty);
          fin_kept = refl;
          valid = v;
        }
    | inr some_bytes ↦
        let room_enough : fits sb bytes ≡ true = ground (arith, ok) in
        let (held, ended, valid) = filled-IsValid bytes false v short word room_enough in
        record {
          ring = filled sb bytes false;
          counters = counted sb bytes c;
          taken = rw some_bytes (
              take_in-eq a sc c bytes there v short word
              ∙ ap (λ b. (b, record sc { rx = some (filled sb bytes false) }, counted sb bytes c))
                  room_enough);
          held = held;
          fin_kept = ended;
          valid = valid;
        }
  ]

-- The events among the calls, in order.
abbrev pub announcements : List Call → List Call
announcements [] = []
announcements (new_stream ∷ calls) = new_stream ∷ announcements calls
announcements (stream_data ∷ calls) = stream_data ∷ announcements calls
announcements (stream_fin ∷ calls) = stream_fin ∷ announcements calls
announcements (_ ∷ calls) = announcements calls

announcements-announced :
    (new_queued is_first_touch : Bool)
    → announcements (announced new_queued is_first_touch) ≡ announced new_queued is_first_touch
announcements-announced true true = refl
announcements-announced true false = refl
announcements-announced false true = refl
announcements-announced false false = refl

-- The event of the bytes: one that ends the stream, or one of data unless one is outstanding.
abbrev pub told_of : Bool → Bool → Bool → List Call
told_of fin queued waiting =
    if queued && (fin || not waiting) then (if fin then stream_fin else stream_data) ∷ [] else []

push_event_with_sc_lem :
    (fin queued : Bool) (sc : StreamCtx)
    → let (told, after) = push_event_with_sc fin queued sc in
      (told ≡ told_of fin queued sc.rx_event_pending)
      × (announcements told ≡ told)
      × (after.rx ≡ sc.rx)
      × (after.refcount ≡ sc.refcount)
      × (after.rx_event_pending ≡ (sc.rx_event_pending || (not fin && queued)))
unfolding push_event_with_sc rx_event_pending_arm rx_event_pending_clear
push_event_with_sc_lem true true sc = (refl, refl, refl, refl, ground arith)
push_event_with_sc_lem true false sc = (refl, refl, refl, refl, ground arith)
push_event_with_sc_lem false queued sc = elim (Bool-cases sc.rx_event_pending) [
  | inl up ↦ rw up (ground arith, refl, refl, refl, refl)
  | inr down ↦ by_memory queued down
]
  where
    by_memory :
        (queued : Bool)
        → sc.rx_event_pending ≡ false
        → let (told, after) = push_event_with_sc false queued sc in
          (told ≡ told_of false queued sc.rx_event_pending)
          × (announcements told ≡ told)
          × (after.rx ≡ sc.rx)
          × (after.refcount ≡ sc.refcount)
          × (after.rx_event_pending ≡ (sc.rx_event_pending || (true && queued)))
    by_memory true down = rw down (refl, refl, refl, refl, refl)
    by_memory false down = rw down (refl, refl, refl, refl, refl)

announcements-append :
    (xs ys : List Call) → announcements (xs ++ ys) ≡ announcements xs ++ announcements ys
announcements-append [] ys = refl
announcements-append (new_stream ∷ xs) ys = ap (λ l. new_stream ∷ l) (announcements-append xs ys)
announcements-append (stream_data ∷ xs) ys = ap (λ l. stream_data ∷ l) (announcements-append xs ys)
announcements-append (stream_fin ∷ xs) ys = ap (λ l. stream_fin ∷ l) (announcements-append xs ys)
announcements-append (set_app_stream_ctx ∷ xs) ys = announcements-append xs ys
announcements-append (set_app_flow_control ∷ xs) ys = announcements-append xs ys
announcements-append (open_flow_control n ∷ xs) ys = announcements-append xs ys

announcements-first : (first : Bool) → announcements (opening first) ≡ []
announcements-first true = refl
announcements-first false = refl

-- The first calls and the grant announce nothing.
announcements-opening :
    (first : Bool) (calls more last : List Call)
    → announcements calls ≡ []
    → announcements (opening first ++ calls ++ more ++ last)
      ≡ announcements more ++ announcements last
announcements-opening first calls more last e =
    announcements-append (opening first ++ calls ++ more) last
    ∙ ap (λ l. l ++ announcements last)
        (announcements-append (opening first ++ calls) more
          ∙ ap (λ l. l ++ announcements more)
              (announcements-append (opening first) calls
                ∙ ap₂ (λ x y. x ++ y) (announcements-first first) e))

link_grant-keeps :
    (a : Around) (first fin : Bool) (sc : StreamCtx)
    → let (calls, sc') = link_grant a first fin sc in
      (sc'.rx ≡ sc.rx)
      × (sc'.refcount ≡ sc.refcount)
      × (sc'.rx_event_pending ≡ sc.rx_event_pending)
      × (announcements calls ≡ [])
unfolding link_grant grant rx_credit_store
link_grant-keeps a true true sc = (refl, refl, refl, refl)
link_grant-keeps a false true sc = (refl, refl, refl, refl)
link_grant-keeps a false false sc = (refl, refl, refl, refl)
link_grant-keeps a true false sc = (refl, refl, refl, quiet (ltb a.window (advertise_cap a)))
  where
    quiet : (b : Bool) → announcements (if b then open_flow_control (room sc) ∷ [] else []) ≡ []
    quiet true = refl
    quiet false = refl

-- Less than 2^32 bytes of a session's stream, before 2^64 of them, whose ring is there or made, and is valid, and
-- which fit the ring: they are accepted, stand in order behind those that the ring held, the FIN is set if
-- they end the stream, the ring stays valid, and no reference is taken. The events are, in order and where
-- there is memory for each, the new stream at the first touch, and one of the bytes, which is left out
-- for bytes that do not end the stream while the flag says that one is outstanding; and afterwards the
-- flag is up if it was, or if an event of data is queued for these bytes.
pub link_receive_lem :
    (a : Around) (new_queued fin is_first_touch : Bool) (bytes : List ℕ) (sc : StreamCtx)
    {sb : StreamBuf} (c : Counters)
    → ensure a.make (advertise_cap a) sc.rx ≡ some sb
    → IsValid sb
    → length bytes < 2 ^ 32
    → sb.tail + length bytes < 2 ^ 64
    → length bytes ≤ sb.capacity - length (contents sb)
    → let r = link_receive a new_queued fin is_first_touch bytes sc c in
      (after : StreamCtx) × (ring : StreamBuf) × (r.is_ok ≡ true)
      × (r.sc ≡ some after)
      × (after.rx ≡ some ring)
      × (contents ring ≡ contents sb ++ bytes)
      × (ring.fin_pending ≡ (fin || sb.fin_pending))
      × (after.refcount ≡ sc.refcount)
      × (announcements r.calls
          ≡ announced new_queued is_first_touch ++ told_of fin a.queued sc.rx_event_pending)
      × (after.rx_event_pending ≡ (sc.rx_event_pending || (not fin && a.queued)))
      × IsValid ring
unfolding link_receive end_rx
link_receive_lem a new_queued fin is_first_touch bytes sc {sb} c there v short word ok =
    let t = taken_lem a fin bytes sc c there v short word ok in
    let start = record sc { rx = some (with_fin fin t.ring) } in
    let ready = (link_grant a (is_first sc) fin start).1 in
    let granted = (link_grant a (is_first sc) fin start).0 in
    let (rx, refs, pending, quiet) = link_grant-keeps a (is_first sc) fin start in
    let (event, shown, rx', refs', pending') = push_event_with_sc_lem fin a.queued ready in
    let told = (push_event_with_sc fin a.queued ready).0 in
    rw t.taken (
      (push_event_with_sc fin a.queued ready).1,
      with_fin fin t.ring,
      refl,
      refl,
      rx' ∙ rx,
      contents-with_fin fin t.ring ∙ t.held,
      fin_pending-with_fin fin t.ring ∙ ap (λ b. fin || b) t.fin_kept,
      refs' ∙ refs,
      announcements-opening (is_first sc) granted (announced new_queued is_first_touch) told quiet
          ∙ ap₂ (λ x y. x ++ y) (announcements-announced new_queued is_first_touch)
              (shown ∙ event ∙ ap (told_of fin a.queued) pending),
      pending' ∙ ap (λ b. b || (not fin && a.queued)) pending,
      with_fin-IsValid fin t.valid,
    )
