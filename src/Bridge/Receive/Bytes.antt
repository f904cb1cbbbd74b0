-- ===== src/Bridge/Receive/Bytes.antt =====
-- The bytes that the stack delivers: all of them in order, or the error that closes the connection.
use aiopquic.Base.{
  ℕ, ◌+◌, ◌-◌, ◌^◌, ◌<◌, ◌≡◌, refl, ap, ◌∙◌, arith, Bool, true, false, not, ◌&&◌, Option, none,
  some, List, [], ◌∷◌, ◌++◌, length, take, take_all, u32, ltb, leb, ◌==◌, if◌then◌else◌,
}
use aiopquic.StreamBuf as Buf
use aiopquic.StreamBuf.{StreamBuf}
use aiopquic.StreamBuf.Valid.{IsValid, contents}
use aiopquic.StreamBuf.Push.{push_lem}
use aiopquic.StreamCtx.{
  StreamCtx, Counters, ensure, ensure_rx, with_fin, rx_credit_store, sc_rx_bytes_pushed_add,
}
use aiopquic.Bridge.Receive.{
  Call, open_flow_control, Around, Received, advertise_cap, is_first, opening, put_bytes, take_in,
  end_rx, room, grant, notify, has_payload, receive_payload, receive_on, refused,
}
use aiopquic.Bridge.Receive.Notify.{events}

-- Whether bytes fit a ring.
abbrev pub fits : StreamBuf → List ℕ → Bool
fits sb bytes = leb (length bytes) (sb.capacity - length (contents sb))

abbrev pub counted : StreamBuf → List ℕ → Counters → Counters
counted sb bytes c =
    let n = (Buf.push sb bytes).0 in if ltb 0 n then sc_rx_bytes_pushed_add c n else c

put_bytes-eq :
    (sc : StreamCtx) {sb : StreamBuf} (c : Counters) (bytes : List ℕ)
    → IsValid sb
    → length bytes < 2 ^ 32
    → sb.tail + length bytes < 2 ^ 64
    → put_bytes bytes sc sb c
      ≡ (fits sb bytes, record sc { rx = some (Buf.push sb bytes).1 }, counted sb bytes c)
unfolding put_bytes
put_bytes-eq sc {sb} c bytes v short word =
    let whole : take (u32 (length bytes)) bytes ≡ bytes =
      take_all (u32 (length bytes)) bytes (omega (arith, short)) in
    let all : ((Buf.push sb bytes).0 == length bytes) ≡ fits sb bytes =
      ground (arith, (push_lem bytes v short word).0) in
    rw (whole, all)

pub take_in-eq :
    (a : Around) (sc : StreamCtx) {sb : StreamBuf} (c : Counters) (bytes : List ℕ)
    → ensure a.make (advertise_cap a) sc.rx ≡ some sb
    → IsValid sb
    → length bytes < 2 ^ 32
    → sb.tail + length bytes < 2 ^ 64
    → take_in a bytes sc c
      ≡ (fits sb bytes, record sc { rx = some (Buf.push sb bytes).1 }, counted sb bytes c)
unfolding take_in ensure_rx
take_in-eq a sc {sb} c bytes there v short word =
    ap with_ring there ∙ put_bytes-eq (record sc { rx = some sb }) c bytes v short word
  where
    with_ring : Option StreamBuf → Bool × StreamCtx × Counters
    with_ring ring =
        let sc' = record sc { rx = ring } in
        if not (elim ring [ none ↦ false | some b ↦ true ])
        then (false, sc', c)
        else elim ring [ none ↦ (false, sc', c) | some b ↦ put_bytes bytes sc' b c ]

pub grant-keeps :
    (a : Around) (first fin : Bool) (sc : StreamCtx)
    → let sc' = (grant a first fin sc).1 in
      (sc'.rx ≡ sc.rx)
      × (sc'.refcount ≡ sc.refcount)
      × (sc'.rx_event_pending ≡ sc.rx_event_pending)
      × (events (grant a first fin sc).0 ≡ 0)
unfolding grant rx_credit_store
grant-keeps a false fin sc = (refl, refl, refl, refl)
grant-keeps a true fin sc = (refl, refl, refl, no_event (not fin && ltb a.window (advertise_cap a)))
  where
    no_event : (b : Bool) → events (if b then open_flow_control (room sc) ∷ [] else []) ≡ 0
    no_event true = refl
    no_event false = refl

pub events-append : (xs ys : List Call) → events (xs ++ ys) ≡ events xs + events ys
events-append [] ys = omega arith
events-append (x ∷ xs) ys = omega (arith, events-append xs ys)

pub events-opening : (first : Bool) → events (opening first) ≡ 0
events-opening true = refl
events-opening false = refl

-- The ring with all the bytes.
abbrev pub filled : StreamBuf → List ℕ → Bool → StreamBuf
filled sb bytes fin = with_fin fin (Buf.push sb bytes).1

-- The context before the notification.
abbrev pub before : Around → Bool → StreamCtx → StreamBuf → List ℕ → List Call × StreamCtx
before a fin sc sb bytes = grant a (is_first sc) fin (record sc { rx = some (filled sb bytes fin) })

abbrev pub accepted_as : Around → Bool → StreamCtx → StreamBuf → List ℕ → Counters → Received
accepted_as a fin sc sb bytes c =
    let told = notify fin a.queued (before a fin sc sb bytes).1 (counted sb bytes c) in
    record {
      is_ok = true;
      calls = opening (is_first sc) ++ (before a fin sc sb bytes).0 ++ told.events;
      sc = told.kept.0;
      counters = told.kept.1;
    }

module _ (a : Around) (fin : Bool) (bytes : List ℕ) (sc : StreamCtx) {sb : StreamBuf} (c : Counters)
    (there : ensure a.make (advertise_cap a) sc.rx ≡ some sb) (v : IsValid sb)
    (short : length bytes < 2 ^ 32) (word : sb.tail + length bytes < 2 ^ 64) where
  pub receive_on-eq :
      0 < length bytes
      → fits sb bytes ≡ true
      → receive_on a fin bytes sc c ≡ accepted_as a fin sc sb bytes c
  unfolding receive_on receive_payload end_rx
  receive_on-eq some_bytes ok =
      let payload : has_payload bytes ≡ true = ground (arith, some_bytes) in
      rw (payload, take_in-eq a sc c bytes there v short word, ok)

  pub receive_refused :
      sb.capacity - length (contents sb) < length bytes
      → receive_on a fin bytes sc c
        ≡ refused
            (opening (is_first sc))
            (some (record sc { rx = some (Buf.push sb bytes).1 }))
            (counted sb bytes c)
  unfolding receive_on receive_payload end_rx
  receive_refused over =
      let payload : has_payload bytes ≡ true = ground (arith, over) in
      let e : fits sb bytes ≡ false = ground (arith, over) in
      rw (payload, take_in-eq a sc c bytes there v short word, e)
