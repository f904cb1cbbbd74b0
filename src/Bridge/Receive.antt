-- ===== src/Bridge/Receive.antt =====
-- src/aiopquic/_binding/c/callback.h, the bytes of a stream that the QUIC stack delivers, with the reference
-- that a queued event holds on the stream's context; aiopquic.Wt.Streams takes the parts of it that the
-- streams of a session share. Whether there is memory for a context, a ring or an event is an argument,
-- as is the window that the peer was told at first.
pub mod Bytes
pub mod Notify
pub mod Whole
use aiopquic.Base.{
  ℕ, Bool, true, false, not, ◌&&◌, Option, none, some, List, [], ◌∷◌, ◌++◌, u32, take, length, ltb,
  ◌==◌, if◌then◌else◌,
}
use aiopquic.StreamBuf as Buf
use aiopquic.StreamBuf.{StreamBuf}
use aiopquic.StreamCtx.{
  StreamCtx, Counters, create, ref, destroy, ensure_rx, with_fin, rx_credit_store,
  rx_event_pending_arm, rx_event_pending_clear, sc_rx_bytes_pushed_add,
}

abbrev pub rx_data_ring_cap_default : ℕ
rx_data_ring_cap_default = 4194304

-- A call of picoquic, or an event that is queued for asyncio.
pub data Call : Type 0 where
  set_app_stream_ctx set_app_flow_control : Call
  open_flow_control : ℕ → Call
  new_stream : Call
  stream_data stream_fin : Call

pub record Around : Type 0 where
  pub rx_data_ring_cap : ℕ
  pub window : ℕ
  pub make : ℕ → Option StreamBuf
  pub calloc_ok : Bool
  pub queued : Bool

pub record Received : Type 0 where
  pub is_ok : Bool
  pub calls : List Call
  pub sc : Option StreamCtx
  pub counters : Counters

abbrev pub refused : List Call → Option StreamCtx → Counters → Received
refused calls sc c = record { is_ok = false; calls = calls; sc = sc; counters = c }

abbrev pub advertise_cap : Around → ℕ
advertise_cap a = if ltb 0 a.rx_data_ring_cap then a.rx_data_ring_cap else rx_data_ring_cap_default

abbrev pub is_first : StreamCtx → Bool
is_first sc = elim sc.rx [ none ↦ true | some sb ↦ false ]

-- Whether all the bytes fit.
unfoldable pub put_bytes : List ℕ → StreamCtx → StreamBuf → Counters → Bool × StreamCtx × Counters
put_bytes bytes sc sb c =
    let (pushed, sb') = Buf.push sb (take (u32 (length bytes)) bytes) in
    (
      pushed == length bytes,
      record sc { rx = some sb' },
      if ltb 0 pushed then sc_rx_bytes_pushed_add c pushed else c,
    )

-- The ring is made if it is not there, and the bytes go in; false is the error that closes the connection.
unfoldable pub take_in : Around → List ℕ → StreamCtx → Counters → Bool × StreamCtx × Counters
take_in a bytes sc c =
    let (made, sc') = ensure_rx a.make (advertise_cap a) sc in
    if not made
    then (false, sc', c)
    else elim sc'.rx [ none ↦ (false, sc', c) | some sb ↦ put_bytes bytes sc' sb c ]

unfoldable pub end_rx : Bool → StreamCtx → StreamCtx
end_rx fin sc = elim sc.rx [ none ↦ sc | some sb ↦ record sc { rx = some (with_fin fin sb) } ]

abbrev pub room : StreamCtx → ℕ
room sc = elim sc.rx [ none ↦ 0 | some sb ↦ Buf.free sb ]

abbrev pub opening : Bool → List Call
opening first = if first then set_app_flow_control ∷ [] else []

-- What the first bytes of a stream grant to the peer.
unfoldable pub grant : Around → Bool → Bool → StreamCtx → List Call × StreamCtx
grant a first fin sc = if not first then ([], sc) else (
  if not fin && ltb a.window (advertise_cap a) then open_flow_control (room sc) ∷ [] else [],
  rx_credit_store sc (advertise_cap a),
)

-- `aiopquic_rx_push_sc` for an event of a stream: one that is queued holds a reference.
unfoldable pub rx_push_sc : Bool → StreamCtx → Counters → Option StreamCtx × Counters
rx_push_sc queued sc c = if queued then (some (ref sc), c) else destroy (ref sc) c

abbrev pub cleared : Option StreamCtx → Option StreamCtx
cleared none = none
cleared (some sc) = some (rx_event_pending_clear sc)

-- The events queued, and the context after it.
pub record Notified : Type 0 where
  pub events : List Call
  pub kept : Option StreamCtx × Counters

-- The event of the bytes: one of data is queued only if none is outstanding.
unfoldable pub notify : Bool → Bool → StreamCtx → Counters → Notified
notify true queued sc c = record {
  events = if queued then stream_fin ∷ [] else [];
  kept = rx_push_sc queued sc c;
}
notify false queued sc c =
    let (won, sc') = rx_event_pending_arm sc in
    if not won
    then record { events = []; kept = (some sc', c) }
    else if queued
    then record { events = stream_data ∷ []; kept = rx_push_sc true sc' c }
    else record {
      events = [];
      kept = (cleared (rx_push_sc false sc' c).0, (rx_push_sc false sc' c).1);
    }

-- At least one byte of a stream with a context, `fin` whether they end it.
unfoldable pub receive_payload : Around → Bool → List ℕ → StreamCtx → Counters → Received
receive_payload a fin bytes sc c =
    let first = is_first sc in
    let (fits, sc', c') = take_in a bytes sc c in
    let (granted, sc'') = grant a first fin (end_rx fin sc') in
    let told = notify fin a.queued sc'' c' in
    if not fits then refused (opening first) (some sc') c' else record {
      is_ok = true;
      calls = opening first ++ granted ++ told.events;
      sc = told.kept.0;
      counters = told.kept.1;
    }

abbrev pub frame_event : Bool → Call
frame_event fin = if fin then stream_fin else stream_data

-- Without a context there is no reference to take.
abbrev pub pushed_with : Bool → Option StreamCtx → Counters → Option StreamCtx × Counters
pushed_with queued none c = (none, c)
pushed_with queued (some sc) c = rx_push_sc queued sc c

-- The event of a frame without bytes, pushed as it is: no ring is made or ended, nothing is granted, and the
-- flag is left alone.
unfoldable pub push_frame : Bool → Bool → Option StreamCtx → Counters → Received
push_frame fin queued o c =
    let (kept, c') = pushed_with queued o c in
    record {
      is_ok = true;
      calls = if queued then frame_event fin ∷ [] else [];
      sc = kept;
      counters = c';
    }

-- `has_payload`; bytes at NULL are none.
abbrev pub has_payload : List ℕ → Bool
has_payload bytes = ltb 0 (length bytes)

unfoldable pub receive_on : Around → Bool → List ℕ → StreamCtx → Counters → Received
receive_on a fin bytes sc c =
    if has_payload bytes
    then receive_payload a fin bytes sc c
    else push_frame fin a.queued (some sc) c

abbrev pub prefixed : List Call → Received → Received
prefixed calls r = record r { calls = calls ++ r.calls }

-- `create_for` goes on with the context that is made.
abbrev pub create_for : Option StreamCtx × Counters → (StreamCtx → Counters → Received) → Received
create_for (none, c) f = refused [] none c
create_for (some sc, c) f = prefixed (set_app_stream_ctx ∷ []) (f sc c)

unfoldable pub receive : Around → Bool → List ℕ → Option StreamCtx → Counters → Received
receive a fin bytes none c =
    if has_payload bytes
    then create_for (create a.calloc_ok c) (receive_payload a fin bytes)
    else push_frame fin a.queued none c
receive a fin bytes (some sc) c = receive_on a fin bytes sc c
