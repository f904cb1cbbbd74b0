-- ===== src/Wt/Streams.antt =====
-- src/aiopquic/_binding/c/h3wt_callback.h, the streams of a session: the link from a stream to its session and
-- its context, which is made at the first touch, and the bytes that h3zero delivers. An event carries the
-- context without a reference, the link holds one.
pub mod Arrive
use aiopquic.Base.{
  ℕ, ◌+◌, Bool, true, false, not, ◌&&◌, Option, none, some, List, [], ◌∷◌, ◌++◌, u64, length, ◌==◌,
  if◌then◌else◌,
}
use aiopquic.StreamCtx.{
  StreamCtx, Counters, create, destroy, ensure_rx, rx_credit_store, rx_event_pending_arm,
  rx_event_pending_clear,
}
use aiopquic.Bridge.Receive.{
  Call, new_stream, stream_data, stream_fin, Around, Received, refused, advertise_cap, is_first,
  opening, take_in, end_rx, grant,
}

-- `aiopquic_wt_stream_link_t`, the session by its address.
pub record StreamLink : Type 0 where
  pub session : ℕ
  pub sc : StreamCtx
  pub stream_id : ℕ

abbrev pub linked : ℕ → ℕ → Option StreamCtx × Counters → Option StreamLink × Counters
linked session stream_id (none, c) = (none, c)
linked session stream_id (some sc, c) =
    (some (record { session = session; sc = sc; stream_id = stream_id }), c)

-- Whether there is memory for the link and for the context are the first arguments.
unfoldable pub stream_link_create : Bool → Bool → ℕ → ℕ → Counters → Option StreamLink × Counters
stream_link_create link_ok sc_ok session stream_id c =
    if not link_ok then (none, c) else linked session stream_id (create sc_ok c)

-- What is left of the context.
unfoldable pub stream_link_destroy : Option StreamLink → Counters → Option StreamCtx × Counters
stream_link_destroy none c = (none, c)
stream_link_destroy (some link) c = destroy link.sc c

-- The context that h3zero hands back: NULL, one of the two tagged ones, or anything else.
pub data PathCtx : Type 0 where
  null_ctx unknown_ctx : PathCtx
  link_ctx : StreamLink → PathCtx
  session_ctx : ℕ → PathCtx

-- The session and the link, none for the error.
unfoldable pub ctx_resolve : PathCtx → Option (ℕ × Option StreamLink)
ctx_resolve null_ctx = none
ctx_resolve unknown_ctx = none
ctx_resolve (link_ctx link) = some (link.session, some link)
ctx_resolve (session_ctx session) = some (session, none)

pub record Ensured : Type 0 where
  pub link : Option StreamLink
  pub is_first_touch : Bool
  pub counters : Counters

abbrev pub installed : Option StreamLink × Counters → Ensured
installed (none, c) = record { link = none; is_first_touch = false; counters = c }
installed (some link, c) = record { link = some link; is_first_touch = true; counters = c }

unfoldable pub ensure_link : Bool → Bool → ℕ → Option StreamLink → ℕ → Counters → Ensured
ensure_link link_ok sc_ok session (some link) stream_id c = record {
  link = some link;
  is_first_touch = false;
  counters = c;
}
ensure_link link_ok sc_ok session none stream_id c =
    installed (stream_link_create link_ok sc_ok session stream_id c)

-- A FIN without bytes only makes the ring.
unfoldable pub link_take_in :
    Around → Bool → List ℕ → StreamCtx → Counters → Bool × StreamCtx × Counters
link_take_in a fin bytes sc c =
    let (made, sc') = ensure_rx a.make (advertise_cap a) sc in
    if fin && (length bytes == 0) then (made, sc', c) else take_in a bytes sc c

unfoldable pub link_grant : Around → Bool → Bool → StreamCtx → List Call × StreamCtx
link_grant a first false sc = grant a first false sc
link_grant a first true sc =
    ([], if first then rx_credit_store sc (u64 (sc.rx_consumed + advertise_cap a)) else sc)

-- The event of a new stream, at the first touch and where there is memory for it.
abbrev pub announced : Bool → Bool → List Call
announced new_queued is_first_touch = if is_first_touch && new_queued then new_stream ∷ [] else []

-- `aiopquic_wt_push_event_with_sc`: one of data is queued only if none is outstanding, and no reference is
-- taken.
unfoldable pub push_event_with_sc : Bool → Bool → StreamCtx → List Call × StreamCtx
push_event_with_sc true queued sc = (if queued then stream_fin ∷ [] else [], sc)
push_event_with_sc false queued sc =
    let (won, sc') = rx_event_pending_arm sc in
    if not won
    then ([], sc')
    else if queued
    then (stream_data ∷ [], sc')
    else ([], rx_event_pending_clear sc')

-- Bytes of a stream with a link, `fin` whether they end it; `new_queued` is whether there is memory for the
-- event of a new stream, the argument before it all the other memory.
unfoldable pub link_receive : Around → Bool → Bool → Bool → List ℕ → StreamCtx → Counters → Received
link_receive a new_queued fin is_first_touch bytes sc c =
    let first = is_first sc in
    let (fits, sc', c') = link_take_in a fin bytes sc c in
    let (granted, sc'') = link_grant a first fin (end_rx fin sc') in
    let (told, after) = push_event_with_sc fin a.queued sc'' in
    if not fits then refused (opening first) (some sc') c' else record {
      is_ok = true;
      calls = opening first ++ granted ++ announced new_queued is_first_touch ++ told;
      sc = some after;
      counters = c';
    }

abbrev pub receive_ensured : Around → Bool → Bool → List ℕ → Ensured → Received
receive_ensured a new_queued fin bytes e = elim e.link [
  | none ↦ refused [] none e.counters
  | some link ↦ link_receive a new_queued fin e.is_first_touch bytes link.sc e.counters
]

unfoldable pub wt_receive :
    Around → Bool → Bool → Bool → ℕ → Option StreamLink → ℕ → Bool → List ℕ → Counters → Received
wt_receive a new_queued link_ok sc_ok session link stream_id fin bytes c =
    receive_ensured a new_queued fin bytes (ensure_link link_ok sc_ok session link stream_id c)
