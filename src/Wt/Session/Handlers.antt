-- ===== src/Wt/Session/Handlers.antt =====
-- src/aiopquic/_binding/c/h3wt_callback.h, the handlers of a session's events: those of its CONNECT stream
-- in aiopquic_wt_path_callback, and those of its connection in aiopquic_wt_cnx_cb.
use aiopquic.Base.{
  ℕ, Bool, true, false, not, ◌&&◌, Option, none, some, List, [], ◌∷◌, ◌++◌, bit_or, ltb, ◌==◌,
  if◌then◌else◌,
}
use aiopquic.SpscRing.Events.{
  wt_session_ready, wt_session_refused, wt_session_closed, wt_session_draining, wt_cnx_closed,
  wt_stop_sending, wt_datagram,
}
use aiopquic.Wt.Codes.{wt_code_from_h3}
use aiopquic.Wt.Session.{
  Session, Action, close_cnx, enable_keep_alive, drop_resets, drop_reason, uncount_session,
  delete_prefix, reset_stream, connect, wt_event, wt_close, Cnx, drop_retry, peer_fin, closed,
  after, also, close_transport, close_application, close_local,
}

-- An h3zero stream: where it is, and its id.
pub record Stream : Type 0 where
  pub addr : ℕ
  pub stream_id : ℕ

abbrev pub copied : Option (Option (List ℕ)) → Option (List ℕ) → Option (List ℕ)
copied none old = old
copied (some copy) old = copy

abbrev pub keep_alive : ℕ → List Action
keep_alive us = if ltb 0 us then enable_keep_alive us ∷ [] else []

-- `protocol` is what `aiopquic_wt_strdup` leaves of the protocol in the response, none without one.
unfoldable pub on_connect_accepted :
    Option (Option (List ℕ)) → ℕ → List ℕ → Session → Session × List Action
on_connect_accepted protocol keep_alive_us snap s = (
  record s { session_ready = true; wt_protocol = copied protocol s.wt_protocol },
  keep_alive keep_alive_us ++ wt_event wt_session_ready s.control_stream_id 0 snap ∷ [],
)

-- Whether the refused CONNECT is tried again: `enabled` is the peer's setting.
unfoldable pub may_retry : Bool → Option Stream → Session → Bool
may_retry enabled none s = false
may_retry enabled (some stream) s = elim s.connect_authority [
  | none ↦ false
  | some authority ↦ elim s.h3_ctx [
    | none ↦ false
    | some h3 ↦
        not s.session_ready
        && not s.session_closing
        && (stream.stream_id == s.control_stream_id)
        && enabled
  ]
]

abbrev pub is_at : Option ℕ → ℕ → Bool
is_at none addr = false
is_at (some p) addr = p == addr

abbrev pub released : Session → Stream → Session
released s stream = record s {
  control_stream = if is_at s.control_stream stream.addr then none else s.control_stream;
}

-- The second CONNECT, on the new control stream if there is one; `sent` is whether picowt took it.
abbrev pub reconnect : Option Stream → Bool → Session → Session × List Action
reconnect none sent s = (drop_retry s, wt_event wt_session_refused s.control_stream_id 5 [] ∷ [])
reconnect (some control) sent s = (
  record (drop_retry s) {
    control_stream = some control.addr;
    control_stream_id = control.stream_id;
  },
  connect (elim s.connect_authority [ none ↦ [] | some a ↦ a ]) s.connect_path s.connect_protocols
      ∷ (if sent then [] else wt_event wt_session_refused control.stream_id 5 [] ∷ []),
)

unfoldable pub retry_connect : Option Stream → Bool → Stream → Session → Session × List Action
retry_connect control sent stream s =
    also
      (uncount_session ∷ delete_prefix s.control_stream_id ∷ reset_stream s.control_stream_id ∷ [])
      (reconnect control sent (released s stream))

-- `refused` is what is done when the CONNECT is not tried again.
unfoldable pub unless_retry :
    Bool
    → Option Stream
    → Option Stream
    → Bool
    → Session × List Action
    → Session
    → Session × List Action
unless_retry enabled none control sent refused s = refused
unless_retry enabled (some stream) control sent refused s =
    if may_retry enabled (some stream) s then retry_connect control sent stream s else refused

-- `status` is that of the response, 0 without a stream.
unfoldable pub on_connect_refused :
    Bool → Option Stream → ℕ → Option Stream → Bool → Session → Session × List Action
on_connect_refused enabled stream status control sent s =
    unless_retry enabled stream control sent
      (s, wt_event wt_session_refused s.control_stream_id status [] ∷ []) s

unfoldable pub on_drain : Session → Session × List Action
on_drain s = (s, wt_event wt_session_draining s.control_stream_id 0 [] ∷ [])

-- What picowt reads on the CONNECT stream: no whole capsule, or one.
pub data Capsule : Type 0 where
  no_capsule drain_capsule other_capsule : Capsule
  close_capsule : ℕ → List ℕ → Capsule

unfoldable pub on_control_data : Capsule → Session → Session × List Action
on_control_data no_capsule s = (s, [])
on_control_data other_capsule s = (s, [])
on_control_data drain_capsule s = on_drain s
on_control_data (close_capsule code msg) s =
    closed s (wt_event wt_session_closed s.control_stream_id code msg)

abbrev pub close_of : Capsule → ℕ × List ℕ
close_of no_capsule = (0, [])
close_of drain_capsule = (0, [])
close_of other_capsule = (0, [])
close_of (close_capsule code msg) = (code, msg)

-- The capsule that came with the FIN, none of no bytes.
unfoldable pub on_control_fin : Capsule → Cnx → Session → Session × List Action
on_control_fin capsule cnx s =
    let (code, reason) = close_of capsule in
    after (closed s (wt_event wt_session_closed s.control_stream_id code reason))
      (λ t. peer_fin t (some cnx))

-- `code` is the peer's error on the stream.
unfoldable pub on_control_reset :
    Bool → Stream → ℕ → Option Stream → Bool → Cnx → Session → Session × List Action
on_control_reset enabled stream code control sent cnx s =
    unless_retry enabled (some stream) control sent
      (after (closed s (wt_event wt_session_closed s.control_stream_id code []))
        (λ t. peer_fin t (some cnx)))
      s

unfoldable pub on_control_stop_sending :
    Bool → Stream → ℕ → Option Stream → Bool → Session → Session × List Action
on_control_stop_sending enabled stream code control sent s =
    unless_retry enabled (some stream) control sent
      (s, wt_event wt_stop_sending stream.stream_id (wt_code_from_h3 code) [] ∷ []) s

unfoldable pub on_deregister : Session → Session × List Action
on_deregister s =
    let (t, actions) = closed s (wt_event wt_session_closed s.control_stream_id 0 []) in
    (record t { cnx = none; h3_ctx = none; control_stream = none }, actions)

unfoldable pub on_control_free : Stream → Session → Session × List Action
on_control_free stream s = (released s stream, [])

unfoldable pub on_datagram : List ℕ → Session → Session × List Action
on_datagram bytes s = (s, wt_event wt_datagram s.control_stream_id 0 bytes ∷ [])

-- How a connection ends: closed by the peer's application with its code and reason, by the transport
-- with the peer's code and reason and the local code and its name, or reset without state.
pub data Ending : Type 0 where
  application : ℕ → Option (List ℕ) → Ending
  transport : ℕ → Option (List ℕ) → ℕ → Option (List ℕ) → Ending
  stateless : Ending

unfoldable pub is_local : ℕ → ℕ → Bool
is_local remote local = (remote == 0) && not (local == 0)

-- The code, the reason and the source that asyncio is told, and whether a local cause is told.
unfoldable pub cause : Ending → ℕ × Option (List ℕ) × ℕ × Bool
cause (application code reason) = (code, reason, close_application, false)
cause (transport remote reason local name) =
    if is_local remote local
    then (local, name, bit_or close_transport close_local, true)
    else (remote, reason, close_transport, false)
cause stateless = (0, none, close_transport, false)

abbrev pub is_final : Ending → Bool
is_final (application code reason) = false
is_final (transport remote reason local name) = true
is_final stateless = true

-- The bridge's held resets and close reasons of the connection are dropped where there are any.
abbrev pub drops : Bool → Bool → Ending → List Action
drops has_resets has_reasons ending =
    (if has_resets then drop_resets ∷ [] else [])
    ++ (if is_final ending && has_reasons then drop_reason ∷ [] else [])

-- The rest of the case: a client is told of the connection too, a server forgets its pointers.
abbrev pub told : Bool → Ending → Session → Session × List Action
told is_client ending s =
    let (code, reason, source, is_own) = cause ending in
    if is_client
    then (s, wt_close s wt_cnx_closed code (if is_own then reason else none) source ∷ [])
    else (record s { cnx = none; h3_ctx = none; control_stream = none }, [])

-- The end of a connection, for one of its sessions.
unfoldable pub on_cnx_end : Bool → Bool → Bool → Ending → Session → Session × List Action
on_cnx_end is_client has_resets has_reasons ending s =
    let (code, reason, source, is_own) = cause ending in
    also (drops has_resets has_reasons ending)
      (after (closed s (wt_close s wt_session_closed code reason source)) (told is_client ending))

-- The timer of a client; `H3ZERO_NO_ERROR` is h3zero's.
unfoldable pub on_app_wakeup : ℕ → Session → Session × List Action
on_app_wakeup no_error s =
    if s.close_deadline == 0
    then (s, [])
    else (record s { close_deadline = 0 }, close_cnx no_error ∷ [])
