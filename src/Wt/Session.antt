-- ===== src/Wt/Session.antt =====
-- src/aiopquic/_binding/c/h3wt_callback.h, the life of a session: the flags of `aiopquic_wt_session_t`, and
-- what its handlers do to them. A handler returns the session and the calls that it makes, in order: the
-- events pushed to asyncio, and the calls of picoquic, picowt and h3zero. What these answer is an
-- argument, as are the capsules that picowt reads. A pointer is a number, none for NULL.
pub mod Handlers
pub mod Commands
pub mod Run
pub mod Sound
pub mod Handled
pub mod Once
use aiopquic.Base.{
  ℕ, ◌+◌, Bool, true, false, not, ◌||◌, Option, none, some, List, [], ◌∷◌, ◌++◌, u64, ltb, ◌==◌,
  if◌then◌else◌,
}
use aiopquic.SpscRing.Events.{EventType}

abbrev pub close_deadline_us : ℕ
close_deadline_us = 1000000

abbrev pub close_grace_us : ℕ
close_grace_us = 20000

abbrev pub close_session : ℕ
close_session = 0

abbrev pub close_application : ℕ
close_application = 1

abbrev pub close_transport : ℕ
close_transport = 2

-- `AIOPQUIC_CLOSE_LOCAL` of spsc_ring.h.
abbrev pub close_local : ℕ
close_local = 0x80

-- `aiopquic_wt_session_t`, without its tag, its bridge and the capsule that picowt accumulates.
pub record Session : Type 0 where
  pub cnx : Option ℕ
  pub h3_ctx : Option ℕ
  pub control_stream : Option ℕ
  pub control_stream_id : ℕ
  pub session_ready : Bool
  pub session_closing : Bool
  pub fin_sent : Bool
  pub peer_fin : Bool
  pub close_deadline : ℕ
  pub cleanup_done : Bool
  pub wt_protocol : Option (List ℕ)
  pub connect_authority : Option (List ℕ)
  pub connect_path : Option (List ℕ)
  pub connect_protocols : Option (List ℕ)
  pub dgram_ring : Option ℕ

-- An event for asyncio, as its entry: `is_fin` is the source of a close.
pub record Event : Type 0 where
  pub event_type : EventType
  pub stream_id : ℕ
  pub error_code : ℕ
  pub is_fin : ℕ
  pub payload : List ℕ

-- A call that a handler makes.
pub data Action : Type 0 where
  push : Event → Action
  set_app_wake_time close_cnx enable_keep_alive : ℕ → Action
  drop_resets drop_reason : Action
  uncount_session : Action
  delete_prefix : ℕ → Action
  reset_stream : ℕ → Action
  connect : List ℕ → Option (List ℕ) → Option (List ℕ) → Action
  send_close : ℕ → List ℕ → Action
  add_fin send_drain : Action

abbrev pub wt_event : EventType → ℕ → ℕ → List ℕ → Action
wt_event event_type stream_id error_code payload = push (record {
  event_type = event_type;
  stream_id = stream_id;
  error_code = error_code;
  is_fin = 0;
  payload = payload;
})

abbrev pub or_no_bytes : Option (List ℕ) → List ℕ
or_no_bytes none = []
or_no_bytes (some bytes) = bytes

-- `aiopquic_wt_push_close`; no reason is NULL.
abbrev pub wt_close : Session → EventType → ℕ → Option (List ℕ) → ℕ → Action
wt_close s event_type error_code reason source = push (record {
  event_type = event_type;
  stream_id = s.control_stream_id;
  error_code = error_code;
  is_fin = source;
  payload = or_no_bytes reason;
})

unfoldable pub session_create : Bool → Option Session
session_create calloc_ok =
    if not calloc_ok
    then none
    else some (record {
      cnx = none;
      h3_ctx = none;
      control_stream = none;
      control_stream_id = 0;
      session_ready = false;
      session_closing = false;
      fin_sent = false;
      peer_fin = false;
      close_deadline = 0;
      cleanup_done = false;
      wt_protocol = none;
      connect_authority = none;
      connect_path = none;
      connect_protocols = none;
      dgram_ring = none;
    })

unfoldable pub drop_retry : Session → Session
drop_retry s = record s { connect_authority = none; connect_path = none; connect_protocols = none }

-- The picoquic connection that a call has at hand: whether it is there, and its role and time.
pub record Cnx : Type 0 where
  pub is_client : Bool
  pub now : ℕ

abbrev pub close_at : Session → ℕ → ℕ
close_at s now = u64 (now + (if s.peer_fin then close_grace_us else close_deadline_us))

abbrev pub sooner : Session → ℕ → Session × List Action
sooner s at =
    if (s.close_deadline == 0) || ltb at s.close_deadline
    then (record s { close_deadline = at }, set_app_wake_time at ∷ [])
    else (s, [])

unfoldable pub maybe_close_cnx : Session → Option Cnx → Session × List Action
maybe_close_cnx s none = (s, [])
maybe_close_cnx s (some cnx) =
    if not cnx.is_client || not s.fin_sent || not s.cleanup_done
    then (s, [])
    else sooner s (close_at s cnx.now)

unfoldable pub peer_fin : Session → Option Cnx → Session × List Action
peer_fin s cnx = maybe_close_cnx (record s { peer_fin = true }) cnx

unfoldable pub fin_sent : Session → Option Cnx → Session × List Action
fin_sent s cnx = maybe_close_cnx (record s { fin_sent = true; session_closing = true }) cnx

-- The event of a session's end, which goes out once.
unfoldable pub closed : Session → Action → Session × List Action
closed s action =
    (record s { session_closing = true }, if s.session_closing then [] else action ∷ [])

-- The calls of one handler and then those of another.
abbrev pub after : Session × List Action → (Session → Session × List Action) → Session × List Action
after (s, actions) f = let (t, more) = f s in (t, actions ++ more)

abbrev pub also : List Action → Session × List Action → Session × List Action
also actions (s, more) = (s, actions ++ more)
