-- ===== src/Wt/Session/Run.antt =====
-- A session over any sequence of its events, and what is read of the calls that it makes.
use aiopquic.Base.{
  ℕ, ◌+◌, Bool, true, false, ◌&&◌, ◌||◌, Option, List, [], ◌∷◌, ◌==◌, if◌then◌else◌,
}
use aiopquic.SpscRing.Events.{EventType, wt_session_closed}
use aiopquic.Wt.Session.{Session, Action, push, close_cnx, Cnx, after}
use aiopquic.Wt.Session.Handlers.{
  Stream, Capsule, Ending, on_connect_accepted, on_connect_refused, on_drain, on_control_data,
  on_control_fin, on_control_reset, on_control_stop_sending, on_deregister, on_control_free,
  on_datagram, on_cnx_end, on_app_wakeup,
}
use aiopquic.Wt.Session.Commands.{tx_wt_close, tx_wt_fin, tx_wt_drain, tx_wt_session_cleanup}

-- An event of a session, with what the stacks answer in it.
pub data Input : Type 0 where
  connect_accepted : Option (Option (List ℕ)) → ℕ → List ℕ → Input
  connect_refused : Bool → Option Stream → ℕ → Option Stream → Bool → Input
  drain deregister drain_command : Input
  control_data : Capsule → Input
  control_fin : Capsule → Cnx → Input
  control_reset : Bool → Stream → ℕ → Option Stream → Bool → Cnx → Input
  control_stop_sending : Bool → Stream → ℕ → Option Stream → Bool → Input
  control_free : Stream → Input
  datagram : List ℕ → Input
  cnx_end : Bool → Bool → Bool → Ending → Input
  app_wakeup : ℕ → Input
  close_command : ℕ → List ℕ → Bool → Cnx → Input
  fin_command : Bool → Cnx → Input
  cleanup_command : Option Cnx → Input

abbrev pub handle : Input → Session → Session × List Action
handle (connect_accepted protocol us snap) s = on_connect_accepted protocol us snap s
handle (connect_refused enabled stream status control sent) s =
    on_connect_refused enabled stream status control sent s
handle drain s = on_drain s
handle deregister s = on_deregister s
handle drain_command s = tx_wt_drain s
handle (control_data capsule) s = on_control_data capsule s
handle (control_fin capsule cnx) s = on_control_fin capsule cnx s
handle (control_reset enabled stream code control sent cnx) s =
    on_control_reset enabled stream code control sent cnx s
handle (control_stop_sending enabled stream code control sent) s =
    on_control_stop_sending enabled stream code control sent s
handle (control_free stream) s = on_control_free stream s
handle (datagram bytes) s = on_datagram bytes s
handle (cnx_end is_client resets reasons ending) s = on_cnx_end is_client resets reasons ending s
handle (app_wakeup no_error) s = on_app_wakeup no_error s
handle (close_command code msg sent cnx) s = tx_wt_close code msg sent cnx s
handle (fin_command sent cnx) s = tx_wt_fin sent cnx s
handle (cleanup_command cnx) s = tx_wt_session_cleanup cnx s

unfoldable pub run : List Input → Session → Session × List Action
run [] s = (s, [])
run (x ∷ xs) s = after (handle x s) (λ t. run xs t)

abbrev pub is_end : EventType → ℕ
is_end wt_session_closed = 1
is_end _ = 0

abbrev tells : Action → ℕ
tells (push e) = is_end e.event_type
tells _ = 0

-- How often the end of the session is told.
abbrev pub ends : List Action → ℕ
ends [] = 0
ends (a ∷ actions) = tells a + ends actions

abbrev is_close : Action → Bool
is_close (close_cnx code) = true
is_close _ = false

-- Whether the connection is closed.
abbrev pub closes : List Action → Bool
closes [] = false
closes (a ∷ actions) = is_close a || closes actions

abbrev pub flag : Bool → ℕ
flag b = if b then 1 else 0

-- Our FIN is sent, and the session's stream resets are queued.
abbrev pub torn_down : Session → Bool
torn_down s = s.fin_sent && s.cleanup_done

abbrev pub guarded : Session → Bool
guarded s = (s.close_deadline == 0) || torn_down s
