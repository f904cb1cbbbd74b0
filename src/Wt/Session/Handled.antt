-- ===== src/Wt/Session/Handled.antt =====
-- Every handler of a session keeps to its flags.
use aiopquic.Base.{
  u32, length, ℕ, ◌≡◌, refl, arith, Bool, true, false, not, ◌&&◌, Option, none, some, List, [], ◌∷◌,
  ltb, ◌==◌, if◌then◌else◌,
}
use aiopquic.SpscRing.Events.{wt_session_closed, wt_session_ready}
use aiopquic.Wt.Session.{
  wt_event, wt_close, enable_keep_alive, drop_resets, drop_reason, send_close, add_fin, Session,
  Event, Action, push, close_cnx, Cnx, closed, after, maybe_close_cnx, peer_fin, fin_sent,
}
use aiopquic.Wt.Session.Handlers.{
  is_final, no_capsule, other_capsule, drain_capsule, close_capsule, Stream, Capsule, Ending,
  on_connect_accepted, on_connect_refused, on_drain, on_control_data, on_control_fin,
  on_control_reset, on_control_stop_sending, on_deregister, on_control_free, on_datagram,
  on_cnx_end, on_app_wakeup, keep_alive, drops, told, cause,
}
use aiopquic.Wt.Session.Commands.{tx_wt_close, tx_wt_fin, tx_wt_drain, tx_wt_session_cleanup}
use aiopquic.Wt.Session.Run.{
  connect_accepted, connect_refused, drain, deregister, drain_command, control_data, control_fin,
  control_reset, control_stop_sending, control_free, datagram, cnx_end, app_wakeup, close_command,
  fin_command, cleanup_command, Input, handle, ends, closes, torn_down,
}
use aiopquic.Wt.Session.Sound.{
  IsSound, also-IsSound, after-IsSound, still-IsSound, unchanged-IsSound, closed-IsSound,
  then-IsSound, peer_fin-IsSound, fin_sent-IsSound, maybe_close_cnx-IsSound, quiet_if,
  unless_retry-IsSound, while_open-IsSound, or_not, ends-append, closes-append,
}

same_flags :
    {s t : Session} {actions : List Action}
    → ends actions ≡ 0
    → closes actions ≡ false
    → t.session_closing ≡ s.session_closing
    → t.close_deadline ≡ s.close_deadline
    → torn_down t ≡ torn_down s
    → IsSound s (t, actions)
same_flags {s} {t} {actions} none_told none_closed closing same down =
    still-IsSound s t actions none_told none_closed (ground (arith, closing)) same
      (ground (arith, down))

on_connect_accepted-IsSound :
    (protocol : Option (Option (List ℕ))) (us : ℕ) (snap : List ℕ) (s : Session)
    → IsSound s (on_connect_accepted protocol us snap s)
unfolding on_connect_accepted
on_connect_accepted-IsSound protocol us snap s =
    let (e, c) = quiet_if (ltb 0 us) (enable_keep_alive us ∷ []) refl refl in
    let ready = wt_event wt_session_ready s.control_stream_id 0 snap ∷ [] in
    same_flags (omega (arith, ends-append (keep_alive us) ready, e))
      (ground (arith, closes-append (keep_alive us) ready, c)) refl refl refl

on_connect_refused-IsSound :
    (enabled : Bool) (stream : Option Stream) (status : ℕ) (control : Option Stream) (sent : Bool)
    (s : Session)
    → IsSound s (on_connect_refused enabled stream status control sent s)
unfolding on_connect_refused
on_connect_refused-IsSound enabled stream status control sent s =
    unless_retry-IsSound enabled stream control sent _ s (unchanged-IsSound s _ refl refl)

on_control_data-IsSound : (capsule : Capsule) (s : Session) → IsSound s (on_control_data capsule s)
unfolding on_control_data on_drain
on_control_data-IsSound no_capsule s = unchanged-IsSound s [] refl refl
on_control_data-IsSound other_capsule s = unchanged-IsSound s [] refl refl
on_control_data-IsSound drain_capsule s = unchanged-IsSound s _ refl refl
on_control_data-IsSound (close_capsule code msg) s = closed-IsSound s _

closed_fin :
    (s : Session) (e : Event) (cnx : Cnx)
    → IsSound s (after (closed s (push e)) (λ t. peer_fin t (some cnx)))
closed_fin s e cnx =
    after-IsSound (closed s (push e)) (λ t. peer_fin t (some cnx)) (closed-IsSound s e)
      (peer_fin-IsSound (closed s (push e)).0 (some cnx))

on_control_fin-IsSound :
    (what : Capsule) (cnx : Cnx) (s : Session) → IsSound s (on_control_fin what cnx s)
unfolding on_control_fin
on_control_fin-IsSound what cnx s = closed_fin s _ cnx

on_control_reset-IsSound :
    (enabled : Bool) (stream : Stream) (code : ℕ) (control : Option Stream) (sent : Bool)
    (cnx : Cnx) (s : Session)
    → IsSound s (on_control_reset enabled stream code control sent cnx s)
unfolding on_control_reset
on_control_reset-IsSound enabled stream code control sent cnx s =
    unless_retry-IsSound enabled (some stream) control sent _ s (closed_fin s _ cnx)

on_control_stop_sending-IsSound :
    (enabled : Bool) (stream : Stream) (code : ℕ) (control : Option Stream) (sent : Bool)
    (s : Session)
    → IsSound s (on_control_stop_sending enabled stream code control sent s)
unfolding on_control_stop_sending
on_control_stop_sending-IsSound enabled stream code control sent s =
    unless_retry-IsSound enabled (some stream) control sent _ s (unchanged-IsSound s _ refl refl)

-- The pointers and the stream are not what the flags are about.
cleared-IsSound :
    {s : Session} (r : Session × List Action)
    → IsSound s r
    → IsSound s (record r.0 { cnx = none; h3_ctx = none; control_stream = none }, r.1)
cleared-IsSound r v = record { told = v.told; kept = v.kept; armed = v.armed; shut = v.shut }

on_deregister-IsSound : (s : Session) → IsSound s (on_deregister s)
unfolding on_deregister
on_deregister-IsSound s =
    let close = wt_event wt_session_closed s.control_stream_id 0 [] in
    cleared-IsSound (closed s close) (closed-IsSound s _)

told-IsSound :
    (is_client : Bool) (ending : Ending) (s : Session) → IsSound s (told is_client ending s)
told-IsSound true ending s = unchanged-IsSound s _ refl refl
told-IsSound false ending s = same_flags refl refl refl refl refl

drops-quiet :
    (has_resets has_reasons : Bool) (ending : Ending)
    → (ends (drops has_resets has_reasons ending) ≡ 0)
      × (closes (drops has_resets has_reasons ending) ≡ false)
drops-quiet has_resets has_reasons ending =
    let (e, c) = quiet_if has_resets (drop_resets ∷ []) refl refl in
    let (f, d) = quiet_if (is_final ending && has_reasons) (drop_reason ∷ []) refl refl in
    let resets = if has_resets then drop_resets ∷ [] else [] in
    let reasons = if is_final ending && has_reasons then drop_reason ∷ [] else [] in
    (
      omega (arith, ends-append resets reasons, e, f),
      ground (arith, closes-append resets reasons, c, d),
    )

on_cnx_end-IsSound :
    (is_client has_resets has_reasons : Bool) (ending : Ending) (s : Session)
    → IsSound s (on_cnx_end is_client has_resets has_reasons ending s)
unfolding on_cnx_end
on_cnx_end-IsSound is_client has_resets has_reasons ending s =
    let (code, reason, source, is_own) = cause ending in
    let close = wt_close s wt_session_closed code reason source in
    let (e, c) = drops-quiet has_resets has_reasons ending in
    also-IsSound (drops has_resets has_reasons ending)
      (after (closed s close) (told is_client ending)) e c
      (after-IsSound (closed s close) (told is_client ending) (closed-IsSound s _)
        (told-IsSound is_client ending (closed s close).0))

on_app_wakeup-IsSound : (no_error : ℕ) (s : Session) → IsSound s (on_app_wakeup no_error s)
unfolding on_app_wakeup
on_app_wakeup-IsSound no_error s = by_test (s.close_deadline == 0) refl
  where
    by_test :
        (idle : Bool)
        → (s.close_deadline == 0) ≡ idle
        → IsSound s
            (if idle then (s, []) else (record s { close_deadline = 0 }, close_cnx no_error ∷ []))
    by_test true e = unchanged-IsSound s [] refl refl
    by_test false e = record {
      told = omega arith;
      kept = or_not (torn_down s);
      armed = ground arith;
      shut = ground (arith, e);
    }

tx_wt_close-IsSound :
    (code : ℕ) (msg : List ℕ) (sent : Bool) (cnx : Cnx) (s : Session)
    → IsSound s (tx_wt_close code msg sent cnx s)
unfolding tx_wt_close
tx_wt_close-IsSound code msg sent cnx s = while_open-IsSound s _ (
    also-IsSound (send_close (u32 code) (if ltb (length msg) 256 then msg else []) ∷ []) _ refl refl
      (by_sent sent))
  where
    closing : IsSound s (record s { session_closing = true }, [])
    closing = still-IsSound s _ [] refl refl (ground arith) refl (or_not (torn_down s))

    by_sent :
        (ok : Bool)
        → IsSound s (
            let t = record s { session_closing = true } in
            if ok then fin_sent t (some cnx) else (t, []))
    by_sent true =
        let t = record s { session_closing = true } in
        then-IsSound (fin_sent t (some cnx)) closing (fin_sent-IsSound t (some cnx))
    by_sent false = closing

tx_wt_fin-IsSound :
    (is_fin_sent : Bool) (cnx : Cnx) (s : Session) → IsSound s (tx_wt_fin is_fin_sent cnx s)
unfolding tx_wt_fin
tx_wt_fin-IsSound is_fin_sent cnx s =
    let (e, c) = quiet_if (not s.fin_sent && not is_fin_sent) (add_fin ∷ []) refl refl in
    while_open-IsSound s _ (also-IsSound _ _ e c (fin_sent-IsSound s (some cnx)))

tx_wt_session_cleanup-IsSound :
    (cnx : Option Cnx) (s : Session) → IsSound s (tx_wt_session_cleanup cnx s)
unfolding tx_wt_session_cleanup
tx_wt_session_cleanup-IsSound cnx s =
    let t = record s { cleanup_done = true } in
    then-IsSound (maybe_close_cnx t cnx)
      (still-IsSound s t [] refl refl (or_not s.session_closing) refl (ground arith))
      (maybe_close_cnx-IsSound t cnx)

pub handle-IsSound : (x : Input) (s : Session) → IsSound s (handle x s)
unfolding on_drain tx_wt_drain on_control_free on_datagram
handle-IsSound (connect_accepted protocol us snap) s =
    on_connect_accepted-IsSound protocol us snap s
handle-IsSound (connect_refused enabled stream status control sent) s =
    on_connect_refused-IsSound enabled stream status control sent s
handle-IsSound drain s = unchanged-IsSound s _ refl refl
handle-IsSound deregister s = on_deregister-IsSound s
handle-IsSound drain_command s = while_open-IsSound s _ (unchanged-IsSound s _ refl refl)
handle-IsSound (control_data capsule) s = on_control_data-IsSound capsule s
handle-IsSound (control_fin what cnx) s = on_control_fin-IsSound what cnx s
handle-IsSound (control_reset enabled stream code control sent cnx) s =
    on_control_reset-IsSound enabled stream code control sent cnx s
handle-IsSound (control_stop_sending enabled stream code control sent) s =
    on_control_stop_sending-IsSound enabled stream code control sent s
handle-IsSound (control_free stream) s = same_flags refl refl refl refl refl
handle-IsSound (datagram bytes) s = unchanged-IsSound s _ refl refl
handle-IsSound (cnx_end is_client resets reasons ending) s =
    on_cnx_end-IsSound is_client resets reasons ending s
handle-IsSound (app_wakeup no_error) s = on_app_wakeup-IsSound no_error s
handle-IsSound (close_command code msg sent cnx) s = tx_wt_close-IsSound code msg sent cnx s
handle-IsSound (fin_command sent cnx) s = tx_wt_fin-IsSound sent cnx s
handle-IsSound (cleanup_command cnx) s = tx_wt_session_cleanup-IsSound cnx s
