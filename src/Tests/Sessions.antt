-- ===== src/Tests/Sessions.antt =====
-- Sessions at concrete inputs.
use aiopquic.Base.{
  ◌+◌, ◌-◌, ◌%◌, ◌≤◌, ◌≡◌, ◌≢◌, refl, arith, true, false, none, some, List, [], ◌∷◌,
}
use aiopquic.Wt.Codes.{wt_code_to_h3, wt_code_from_h3, wt_app_error_first, wt_app_error_last}
use aiopquic.Wt.Codes.Roundtrip.{code_from_h3-code_to_h3}
use aiopquic.Wt.Session.{Session, Cnx, closed, peer_fin, maybe_close_cnx, fin_sent}
use aiopquic.Wt.Session.Handlers.{
  close_capsule, application, on_control_data, on_control_fin, on_app_wakeup, on_cnx_end,
}
use aiopquic.Wt.Session.Commands.{tx_wt_fin, tx_wt_session_cleanup}
use aiopquic.Wt.Session.Run.{
  flag, Input, control_data, control_fin, fin_command, cleanup_command, app_wakeup, cnx_end, run,
  ends, closes, torn_down,
}
use aiopquic.Wt.Session.Once.{run-ends, run-closes}

abbrev open_session : Session
open_session = record {
  cnx = some 16;
  h3_ctx = some 32;
  control_stream = some 48;
  control_stream_id = 4;
  session_ready = true;
  session_closing = false;
  fin_sent = false;
  peer_fin = false;
  close_deadline = 0;
  cleanup_done = false;
  wt_protocol = none;
  connect_authority = none;
  connect_path = none;
  connect_protocols = none;
  dgram_ring = none;
}

abbrev client : Cnx
client = record { is_client = true; now = 500 }

-- The peer closes with a capsule and then its FIN, asyncio answers with its own FIN and the cleanup, and
-- the timer closes the connection.
abbrev peer_closes : List Input
peer_closes =
    control_data (close_capsule 7 (98 ∷ 121 ∷ 101 ∷ []))
    ∷ control_fin (close_capsule 7 []) client
    ∷ fin_command false client
    ∷ cleanup_command (some client)
    ∷ app_wakeup 256
    ∷ cnx_end true false false (application 0 none)
    ∷ []

run-ends_example : ends (run peer_closes open_session).1 + flag open_session.session_closing ≤ 1
run-ends_example = run-ends peer_closes open_session

peer_closes-closes : closes (run peer_closes open_session).1 ≡ true
unfolding run on_control_data on_control_fin closed peer_fin maybe_close_cnx tx_wt_fin fin_sent
    tx_wt_session_cleanup on_app_wakeup on_cnx_end
peer_closes-closes = refl

run-closes_example : torn_down (run peer_closes open_session).0 ≡ true
run-closes_example = run-closes peer_closes open_session refl peer_closes-closes

code_from_h3-code_to_h3_example :
    (wt_code_from_h3 (wt_code_to_h3 41) ≡ 41)
    × (wt_app_error_first ≤ wt_code_to_h3 41)
    × (wt_code_to_h3 41 ≤ wt_app_error_last)
    × ((wt_code_to_h3 41 - 0x21) % 0x1f ≢ 0)
code_from_h3-code_to_h3_example = code_from_h3-code_to_h3 41 (omega arith)
