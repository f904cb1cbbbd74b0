-- ===== src/Wt/Session/Commands.antt =====
-- src/aiopquic/_binding/c/h3wt_callback.h, the commands of asyncio that aiopquic_wt_handle_tx does for a
-- session as a whole.
use aiopquic.Base.{
  ℕ, Bool, true, not, ◌&&◌, Option, none, some, List, [], ◌∷◌, u32, ltb, if◌then◌else◌, length,
}
use aiopquic.Wt.Session.{
  Session, Action, send_close, add_fin, send_drain, Cnx, maybe_close_cnx, fin_sent, also,
}

-- What is done only while connection and CONNECT stream are there.
abbrev pub while_open : Session → Session × List Action → Session × List Action
while_open s act = elim s.cnx [
  | none ↦ (s, [])
  | some cnx ↦ elim s.control_stream [ none ↦ (s, []) | some control ↦ act ]
]

-- `sent` is whether picowt took the message.
unfoldable pub tx_wt_close : ℕ → List ℕ → Bool → Cnx → Session → Session × List Action
tx_wt_close code msg sent cnx s =
    let text = if ltb (length msg) 256 then msg else [] in
    let t = record s { session_closing = true } in
    while_open s
      (also (send_close (u32 code) text ∷ []) (if sent then fin_sent t (some cnx) else (t, [])))

-- `is_fin_sent` is h3zero's flag on the CONNECT stream.
unfoldable pub tx_wt_fin : Bool → Cnx → Session → Session × List Action
tx_wt_fin is_fin_sent cnx s =
    while_open s (
      also (if not s.fin_sent && not is_fin_sent then add_fin ∷ [] else []) (fin_sent s (some cnx)))

unfoldable pub tx_wt_drain : Session → Session × List Action
tx_wt_drain s = while_open s (s, send_drain ∷ [])

-- What the cleanup does to the session, once its streams are reset.
unfoldable pub tx_wt_session_cleanup : Option Cnx → Session → Session × List Action
tx_wt_session_cleanup cnx s = maybe_close_cnx (record s { cleanup_done = true }) cnx
