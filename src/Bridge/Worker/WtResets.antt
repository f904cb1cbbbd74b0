-- ===== src/Bridge/Worker/WtResets.antt =====
-- src/aiopquic/_binding/c/h3wt_callback.h, the commands of a WebTransport session on one of its streams: to
-- reset it, at once or when its reliable bytes are out, and to stop its peer's sending. The link of a
-- stream has a reference to the stream's context, a held reset takes one more.
pub mod Kept
use aiopquic.Base.{
  ℕ, ◌+◌, Bool, true, false, not, ◌||◌, Option, none, some, List, u64, ltb, ◌==◌, if◌then◌else◌,
}
use aiopquic.StreamCtx.{StreamCtx}
use aiopquic.Bridge.Resets.{DeferredReset, Ctxs, reset_reliable_size, defer_reset}
use aiopquic.Bridge.Rules.{stream_is_local, stream_can_send, stream_can_receive}
use aiopquic.Bridge.Worker.{Quic, Worker, negotiated, with_libs, reset_stream_reliable, abandon_at}
use aiopquic.Bridge.Worker.Commands.{
  TxEntry, stream_reset, is_resetting, must_wait, wrong_direction, sc_of,
}
use aiopquic.Wt.Codes.{wt_code_to_h3}

module _ (quic : Quic) where
  unfoldable pub wt_preamble_len : quic.Q → ℕ → ℕ → ℕ
  wt_preamble_len q cnx stream_id =
      let v = quic.control_stream_id q cnx stream_id in
      if not (
        stream_is_local quic.is_client_stream_id quic.is_bidir_stream_id (quic.is_client q cnx)
          stream_id)
      then 0
      else 2
        + (if ltb v 0x40 then 1 else if ltb v 0x4000 then 2 else if ltb v 0x40000000 then 4 else 8)

  -- The return value, 0 for a stream that is reset.
  unfoldable pub wt_reset_stream : quic.Q → ℕ → ℕ → ℕ → ℕ × quic.Q
  wt_reset_stream q cnx stream_id code =
      let (rr, q₁) = quic.picowt_reset_stream q cnx stream_id code in
      if rr == 0 then (0, q₁) else quic.reset_stream q₁ cnx stream_id code

  abbrev pub fin_sent_by : ℕ → ℕ → ℕ × quic.Q → ℕ × quic.Q
  fin_sent_by cnx stream_id (rr, q) =
      if rr == 0 then (rr, quic.set_fin_sent q cnx stream_id) else (rr, q)

  unfoldable pub wt_reset_stream_reliable : quic.Q → ℕ → ℕ → ℕ → ℕ → ℕ → ℕ × quic.Q
  wt_reset_stream_reliable q cnx stream_id code preamble reliable =
      fin_sent_by cnx stream_id
        (reset_stream_reliable quic q cnx stream_id code (u64 (preamble + reliable)))

  abbrev pub back_to_h3 : TxEntry → Option (Worker quic) → Option (Worker quic)
  back_to_h3 e none = none
  back_to_h3 e (some w) = some (with_libs quic w (quic.reattach_h3_stream w.libs e.cnx e.stream_id))

  -- What follows a reset at once.
  unfoldable pub wt_reset_end : Worker quic → TxEntry → ℕ × quic.Q → Option (Worker quic)
  wt_reset_end w e (rr, q) = back_to_h3 e (
      if rr == 0
      then abandon_at quic (with_libs quic w q) e.stream_ctx
      else some (with_libs quic w q))

  abbrev pub wt_held_or :
      Worker quic
      → TxEntry
      → Option (Worker quic)
      → Option (Bool × List DeferredReset × Ctxs)
      → Option (Worker quic)
  wt_held_or w e at_once none = none
  wt_held_or w e at_once (some (true, ds, s)) = some (record w {
    libs = quic.mark_active_stream_v2 w.libs e.cnx e.stream_id;
    scs = s;
    resets = ds;
  })
  wt_held_or w e at_once (some (false, ds, s)) = at_once

  -- Where some bytes are reliable.
  abbrev pub wt_reset_reliable :
      Bool → Worker quic → TxEntry → ℕ → ℕ → Option Bool → Option (Worker quic)
  wt_reset_reliable calloc_ok w e reliable preamble none = none
  wt_reset_reliable calloc_ok w e reliable preamble (some true) =
      wt_held_or w e
        (wt_reset_end w e
          (wt_reset_stream_reliable w.libs e.cnx e.stream_id e.error_code preamble reliable))
        (defer_reset calloc_ok w.resets w.scs e.cnx e.stream_ctx e.stream_id e.error_code reliable
          preamble true)
  wt_reset_reliable calloc_ok w e reliable preamble (some false) =
      wt_reset_end w e
        (wt_reset_stream_reliable w.libs e.cnx e.stream_id e.error_code preamble reliable)

  unfoldable pub wt_reset_on :
      Bool → Worker quic → TxEntry → Option StreamCtx → Option (Worker quic)
  wt_reset_on calloc_ok w e sc =
      let reliable = reset_reliable_size (negotiated quic w e.cnx) sc e.aux in
      let preamble = wt_preamble_len w.libs e.cnx e.stream_id in
      if is_resetting sc
      then some w
      else if reliable == 0
      then wt_reset_end w e (wt_reset_stream w.libs e.cnx e.stream_id e.error_code)
      else wt_reset_reliable calloc_ok w e reliable preamble (must_wait sc reliable)

  -- The reset as one of its connection, with the context of the stream's link and the code of HTTP/3.
  abbrev pub as_reset : Worker quic → ℕ → ℕ → ℕ → ℕ → ℕ → TxEntry
  as_reset w session cnx stream_id code aux = record {
    event_type = stream_reset;
    cnx = cnx;
    stream_id = stream_id;
    stream_ctx = quic.link_sc w.libs session cnx stream_id;
    error_code = wt_code_to_h3 code;
    aux = aux;
    is_fin = 0;
  }

  abbrev pub wt_reset_found :
      Bool → Worker quic → TxEntry → Option (Option StreamCtx) → Option (Worker quic)
  wt_reset_found calloc_ok w e none = none
  wt_reset_found calloc_ok w e (some sc) = wt_reset_on calloc_ok w e sc

  -- `session` and its connection `cnx` are 0 for NULL.
  unfoldable pub tx_wt_reset_stream : Bool → Worker quic → ℕ → ℕ → ℕ → ℕ → ℕ → Option (Worker quic)
  tx_wt_reset_stream calloc_ok w session cnx stream_id code aux =
      let e = as_reset w session cnx stream_id code aux in
      let can_send =
        stream_can_send quic.is_client_stream_id quic.is_bidir_stream_id (quic.is_client w.libs cnx)
          stream_id in
      if (session == 0) || (cnx == 0)
      then some w
      else if not (quic.find_stream w.libs cnx stream_id)
      then some w
      else if not can_send
      then some (wrong_direction quic w)
      else wt_reset_found calloc_ok w e (sc_of quic w e)

  abbrev pub back_if_found : ℕ → ℕ → Worker quic → Worker quic
  back_if_found cnx stream_id w =
      if quic.find_stream w.libs cnx stream_id
      then with_libs quic w (quic.reattach_h3_stream w.libs cnx stream_id)
      else w

  unfoldable pub tx_wt_stop_sending : Worker quic → ℕ → ℕ → ℕ → ℕ → Worker quic
  tx_wt_stop_sending w session cnx stream_id code =
      let can_receive =
        stream_can_receive quic.is_client_stream_id quic.is_bidir_stream_id
          (quic.is_client w.libs cnx) stream_id in
      if (session == 0) || (cnx == 0)
      then w
      else if can_receive
      then back_if_found cnx stream_id
          (with_libs quic w (quic.stop_sending w.libs cnx stream_id (wt_code_to_h3 code)).1)
      else wrong_direction quic w
