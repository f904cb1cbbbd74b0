-- ===== src/Bridge/Worker.antt =====
-- src/aiopquic/_binding/c/callback.h, what the worker does to the streams of a connection: the commands of
-- the TX event ring that concern a stream, and the held resets after a send pass. picoquic and h3zero are
-- parameters. Stream contexts stand at addresses, the address 0 is NULL, and `none` is a fault, the use
-- of a context or of a send ring that is not there.
pub mod Commands
pub mod Counted
pub mod Resetting
pub mod Owned
pub mod Conserved
pub mod Run
pub mod Asyncio
pub mod Credit
pub mod WtResets
use aiopquic.Base.{
  ℕ, ◌+◌, Bool, true, false, not, ◌||◌, Option, none, some, List, u64, ltb, leb, ◌==◌,
  if◌then◌else◌,
}
use aiopquic.StreamCtx.{StreamCtx, Counters, tx_abandon}
use aiopquic.Bridge.Resets.{DeferredReset, Ctxs, put_ctx, reset_stream_at_negotiated}
pub use aiopquic.Bridge.Resets.{sends_from}
use aiopquic.Bridge.Rules.{cnx_is_alive}

-- picoquic and h3zero: their state, what they answer, and what each call leaves, with its return value.
-- `link_sc` is the context of the link that h3zero keeps for a stream of a session, NULL for none.
pub record Quic : Type 1 where
  pub Q : Type 0
  pub cnxs : Q → List ℕ
  pub get_cnx_state : Q → ℕ → ℕ
  pub state_disconnecting : ℕ
  pub is_client : Q → ℕ → Bool
  pub is_client_stream_id : ℕ → Bool
  pub is_bidir_stream_id : ℕ → Bool
  pub reset_stream_at_enabled : Q → ℕ → Bool → Option Bool
  pub error_invalid_stream_id : ℕ
  pub error_offset_too_big : ℕ
  pub error_illegal_transport_extension : ℕ
  pub reset_stream : Q → ℕ → ℕ → ℕ → ℕ × Q
  pub reset_stream_at : Q → ℕ → ℕ → ℕ → ℕ → ℕ × Q
  pub stop_sending : Q → ℕ → ℕ → ℕ → ℕ × Q
  pub set_app_stream_ctx : Q → ℕ → ℕ → ℕ → Q
  pub mark_active_stream : Q → ℕ → ℕ → ℕ → Q
  pub mark_active_stream_v2 : Q → ℕ → ℕ → Q
  pub open_flow_control : Q → ℕ → ℕ → ℕ → Q
  pub set_app_flow_control : Q → ℕ → ℕ → ℕ → Q
  pub set_stream_priority : Q → ℕ → ℕ → ℕ → ℕ × Q
  pub picowt_reset_stream : Q → ℕ → ℕ → ℕ → ℕ × Q
  pub find_stream : Q → ℕ → ℕ → Bool
  pub link_sc : Q → ℕ → ℕ → ℕ → ℕ
  pub control_stream_id : Q → ℕ → ℕ → ℕ
  pub set_fin_sent : Q → ℕ → ℕ → Q
  pub reattach_h3_stream : Q → ℕ → ℕ → Q

-- The part of `aiopquic_ctx_t` that these use, with the contexts and the libraries' state.
pub record Worker (quic : Quic) : Type 0 where
  pub libs : quic.Q
  pub scs : Ctxs
  pub resets : List DeferredReset
  pub resets_swept : ℕ
  pub cnt_reattach_after_close : ℕ
  pub cnt_wrong_direction_dropped : ℕ
  pub cnt_dropped_dead_cnx : ℕ
  pub cnt_priority_applied : ℕ
  pub cnt_priority_rejected : ℕ
  pub priority_last_err : ℕ

-- Where the ring of a context has been sent to.
abbrev pub tx_head : Option StreamCtx → Option ℕ
tx_head none = none
tx_head (some sc) = elim sc.tx [ none ↦ none | some sb ↦ some sb.head ]

-- Whether the reliable bytes of a reset are sent, none where there is no ring.
abbrev pub reached : Option StreamCtx → Option Bool
reached none = none
reached (some sc) = elim sc.tx [ none ↦ none | some sb ↦ some (leb sc.tx_reliable_size sb.head) ]

module _ (quic : Quic) where
  unfoldable pub is_alive : Worker quic → ℕ → Bool
  is_alive w cnx = cnx_is_alive (quic.cnxs w.libs) cnx

  unfoldable pub cnx_closing : Worker quic → ℕ → Bool
  cnx_closing w cnx = leb quic.state_disconnecting (quic.get_cnx_state w.libs cnx)

  unfoldable pub negotiated : Worker quic → ℕ → Bool
  negotiated w cnx =
      reset_stream_at_negotiated (quic.reset_stream_at_enabled w.libs cnx true)
        (quic.reset_stream_at_enabled w.libs cnx false)

  abbrev pub with_libs : Worker quic → quic.Q → Worker quic
  with_libs w q = record w { libs = q }

  abbrev pub with_scs : Worker quic → Ctxs → Worker quic
  with_scs w s = record w { scs = s }

  -- The return value, and the libraries' state.
  unfoldable pub reset_stream_reliable : quic.Q → ℕ → ℕ → ℕ → ℕ → ℕ × quic.Q
  reset_stream_reliable q cnx stream_id code reliable =
      let (rr, q₁) = quic.reset_stream_at q cnx stream_id code reliable in
      if not (ltb 0 reliable)
      then quic.reset_stream q cnx stream_id code
      else if (rr == quic.error_offset_too_big) || (rr == quic.error_illegal_transport_extension)
      then quic.reset_stream q₁ cnx stream_id code
      else (rr, q₁)

  -- What `stream_reattach_sc` returns: the address, or NULL.
  unfoldable pub stream_reattach_sc : Worker quic → ℕ → ℕ → ℕ → ℕ → ℕ × Worker quic
  stream_reattach_sc w cnx stream_id p rc =
      if (p == 0) || (rc == quic.error_invalid_stream_id)
      then (0, w)
      else if cnx_closing w cnx
      then (0, record w { cnt_reattach_after_close = u64 (w.cnt_reattach_after_close + 1) })
      else (p, with_libs w (quic.set_app_stream_ctx w.libs cnx stream_id p))

  -- `aiopquic_stream_ctx_tx_abandon` at an address.
  abbrev pub abandoned : Ctxs → ℕ → StreamCtx × Counters → Ctxs
  abandoned s p (sc, c) = put_ctx s p (some sc, c)

  unfoldable pub abandon_at : Worker quic → ℕ → Option (Worker quic)
  abandon_at w p = if p == 0 then some w else elim (w.scs.at p) [
    | none ↦ none
    | some sc ↦ some (with_scs w (abandoned w.scs p (tx_abandon sc w.scs.counters)))
  ]

  abbrev pub reattach_and_abandon : Worker quic → ℕ → ℕ → ℕ → ℕ × quic.Q → Option (Worker quic)
  reattach_and_abandon w cnx stream_id p (rr, q) =
      let (left, w') = stream_reattach_sc (with_libs w q) cnx stream_id p rr in abandon_at w' left
