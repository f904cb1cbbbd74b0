-- ===== src/Bridge/Worker/Commands.antt =====
-- src/aiopquic/_binding/c/callback.h, the commands of the TX event ring that concern a stream, as the loop
-- callback handles them once an entry is not one of WebTransport. An entry that carries a context has a
-- reference to it, which its handling drops.
use aiopquic.Base.{
  ℕ, ◌+◌, ◌%◌, ◌^◌, Bool, true, false, not, ◌&&◌, ◌||◌, Option, none, some, List, [], ◌∷◌, u32, u64,
  sub64, ltb, leb, ◌==◌, if◌then◌else◌,
}
use aiopquic.StreamBuf as Buf
use aiopquic.StreamBuf.{StreamBuf}
use aiopquic.StreamCtx.{StreamCtx, destroy}
use aiopquic.Bridge.Resets.{put_ctx, reset_reliable_size, defer_reset}
use aiopquic.Bridge.Rules.{stream_can_send, stream_can_receive}
use aiopquic.Bridge.Worker.{
  Quic, Worker, is_alive, cnx_closing, negotiated, with_libs, with_scs, tx_head,
  reset_stream_reliable, stream_reattach_sc, reattach_and_abandon,
}

-- The event types of these commands.
pub data Command : Type 0 where
  mark_active stream_reset stop_sending open_flow_control : Command
  set_app_flow_control set_stream_priority : Command

-- The fields of `spsc_entry_t` that these commands use.
pub record TxEntry : Type 0 where
  pub event_type : Command
  pub cnx : ℕ
  pub stream_id : ℕ
  pub stream_ctx : ℕ
  pub error_code : ℕ
  pub aux : ℕ
  pub is_fin : ℕ

abbrev pub tx_event_owns_sc : Command → Bool
tx_event_owns_sc mark_active = true
tx_event_owns_sc stream_reset = true
tx_event_owns_sc stop_sending = true
tx_event_owns_sc open_flow_control = true
tx_event_owns_sc set_app_flow_control = false
tx_event_owns_sc set_stream_priority = false

-- The bytes of credit for a stream; `raw` is the switch `AIOPQUIC_FC_RAW`.
unfoldable pub grant_on : Bool → StreamBuf → ℕ → ℕ
grant_on raw sb pending =
    let buf_free = Buf.free sb in
    if sb.fin_pending
    then 0
    else if raw
    then buf_free
    else if leb buf_free pending
    then 0
    else u32 (sub64 buf_free pending)

unfoldable pub fc_grant : Bool → StreamCtx → ℕ
fc_grant raw sc = elim sc.rx [ none ↦ 0 | some sb ↦ grant_on raw sb sc.bytes_pending_release ]

abbrev pub credit_of : Bool → Option StreamCtx → ℕ
credit_of raw none = 0
credit_of raw (some sc) = fc_grant raw sc

-- Whether the stream is resetting already, none where there is no context.
abbrev pub is_resetting : Option StreamCtx → Bool
is_resetting none = false
is_resetting (some sc) = sc.tx_reset_pending

-- Whether the reliable bytes are not all sent; none is a fault.
unfoldable pub must_wait : Option StreamCtx → ℕ → Option Bool
must_wait o reliable =
    if not (ltb 0 reliable)
    then some false
    else elim (tx_head o) [ none ↦ none | some head ↦ some (ltb head reliable) ]

module _ (quic : Quic) where
  -- The drop of a reference.
  unfoldable pub unref_sc : Worker quic → ℕ → Option (Worker quic)
  unref_sc w p = elim (w.scs.at p) [
    | none ↦ none
    | some sc ↦ some (with_scs quic w (put_ctx w.scs p (destroy sc w.scs.counters)))
  ]

  unfoldable pub tx_event_release : Worker quic → TxEntry → Option (Worker quic)
  tx_event_release w e =
      if not (e.stream_ctx == 0) && tx_event_owns_sc e.event_type
      then unref_sc w e.stream_ctx
      else some w

  unfoldable pub on_mark_active : Worker quic → TxEntry → Worker quic
  on_mark_active w e =
      if e.stream_ctx == 0
      then with_libs quic w (quic.mark_active_stream_v2 w.libs e.cnx e.stream_id)
      else if cnx_closing quic w e.cnx
      then record w { cnt_reattach_after_close = u64 (w.cnt_reattach_after_close + 1) }
      else with_libs quic w (quic.mark_active_stream w.libs e.cnx e.stream_id e.stream_ctx)

  unfoldable pub wrong_direction : Worker quic → Worker quic
  wrong_direction w = record w {
    cnt_wrong_direction_dropped = u64 (w.cnt_wrong_direction_dropped + 1);
  }

  -- The reset at once.
  unfoldable pub reset_now : Worker quic → TxEntry → ℕ → Option (Worker quic)
  reset_now w e reliable =
      reattach_and_abandon quic w e.cnx e.stream_id e.stream_ctx
        (reset_stream_reliable quic w.libs e.cnx e.stream_id e.error_code reliable)

  -- The reset held, or at once where there is no memory to hold it.
  unfoldable pub reset_later : Bool → Worker quic → TxEntry → ℕ → Option (Worker quic)
  reset_later calloc_ok w e reliable =
      elim (defer_reset calloc_ok w.resets w.scs e.cnx e.stream_ctx e.stream_id e.error_code
        reliable 0 false) [
          | none ↦ none
          | some (held, ds, s) ↦
              if held
              then some (record w {
                libs = quic.mark_active_stream w.libs e.cnx e.stream_id e.stream_ctx;
                scs = s;
                resets = ds;
              })
              else reset_now w e reliable
        ]

  abbrev pub reset_by : Bool → Worker quic → TxEntry → ℕ → Option Bool → Option (Worker quic)
  reset_by calloc_ok w e reliable none = none
  reset_by calloc_ok w e reliable (some true) = reset_later calloc_ok w e reliable
  reset_by calloc_ok w e reliable (some false) = reset_now w e reliable

  -- The context of an entry, for NULL none; without a context at its address a fault.
  unfoldable pub sc_of : Worker quic → TxEntry → Option (Option StreamCtx)
  sc_of w e =
      if e.stream_ctx == 0
      then some none
      else elim (w.scs.at e.stream_ctx) [ none ↦ none | some sc ↦ some (some sc) ]

  unfoldable pub reset_sc : Bool → Worker quic → TxEntry → Option StreamCtx → Option (Worker quic)
  reset_sc calloc_ok w e sc =
      let can_send =
        stream_can_send quic.is_client_stream_id quic.is_bidir_stream_id
          (quic.is_client w.libs e.cnx) e.stream_id in
      let reliable = reset_reliable_size (negotiated quic w e.cnx) sc e.aux in
      if is_resetting sc
      then some w
      else if can_send
      then reset_by calloc_ok w e reliable (must_wait sc reliable)
      else some (wrong_direction w)

  unfoldable pub on_stream_reset : Bool → Worker quic → TxEntry → Option (Worker quic)
  on_stream_reset calloc_ok w e = elim (sc_of w e) [
    | none ↦ none
    | some sc ↦ reset_sc calloc_ok w e sc
  ]

  abbrev pub stopped : Worker quic → TxEntry → ℕ × quic.Q → Worker quic
  stopped w e (rr, q) =
      (stream_reattach_sc quic (with_libs quic w q) e.cnx e.stream_id e.stream_ctx rr).1

  unfoldable pub on_stop_sending : Worker quic → TxEntry → Worker quic
  on_stop_sending w e =
      let can_receive =
        stream_can_receive quic.is_client_stream_id quic.is_bidir_stream_id
          (quic.is_client w.libs e.cnx) e.stream_id in
      if can_receive
      then stopped w e (quic.stop_sending w.libs e.cnx e.stream_id e.error_code)
      else wrong_direction w

  unfoldable pub credit_by : Bool → Worker quic → TxEntry → Option StreamCtx → Worker quic
  credit_by raw w e sc =
      let grant = credit_of raw sc in
      if ltb 0 grant
      then with_libs quic w (quic.open_flow_control w.libs e.cnx e.stream_id grant)
      else w

  unfoldable pub on_open_flow_control : Bool → Worker quic → TxEntry → Option (Worker quic)
  on_open_flow_control raw w e = elim (sc_of w e) [
    | none ↦ none
    | some sc ↦ some (credit_by raw w e sc)
  ]

  abbrev pub prioritised : Worker quic → ℕ × quic.Q → Worker quic
  prioritised w (ret, q) =
      if ret == 0
      then record w { libs = q; cnt_priority_applied = u64 (w.cnt_priority_applied + 1) }
      else record w {
        libs = q;
        cnt_priority_rejected = u64 (w.cnt_priority_rejected + 1);
        priority_last_err = ret;
      }

  -- The cases of the switch, before the release.
  unfoldable pub on_command : Bool → Bool → Command → Worker quic → TxEntry → Option (Worker quic)
  on_command calloc_ok raw mark_active w e = some (on_mark_active w e)
  on_command calloc_ok raw stream_reset w e = on_stream_reset calloc_ok w e
  on_command calloc_ok raw stop_sending w e = some (on_stop_sending w e)
  on_command calloc_ok raw open_flow_control w e = on_open_flow_control raw w e
  on_command calloc_ok raw set_app_flow_control w e =
      some (with_libs quic w (quic.set_app_flow_control w.libs e.cnx e.stream_id e.is_fin))
  on_command calloc_ok raw set_stream_priority w e =
      some
        (prioritised w (quic.set_stream_priority w.libs e.cnx e.stream_id (e.error_code % 2 ^ 8)))

  abbrev pub after_release : Option (Worker quic) → TxEntry → Option (Worker quic)
  after_release none e = none
  after_release (some w) e = tx_event_release w e

  -- One entry. `calloc_ok` is whether there is memory to hold a reset.
  unfoldable pub handle_entry : Bool → Bool → Worker quic → TxEntry → Option (Worker quic)
  handle_entry calloc_ok raw w e =
      if (e.cnx == 0) || not (is_alive quic w e.cnx)
      then tx_event_release (record w { cnt_dropped_dead_cnx = u64 (w.cnt_dropped_dead_cnx + 1) }) e
      else after_release (on_command calloc_ok raw e.event_type w e) e

  -- The loop over the entries, each with whether there is memory then.
  unfoldable pub handle_all : Bool → Worker quic → List (Bool × TxEntry) → Option (Worker quic)
  handle_all raw w [] = some w
  handle_all raw w ((calloc_ok, e) ∷ es) = elim (handle_entry calloc_ok raw w e) [
    | none ↦ none
    | some w' ↦ handle_all raw w' es
  ]
