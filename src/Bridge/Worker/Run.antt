-- ===== src/Bridge/Worker/Run.antt =====
-- src/aiopquic/_binding/c/callback.h, `aiopquic_run_deferred_resets`, with its WebTransport half in
-- src/aiopquic/_binding/c/h3wt_callback.h: after a send pass the held resets are sent whose reliable bytes
-- are out, and once a second those of connections that went away are dropped.
pub mod Leave
pub mod Swept
use aiopquic.Base.{
  ℕ, ◌+◌, Bool, true, false, not, ◌&&◌, Option, none, some, List, [], ◌∷◌, u64, sub64, leb, ◌==◌,
  if◌then◌else◌,
}
use aiopquic.Bridge.Resets.{DeferredReset, Ctxs, put_ctx, deferred_reset_free}
use aiopquic.Bridge.Worker.{
  Quic, Worker, is_alive, cnx_closing, with_libs, with_scs, reached, reset_stream_reliable,
  abandon_at, reattach_and_abandon,
}

-- A second, in microseconds.
abbrev pub sweep_us : ℕ
sweep_us = 1000000

-- Whether an entry stays in the list.
abbrev pub stays : Bool → Bool → Bool → Bool
stays ready sweep alive = if ready then false else if sweep then alive else true

module _ (quic : Quic) where
  abbrev pub and_keep :
      DeferredReset
      → Option (List DeferredReset × Worker quic)
      → Option (List DeferredReset × Worker quic)
  and_keep d none = none
  and_keep d (some (ds, w)) = some (d ∷ ds, w)

  abbrev pub reattached_h3 : DeferredReset → Option (Worker quic) → Option (Worker quic)
  reattached_h3 d none = none
  reattached_h3 d (some w) =
      some (with_libs quic w (quic.reattach_h3_stream w.libs d.cnx d.stream_id))

  abbrev pub wt_reset_by : Worker quic → DeferredReset → ℕ × quic.Q → Option (Worker quic)
  wt_reset_by w d (rr, q) =
      if rr == 0
      then reattached_h3 d
          (abandon_at quic (with_libs quic w (quic.set_fin_sent q d.cnx d.stream_id)) d.sc)
      else reattached_h3 d (some (with_libs quic w q))

  -- `reliable` is the reliable size of the context.
  unfoldable pub wt_deferred_reset : Worker quic → DeferredReset → ℕ → Option (Worker quic)
  wt_deferred_reset w d reliable =
      if not (quic.find_stream w.libs d.cnx d.stream_id)
      then some w
      else wt_reset_by w d (
          reset_stream_reliable quic w.libs d.cnx d.stream_id d.error_code
            (u64 (d.preamble + reliable)))

  abbrev pub sent_by : Bool → Worker quic → DeferredReset → ℕ → Option (Worker quic)
  sent_by true w d reliable = wt_deferred_reset w d reliable
  sent_by false w d reliable =
      reattach_and_abandon quic w d.cnx d.stream_id d.sc
        (reset_stream_reliable quic w.libs d.cnx d.stream_id d.error_code reliable)

  -- The reset of an entry, its mark on the context taken away first.
  unfoldable pub send_held : Worker quic → DeferredReset → Option (Worker quic)
  send_held w d = elim (w.scs.at d.sc) [
    | none ↦ none
    | some sc ↦
        sent_by d.is_wt
          (with_scs quic w
            (put_ctx w.scs d.sc (some (record sc { tx_reset_pending = false }), w.scs.counters)))
          d sc.tx_reliable_size
  ]

  abbrev pub with_freed : Worker quic → Option Ctxs → Option (Worker quic)
  with_freed w none = none
  with_freed w (some s) = some (with_scs quic w s)

  abbrev pub freed : Option (Worker quic) → DeferredReset → Option (Worker quic)
  freed none d = none
  freed (some w) d = with_freed w (deferred_reset_free w.scs d)

  -- An entry that leaves the list.
  unfoldable pub leave : Worker quic → DeferredReset → Option (Worker quic)
  leave w d =
      if is_alive quic w d.cnx && not (cnx_closing quic w d.cnx)
      then freed (send_held w d) d
      else freed (some w) d

  -- The walk along the list: what stays of it.
  unfoldable pub run_list :
      Bool → List DeferredReset → Worker quic → Option (List DeferredReset × Worker quic)
  run_list sweep [] w = some ([], w)
  run_list sweep (d ∷ ds) w = elim (reached (w.scs.at d.sc)) [
    | none ↦ none
    | some ready ↦
        let kept = and_keep d (run_list sweep ds w) in
        if stays ready sweep (is_alive quic w d.cnx)
        then kept
        else elim (leave w d) [ none ↦ none | some w' ↦ run_list sweep ds w' ]
  ]

  abbrev pub with_list : Option (List DeferredReset × Worker quic) → Option (Worker quic)
  with_list none = none
  with_list (some (ds, w)) = some (record w { resets = ds })

  -- `now` is the time of the stack in microseconds.
  unfoldable pub run_deferred_resets : ℕ → Worker quic → Option (Worker quic)
  run_deferred_resets now w =
      let sweep = leb sweep_us (sub64 now w.resets_swept) in
      with_list (
        run_list sweep w.resets (record w { resets_swept = if sweep then now else w.resets_swept }))
