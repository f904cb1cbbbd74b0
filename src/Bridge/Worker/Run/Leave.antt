-- ===== src/Bridge/Worker/Run/Leave.antt =====
-- A held reset that leaves the list: sent or dropped, and its reference given back.
use aiopquic.Base.{
  ℕ, ◌+◌, ◌^◌, ◌<◌, ◌≡◌, refl, sym, ap, ◌∙◌, arith, Bool, true, false, not, ◌&&◌, Bool-cases, inl,
  inr, some, u64, ◌==◌,
}
use aiopquic.StreamCtx.{StreamCtx, Counters, destroy}
use aiopquic.Bridge.Resets.{DeferredReset, Ctxs, put_ctx, deferred_reset_free}
use aiopquic.Bridge.Resets.Held.{at_put, refs, one}
use aiopquic.Bridge.Worker.{
  Quic, Worker, is_alive, cnx_closing, with_libs, with_scs, reached, reset_stream_reliable,
}
use aiopquic.Bridge.Worker.Counted.{
  no_refs, same-Kept, put-Kept, live-ctx, Advances, put-Advances, Does, abandon_at-Does,
  reattach_and_abandon-Does,
}
use aiopquic.Bridge.Worker.Owned.{drop-Kept}
use aiopquic.Bridge.Worker.Conserved.{seq-Kept}
use aiopquic.Bridge.Worker.Run.{
  wt_reset_by, wt_deferred_reset, sent_by, send_held, with_freed, freed, leave,
}

-- What stays of readiness where contexts may go.
abbrev pub Onward : Ctxs → Ctxs → Type 0
Onward s s' =
    (q : ℕ) → 0 < refs (s'.at q) → reached (s.at q) ≡ some true → reached (s'.at q) ≡ some true

destroy-reached :
    (sc : StreamCtx) (c : Counters)
    → 0 < refs (destroy sc c).0
    → reached (some sc) ≡ some true
    → reached (destroy sc c).0 ≡ some true
unfolding destroy
destroy-reached sc c = elim (Bool-cases (sc.refcount == 1)) [
  | inl last ↦ rw last (λ some_ref e. absurd (omega (arith, some_ref)))
  | inr shared ↦ rw shared (λ some_ref e. e)
]

module _ (quic : Quic) where
  wt_reset_by-Does :
      (w : Worker quic) (d : DeferredReset) (rq : ℕ × quic.Q)
      → 0 < refs (w.scs.at d.sc)
      → (w' : Worker quic) × (wt_reset_by quic w d rq ≡ some w')
        × Does quic no_refs no_refs w w'
        × Advances w.scs w'.scs
  wt_reset_by-Does w d rq some_ref = elim (Bool-cases (rq.0 == 0)) [
    | inl reset ↦
        let (w', done, k, onward) =
          abandon_at-Does quic no_refs (with_libs quic w (quic.set_fin_sent rq.1 d.cnx d.stream_id))
            d.sc (λ there. some_ref) in
        (
          with_libs quic w' (quic.reattach_h3_stream w'.libs d.cnx d.stream_id),
          rw (reset, done) refl,
          k,
          onward,
        )
    | inr failed ↦ (
      with_libs quic w (quic.reattach_h3_stream rq.1 d.cnx d.stream_id),
      rw failed refl,
      same-Kept no_refs w.resets w.scs,
      λ q e. e,
    )
  ]

  sent_by-Does :
      (is_wt : Bool) (w : Worker quic) (d : DeferredReset) (reliable : ℕ)
      → 0 < refs (w.scs.at d.sc)
      → (w' : Worker quic) × (sent_by quic is_wt w d reliable ≡ some w')
        × Does quic no_refs no_refs w w'
        × Advances w.scs w'.scs
  unfolding wt_deferred_reset
  sent_by-Does true w d reliable some_ref =
      elim (Bool-cases (quic.find_stream w.libs d.cnx d.stream_id)) [
        | inl found ↦
            let (w', done, k, onward) =
              wt_reset_by-Does w d
                (reset_stream_reliable quic w.libs d.cnx d.stream_id d.error_code
                  (u64 (d.preamble + reliable)))
                some_ref in
            (w', rw found done, k, onward)
        | inr gone ↦ (w, rw gone refl, same-Kept no_refs w.resets w.scs, λ q e. e)
      ]
  sent_by-Does false w d reliable some_ref =
      reattach_and_abandon-Does quic no_refs w d.cnx d.stream_id d.sc
        (reset_stream_reliable quic w.libs d.cnx d.stream_id d.error_code reliable)
        (λ there. some_ref)

  send_held-Does :
      (w : Worker quic) (d : DeferredReset)
      → 0 < refs (w.scs.at d.sc)
      → (w' : Worker quic) × (send_held quic w d ≡ some w')
        × Does quic no_refs no_refs w w'
        × Advances w.scs w'.scs
  unfolding send_held
  send_held-Does w d some_ref =
      let (sc, there) = live-ctx w.scs d.sc some_ref in
      let sc' : StreamCtx = record sc { tx_reset_pending = false } in
      let s₁ = put_ctx w.scs d.sc (some sc', w.scs.counters) in
      let a = put-Kept no_refs w.resets w.scs d.sc sc sc' w.scs.counters there refl refl in
      let (w', done, k, onward) =
        sent_by-Does d.is_wt (with_scs quic w s₁) d sc.tx_reliable_size
          (omega (arith, some_ref, a.counts d.sc)) in
      (
        w',
        rw (there, send_held) done,
        seq-Kept _ _ _ _ _ _ _ _ a k,
        λ q e. onward q (put-Advances w.scs d.sc sc sc' w.scs.counters there (λ e. e) q e),
      )

  freed-Does :
      (w : Worker quic) (d : DeferredReset)
      → 0 < refs (w.scs.at d.sc)
      → refs (w.scs.at d.sc) < 2 ^ 32
      → (w' : Worker quic) × (freed quic (some w) d ≡ some w')
        × Does quic no_refs (one d.sc) w w'
        × Onward w.scs w'.scs
  freed-Does w d some_ref small =
      let (sc, there) = live-ctx w.scs d.sc some_ref in
      let sc' : StreamCtx = record sc { tx_reset_pending = false } in
      let done : deferred_reset_free w.scs d
          ≡ some (put_ctx w.scs d.sc (destroy sc' w.scs.counters)) =
        unfold deferred_reset_free in rw (there, deferred_reset_free) refl in
      (
        with_scs quic w (put_ctx w.scs d.sc (destroy sc' w.scs.counters)),
        ap (with_freed quic w) done,
        drop-Kept w.resets w.scs d.sc sc sc' there refl refl some_ref small,
        at_put (λ q o. 0 < refs o → reached (w.scs.at q) ≡ some true → reached o ≡ some true) w.scs
            d.sc (destroy sc' w.scs.counters).0 (destroy sc' w.scs.counters).1
            (λ some_left e.
              destroy-reached sc' w.scs.counters some_left (ap reached (sym there) ∙ e))
            (λ q some_left e. e),
      )

  pub leave-Does :
      (w : Worker quic) (d : DeferredReset)
      → 0 < refs (w.scs.at d.sc)
      → refs (w.scs.at d.sc) < 2 ^ 32
      → (w' : Worker quic) × (leave quic w d ≡ some w')
        × Does quic no_refs (one d.sc) w w'
        × Onward w.scs w'.scs
  unfolding leave
  leave-Does w d some_ref small =
      elim (Bool-cases (is_alive quic w d.cnx && not (cnx_closing quic w d.cnx))) [
        | inl up ↦
            let (w₁, sent, a, onward) = send_held-Does w d some_ref in
            let (w', done, k, last) =
              freed-Does w₁ d (omega (arith, some_ref, a.counts d.sc, a.more d.sc))
                (omega (arith, small, a.counts d.sc, a.most d.sc)) in
            (
              w',
              rw (up, sent) done,
              seq-Kept _ _ _ _ _ _ _ _ a k,
              λ q some_left e. last q some_left (onward q e),
            )
        | inr down ↦
            let (w', done, k, last) = freed-Does w d some_ref small in (w', rw down done, k, last)
      ]
