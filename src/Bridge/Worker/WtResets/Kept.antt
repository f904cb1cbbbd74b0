-- ===== src/Bridge/Worker/WtResets/Kept.antt =====
-- The reset of a WebTransport stream: at once, or held with a reference of its own.
use aiopquic.Base.{
  ℕ, ◌+◌, ◌^◌, ◌≤◌, ◌<◌, ◌≡◌, refl, subst, arith, Bool, true, false, ◌||◌, Bool-cases, inl, inr,
  Option, none, some, ◌∷◌, ◌==◌,
}
use aiopquic.StreamCtx.{StreamCtx, ref}
use aiopquic.Bridge.Resets.{DeferredReset, put_ctx, reset_reliable_size, defer_reset}
use aiopquic.Bridge.Resets.Held.{refs, one}
use aiopquic.Bridge.Rules.{stream_can_send, stream_can_receive}
use aiopquic.Bridge.Worker.{Quic, Worker, negotiated, with_libs, sends_from}
use aiopquic.Bridge.Worker.Commands.{TxEntry, is_resetting, wrong_direction}
use aiopquic.Bridge.Worker.Counted.{no_refs, same-Kept, Does, abandon_at-Does}
use aiopquic.Bridge.Worker.Resetting.{must_wait_ends, hold-Kept}
use aiopquic.Bridge.Worker.Owned.{sc_of-lem}
use aiopquic.Bridge.Worker.WtResets.{
  wt_preamble_len, wt_reset_stream, wt_reset_stream_reliable, wt_reset_end, wt_reset_reliable,
  wt_reset_on, as_reset, tx_wt_reset_stream, tx_wt_stop_sending,
}
use aiopquic.Wt.Codes.{wt_code_to_h3}

module _ (quic : Quic) where
  wt_reset_end-Does :
      (mine : ℕ → ℕ) (w : Worker quic) (e : TxEntry) (rq : ℕ × quic.Q)
      → ((e.stream_ctx == 0) ≡ false → 0 < refs (w.scs.at e.stream_ctx))
      → (w' : Worker quic) × (wt_reset_end quic w e rq ≡ some w') × Does quic mine no_refs w w'
  unfolding wt_reset_end
  wt_reset_end-Does mine w e rq live = elim (Bool-cases (rq.0 == 0)) [
    | inl reset ↦
        let (w', done, k, onward) =
          abandon_at-Does quic mine (with_libs quic w rq.1) e.stream_ctx live in
        (
          with_libs quic w' (quic.reattach_h3_stream w'.libs e.cnx e.stream_id),
          rw (reset, done) refl,
          k,
        )
    | inr failed ↦ (
      with_libs quic w (quic.reattach_h3_stream rq.1 e.cnx e.stream_id),
      rw failed refl,
      same-Kept mine w.resets w.scs,
    )
  ]

  -- A context that a link refers to.
  abbrev IsLinked : (ℕ → ℕ) → Worker quic → TxEntry → Option StreamCtx → Type 0
  IsLinked mine w e o =
      (sc : StreamCtx)
      → o ≡ some sc
      → ((q : ℕ) → one e.stream_ctx q ≤ mine q)
        × (w.scs.at e.stream_ctx ≡ some sc)
        × (sc.refcount + 1 < 2 ^ 32)

  wt_reset_reliable-Does :
      (calloc_ok : Bool) (mine : ℕ → ℕ) (w : Worker quic) (e : TxEntry) (reliable preamble : ℕ)
      (o : Option StreamCtx) (b : Bool)
      → IsLinked mine w e o
      → ((e.stream_ctx == 0) ≡ false → 0 < refs (w.scs.at e.stream_ctx))
      → (b ≡ true → sends_from o ≡ true)
      → (w' : Worker quic) × (wt_reset_reliable quic calloc_ok w e reliable preamble (some b)
          ≡ some w')
        × Does quic mine no_refs w w'
  unfolding defer_reset ref
  wt_reset_reliable-Does calloc_ok mine w e reliable preamble o false is live ring =
      wt_reset_end-Does mine w e
        (wt_reset_stream_reliable quic w.libs e.cnx e.stream_id e.error_code preamble reliable) live
  wt_reset_reliable-Does calloc_ok mine w e reliable preamble none true is live ring =
      absurd (cc (ring refl))
  wt_reset_reliable-Does false mine w e reliable preamble (some sc) true is live ring =
      wt_reset_end-Does mine w e
        (wt_reset_stream_reliable quic w.libs e.cnx e.stream_id e.error_code preamble reliable) live
  wt_reset_reliable-Does true mine w e reliable preamble (some sc) true is live ring =
      let (has, there, small) = is sc refl in
      let d : DeferredReset = record {
        cnx = e.cnx;
        sc = e.stream_ctx;
        stream_id = e.stream_id;
        error_code = e.error_code;
        preamble = preamble;
        is_wt = true;
      } in
      let sc' : StreamCtx = record (ref sc) {
        tx_reset_pending = true;
        tx_reliable_size = reliable;
      } in
      let w' : Worker quic = record w {
        libs = quic.mark_active_stream_v2 w.libs e.cnx e.stream_id;
        scs = put_ctx w.scs e.stream_ctx (some sc', w.scs.counters);
        resets = d ∷ w.resets;
      } in
      (
        w',
        rw (there, defer_reset) refl,
        hold-Kept mine w.resets w.scs d sc sc' w.scs.counters has there (omega (arith, small))
            (ring refl),
      )

  wt_reset_on-Does :
      (calloc_ok : Bool) (mine : ℕ → ℕ) (w : Worker quic) (e : TxEntry) (o : Option StreamCtx)
      → IsLinked mine w e o
      → ((e.stream_ctx == 0) ≡ false → 0 < refs (w.scs.at e.stream_ctx))
      → (w' : Worker quic) × (wt_reset_on quic calloc_ok w e o ≡ some w')
        × Does quic mine no_refs w w'
  unfolding wt_reset_on
  wt_reset_on-Does calloc_ok mine w e o is live =
      let agreed = negotiated quic w e.cnx in
      let reliable = reset_reliable_size agreed o e.aux in
      let preamble = wt_preamble_len quic w.libs e.cnx e.stream_id in
      elim (Bool-cases (is_resetting o)) [
        | inl resetting ↦ (w, rw resetting refl, same-Kept mine w.resets w.scs)
        | inr fine ↦ elim (Bool-cases (reliable == 0)) [
          | inl none_kept ↦
              let (w', done, k) =
                wt_reset_end-Does mine w e
                  (wt_reset_stream quic w.libs e.cnx e.stream_id e.error_code) live in
              (w', rw (fine, none_kept) done, k)
          | inr some_kept ↦
              let (b, waits, ring) = must_wait_ends agreed o e.aux in
              let (w', done, k) =
                wt_reset_reliable-Does calloc_ok mine w e reliable preamble o b is live ring in
              (w', rw (fine, some_kept, waits) done, k)
        ]
      ]

  -- The command keeps the references, the link of the stream having one.
  pub tx_wt_reset_stream-Does :
      (calloc_ok : Bool) (w : Worker quic) (session cnx stream_id code aux : ℕ)
      → let p = quic.link_sc w.libs session cnx stream_id in
        ((p == 0) ≡ false → 0 < refs (w.scs.at p))
        → refs (w.scs.at p) + 1 < 2 ^ 32
        → (w' : Worker quic) × (tx_wt_reset_stream quic calloc_ok w session cnx stream_id code aux
            ≡ some w')
          × Does quic (one p) no_refs w w'
  unfolding tx_wt_reset_stream wrong_direction
  tx_wt_reset_stream-Does calloc_ok w session cnx stream_id code aux live small =
      let e = as_reset quic w session cnx stream_id code aux in
      let p = e.stream_ctx in
      let can_send =
        stream_can_send quic.is_client_stream_id quic.is_bidir_stream_id (quic.is_client w.libs cnx)
          stream_id in
      elim (Bool-cases ((session == 0) || (cnx == 0))) [
        | inl null ↦ (w, rw null refl, same-Kept (one p) w.resets w.scs)
        | inr there ↦ elim (Bool-cases (quic.find_stream w.libs cnx stream_id)) [
          | inr gone ↦ (w, rw (there, gone) refl, same-Kept (one p) w.resets w.scs)
          | inl found ↦ elim (Bool-cases can_send) [
            | inr in_only ↦ (
              wrong_direction quic w,
              rw (there, found, in_only) refl,
              same-Kept (one p) w.resets w.scs,
            )
            | inl out ↦
                let (o, known, is) = sc_of-lem quic w e live in
                let (w', done, k) =
                  wt_reset_on-Does calloc_ok (one p) w e o
                    (λ sc e_o.
                      let (apart, at_p) = is sc e_o in
                      ((λ q. omega arith), at_p, subst (λ x. refs x + 1 < 2 ^ 32) at_p small))
                    live in
                (w', rw (there, found, out, known) done, k)
          ]
        ]
      ]

  pub tx_wt_stop_sending-Does :
      (w : Worker quic) (session cnx stream_id code : ℕ)
      → Does quic no_refs no_refs w (tx_wt_stop_sending quic w session cnx stream_id code)
  unfolding tx_wt_stop_sending wrong_direction
  tx_wt_stop_sending-Does w session cnx stream_id code =
      let can_receive =
        stream_can_receive quic.is_client_stream_id quic.is_bidir_stream_id
          (quic.is_client w.libs cnx) stream_id in
      let w₁ = with_libs quic w (quic.stop_sending w.libs cnx stream_id (wt_code_to_h3 code)).1 in
      elim (Bool-cases ((session == 0) || (cnx == 0))) [
        | inl null ↦ rw null (same-Kept no_refs w.resets w.scs)
        | inr there ↦ elim (Bool-cases can_receive) [
          | inr out_only ↦ rw (there, out_only) (same-Kept no_refs w.resets w.scs)
          | inl can ↦ elim (Bool-cases (quic.find_stream w₁.libs cnx stream_id)) [
            | inl found ↦ rw (there, can, found) (same-Kept no_refs w.resets w.scs)
            | inr gone ↦ rw (there, can, gone) (same-Kept no_refs w.resets w.scs)
          ]
        ]
      ]
