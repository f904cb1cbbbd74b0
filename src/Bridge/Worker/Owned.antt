-- ===== src/Bridge/Worker/Owned.antt =====
-- The references of the commands in the TX event ring: each is dropped once, on every path.
use aiopquic.Base.{
  ℕ, ◌+◌, ◌^◌, ◌≤◌, ◌<◌, ◌≡◌, refl, sym, ap, subst, ◌∙◌, arith, Bool, true, false, not, ◌&&◌,
  Bool-cases, inl, inr, Option, none, some, List, [], ◌∷◌, ltb, ◌==◌, if◌then◌else◌,
}
use aiopquic.StreamCtx.{StreamCtx, destroy}
use aiopquic.Bridge.Resets.{DeferredReset, Ctxs, put_ctx}
use aiopquic.Bridge.Resets.Held.{at_put, destroy-ring, refs, one, one_self, destroy-refs}
use aiopquic.Bridge.Rules.{stream_can_receive}
use aiopquic.Bridge.Worker.{Quic, Worker, cnx_closing, with_libs, with_scs, sends_from}
use aiopquic.Bridge.Worker.Commands.{
  TxEntry, tx_event_owns_sc, unref_sc, tx_event_release, on_mark_active, wrong_direction, sc_of,
  on_stop_sending, credit_by, credit_of, prioritised, stopped,
}
use aiopquic.Bridge.Worker.Counted.{
  Kept, no_refs, same-Kept, live-ctx, Does, stream_reattach_sc-lem,
}

abbrev pub carry : Bool → TxEntry → ℕ → ℕ
carry b e q = if b then one e.stream_ctx q else 0

-- The reference of an entry.
abbrev pub carried : TxEntry → ℕ → ℕ
carried e = carry (not (e.stream_ctx == 0) && tx_event_owns_sc e.event_type) e

-- The references of the entries that are queued.
abbrev pub queued : List (Bool × TxEntry) → ℕ → ℕ
queued [] q = 0
queued ((ok, e) ∷ es) q = carried e q + queued es q

-- The drop of a reference of a context that stands there, or of one with the same count and ring.
pub drop-Kept :
    (ds : List DeferredReset) (s : Ctxs) (p : ℕ) (sc sc' : StreamCtx)
    → s.at p ≡ some sc
    → sc'.refcount ≡ sc.refcount
    → sends_from (some sc') ≡ sends_from (some sc)
    → 0 < refs (s.at p)
    → refs (s.at p) < 2 ^ 32
    → Kept no_refs (one p) ds s ds (put_ctx s p (destroy sc' s.counters))
drop-Kept ds s p sc sc' there count ring some_ref small =
    let left : refs (destroy sc' s.counters).0 + 1 ≡ sc'.refcount =
      destroy-refs sc' s.counters (omega (arith, some_ref, count, ap refs there))
        (omega (arith, small, count, ap refs there)) in
    record {
      counts = λ q. elim (Bool-cases (q == p)) [
        | inl same ↦
            let here : q ≡ p = ground (arith, same) in
            rw same (omega (arith, left, count, ap (λ x. refs (s.at x)) here ∙ ap refs there))
        | inr other ↦ rw other (omega arith)
      ];
      more = λ q. omega arith;
      most = λ q. omega arith;
      rings =
          at_put (λ q o. 0 < refs o → sends_from (s.at q) ≡ true → sends_from o ≡ true) s p
            (destroy sc' s.counters).0 (destroy sc' s.counters).1
            (λ some_left e.
              destroy-ring sc' s.counters some_left (ring ∙ (ap sends_from (sym there) ∙ e)))
            (λ q some_left e. e);
      fresh = λ q less some_left. absurd (omega (arith, less));
    }

module _ (quic : Quic) where
  -- The drop of a reference.
  pub unref_sc_lem :
      (w : Worker quic) (p : ℕ)
      → 0 < refs (w.scs.at p)
      → refs (w.scs.at p) < 2 ^ 32
      → (s : Ctxs) × (unref_sc quic w p ≡ some (with_scs quic w s))
        × Kept no_refs (one p) w.resets w.scs w.resets s
  unfolding unref_sc
  unref_sc_lem w p some_ref small =
      let (sc, there) = live-ctx w.scs p some_ref in
      (
        put_ctx w.scs p (destroy sc w.scs.counters),
        rw (there, unref_sc) refl,
        drop-Kept w.resets w.scs p sc sc there refl refl some_ref small,
      )

  pub tx_event_release-Does :
      (w : Worker quic) (e : TxEntry)
      → (carried e e.stream_ctx ≤ refs (w.scs.at e.stream_ctx))
      → (refs (w.scs.at e.stream_ctx) < 2 ^ 32)
      → (w' : Worker quic) × (tx_event_release quic w e ≡ some w')
        × Does quic no_refs (carried e) w w'
  unfolding tx_event_release
  tx_event_release-Does w e has small =
      elim (Bool-cases (not (e.stream_ctx == 0) && tx_event_owns_sc e.event_type)) [
        | inl owns ↦
            let mine : carried e e.stream_ctx ≡ 1 = rw owns (one_self e.stream_ctx) in
            let (s, done, k) = unref_sc_lem w e.stream_ctx (omega (arith, has, mine)) small in
            (
              with_scs quic w s,
              rw owns done,
              subst (λ b. Kept no_refs (carry b e) w.resets w.scs w.resets s) (sym owns) k,
            )
        | inr free ↦ (
          w,
          rw free refl,
          subst (λ b. Kept no_refs (carry b e) w.resets w.scs w.resets w.scs) (sym free)
              (same-Kept no_refs w.resets w.scs),
        )
      ]

  pub on_mark_active-Does :
      (w : Worker quic) (e : TxEntry) → Does quic (carried e) no_refs w (on_mark_active quic w e)
  unfolding on_mark_active
  on_mark_active-Does w e = elim (Bool-cases (e.stream_ctx == 0)) [
    | inl null ↦ rw null (same-Kept _ w.resets w.scs)
    | inr there ↦ elim (Bool-cases (cnx_closing quic w e.cnx)) [
      | inl closing ↦ rw (there, closing) (same-Kept _ w.resets w.scs)
      | inr up ↦ rw (there, up) (same-Kept _ w.resets w.scs)
    ]
  ]

  pub on_stop_sending-Does :
      (mine : ℕ → ℕ) (w : Worker quic) (e : TxEntry)
      → Does quic mine no_refs w (on_stop_sending quic w e)
  unfolding on_stop_sending wrong_direction
  on_stop_sending-Does mine w e =
      let can_receive =
        stream_can_receive quic.is_client_stream_id quic.is_bidir_stream_id
          (quic.is_client w.libs e.cnx) e.stream_id in
      elim (Bool-cases can_receive) [
        | inl can ↦ rw can (after (quic.stop_sending w.libs e.cnx e.stream_id e.error_code))
        | inr cannot ↦ rw cannot (same-Kept mine w.resets w.scs)
      ]
    where
      after : (rq : ℕ × quic.Q) → Does quic mine no_refs w (stopped quic w e rq)
      after rq =
          let w₀ = with_libs quic w rq.1 in
          let (left, scs, resets) =
            stream_reattach_sc-lem quic w₀ e.cnx e.stream_id e.stream_ctx rq.0 in
          subst (λ s. Kept mine no_refs w.resets w.scs (stopped quic w e rq).resets s) (sym scs)
            (subst (λ ds. Kept mine no_refs w.resets w.scs ds w.scs) (sym resets)
              (same-Kept mine w.resets w.scs))

  -- What an entry carries: NULL, or a context with a reference.
  pub sc_of-lem :
      (w : Worker quic) (e : TxEntry)
      → ((e.stream_ctx == 0) ≡ false → 0 < refs (w.scs.at e.stream_ctx))
      → (o : Option StreamCtx) × (sc_of quic w e ≡ some o)
        × ((sc : StreamCtx)
            → o ≡ some sc
            → ((e.stream_ctx == 0) ≡ false) × (w.scs.at e.stream_ctx ≡ some sc))
  unfolding sc_of
  sc_of-lem w e live = elim (Bool-cases (e.stream_ctx == 0)) [
    | inl null ↦ (none, rw null refl, λ sc e. absurd (cc (e)))
    | inr apart ↦
        let (sc, there) = live-ctx w.scs e.stream_ctx (live apart) in
        (some sc, rw (apart, there) refl, λ sc' e. (apart, there ∙ e))
  ]

  pub credit_by-Does :
      (raw : Bool) (mine : ℕ → ℕ) (w : Worker quic) (e : TxEntry) (o : Option StreamCtx)
      → Does quic mine no_refs w (credit_by quic raw w e o)
  unfolding credit_by
  credit_by-Does raw mine w e o = elim (Bool-cases (ltb 0 (credit_of raw o))) [
    | inl some_credit ↦ rw some_credit (same-Kept mine w.resets w.scs)
    | inr no_credit ↦ rw no_credit (same-Kept mine w.resets w.scs)
  ]

  pub prioritised-Does :
      (mine : ℕ → ℕ) (w : Worker quic) (rq : ℕ × quic.Q)
      → Does quic mine no_refs w (prioritised quic w rq)
  prioritised-Does mine w rq = elim (Bool-cases (rq.0 == 0)) [
    | inl applied ↦ rw applied (same-Kept mine w.resets w.scs)
    | inr rejected ↦ rw rejected (same-Kept mine w.resets w.scs)
  ]
