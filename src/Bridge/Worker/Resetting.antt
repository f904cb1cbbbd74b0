-- ===== src/Bridge/Worker/Resetting.antt =====
-- The reset of a stream: at once, or held with a reference of its own.
use aiopquic.Base.{
  ℕ, ◌+◌, ◌^◌, ◌≤◌, ◌<◌, ◌≡◌, refl, sym, ap, subst, ◌∙◌, arith, Bool, true, false, not, Bool-cases,
  inl, inr, ◌||◌, Option, none, some, List, ◌∷◌, ltb, ◌==◌,
}
use aiopquic.StreamBuf.{StreamBuf}
use aiopquic.StreamCtx.{StreamCtx, Counters, ref}
use aiopquic.Bridge.Resets.{
  DeferredReset, Ctxs, put_ctx, reset_reliable_size, reliable_of, capped, defer_reset,
}
use aiopquic.Bridge.Resets.Held.{at_put, refs, one}
use aiopquic.Bridge.Rules.{stream_can_send}
use aiopquic.Bridge.Worker.{Quic, Worker, negotiated, sends_from, reset_stream_reliable}
use aiopquic.Bridge.Worker.Commands.{
  TxEntry, must_wait, is_resetting, wrong_direction, reset_now, reset_later, reset_by, reset_sc,
}
use aiopquic.Bridge.Worker.Counted.{Kept, no_refs, same-Kept, Does, reattach_and_abandon-Does}

must_wait_on :
    (sc : StreamCtx) (sb : StreamBuf)
    → sc.tx ≡ some sb
    → (n : ℕ)
    → (b : Bool) × (must_wait (some sc) n ≡ some b) × (b ≡ true → sends_from (some sc) ≡ true)
unfolding must_wait
must_wait_on sc sb e n = elim (Bool-cases (ltb 0 n)) [
  | inl some_bytes ↦ (ltb sb.head n, rw some_bytes (rw e refl), λ w. rw e refl)
  | inr no_bytes ↦ (false, rw no_bytes refl, λ e. absurd (cc (e)))
]

-- The reliable bytes of a reset are those of a ring, so that the ring is there when they are compared
-- with what is sent.
pub must_wait_ends :
    (agreed : Bool) (o : Option StreamCtx) (requested : ℕ)
    → (b : Bool) × (must_wait o (reset_reliable_size agreed o requested) ≡ some b)
      × (b ≡ true → sends_from o ≡ true)
unfolding must_wait reset_reliable_size
must_wait_ends agreed o requested = elim (Bool-cases ((requested == 0) || not agreed)) [
  | inl off ↦
      let size : reset_reliable_size agreed o requested ≡ 0 = rw off refl in
      (false, ap (must_wait o) size, λ e. absurd (cc (e)))
  | inr on ↦
      let size : reset_reliable_size agreed o requested ≡ reliable_of o requested = rw on refl in
      let (b, e, ring) = by_context o in (b, ap (must_wait o) size ∙ e, ring)
]
  where
    waits : Option StreamCtx → Type 0
    waits o =
        (b : Bool) × (must_wait o (reliable_of o requested) ≡ some b)
        × (b ≡ true → sends_from o ≡ true)

    none_needed : (o : Option StreamCtx) → reliable_of o requested ≡ 0 → waits o
    none_needed o e = (false, rw e refl, λ e. absurd (cc (e)))

    by_context : (o : Option StreamCtx) → waits o
    by_context none = none_needed none refl
    by_context (some sc) = by_ring sc sc.tx refl
      where
        by_ring : (sc : StreamCtx) (ring : Option StreamBuf) → sc.tx ≡ ring → waits (some sc)
        by_ring sc none e = none_needed (some sc) (ap (λ x. capped x requested) e)
        by_ring sc (some sb) e = must_wait_on sc sb e (capped sc.tx requested)

-- Holding a reset.
pub hold-Kept :
    (mine : ℕ → ℕ) (ds : List DeferredReset) (s : Ctxs) (d : DeferredReset) (sc sc' : StreamCtx)
    (c : Counters)
    → ((q : ℕ) → one d.sc q ≤ mine q)
    → s.at d.sc ≡ some sc
    → sc'.refcount ≡ sc.refcount + 1
    → sends_from (some sc') ≡ true
    → Kept mine no_refs ds s (d ∷ ds) (put_ctx s d.sc (some sc', c))
hold-Kept mine ds s d sc sc' c has there count ring = record {
  counts = λ q. elim (Bool-cases (q == d.sc)) [
    | inl same ↦
        let here : q ≡ d.sc = ground (arith, same) in
        rw same (omega (arith, count, ap (λ x. refs (s.at x)) here ∙ ap refs there))
    | inr other ↦ rw other (omega arith)
  ];
  more = λ q. omega arith;
  most = λ q. omega (arith, has q);
  rings =
      at_put (λ q o. 0 < refs o → sends_from (s.at q) ≡ true → sends_from o ≡ true) s d.sc
        (some sc') c (λ some_ref e. ring) (λ q some_ref e. e);
  fresh = λ q less some_ref. elim (Bool-cases (q == d.sc)) [
    | inl same ↦ rw same ring
    | inr other ↦
        let none_more : one d.sc q ≡ 0 = rw other refl in absurd (omega (arith, less, none_more))
  ];
}

module _ (quic : Quic) where
  reset_now-Does :
      (mine : ℕ → ℕ) (w : Worker quic) (e : TxEntry) (reliable : ℕ)
      → ((e.stream_ctx == 0) ≡ false → 0 < refs (w.scs.at e.stream_ctx))
      → (w' : Worker quic) × (reset_now quic w e reliable ≡ some w') × Does quic mine no_refs w w'
  unfolding reset_now
  reset_now-Does mine w e reliable live =
      let (w', done, k, onward) =
        reattach_and_abandon-Does quic mine w e.cnx e.stream_id e.stream_ctx
          (reset_stream_reliable quic w.libs e.cnx e.stream_id e.error_code reliable) live in
      (w', done, k)

  reset_later-Does :
      (calloc_ok : Bool) (mine : ℕ → ℕ) (w : Worker quic) (e : TxEntry) (reliable : ℕ)
      (sc : StreamCtx)
      → ((q : ℕ) → one e.stream_ctx q ≤ mine q)
      → w.scs.at e.stream_ctx ≡ some sc
      → 0 < sc.refcount
      → sc.refcount + 1 < 2 ^ 32
      → sends_from (some sc) ≡ true
      → (w' : Worker quic) × (reset_later quic calloc_ok w e reliable ≡ some w')
        × Does quic mine no_refs w w'
  unfolding reset_later defer_reset ref
  reset_later-Does false mine w e reliable sc has there some_ref small ring =
      reset_now-Does mine w e reliable (λ apart. subst (λ o. 0 < refs o) (sym there) some_ref)
  reset_later-Does true mine w e reliable sc has there some_ref small ring =
      let d : DeferredReset = record {
        cnx = e.cnx;
        sc = e.stream_ctx;
        stream_id = e.stream_id;
        error_code = e.error_code;
        preamble = 0;
        is_wt = false;
      } in
      let sc' : StreamCtx = record (ref sc) {
        tx_reset_pending = true;
        tx_reliable_size = reliable;
      } in
      let w' : Worker quic = record w {
        libs = quic.mark_active_stream w.libs e.cnx e.stream_id e.stream_ctx;
        scs = put_ctx w.scs e.stream_ctx (some sc', w.scs.counters);
        resets = d ∷ w.resets;
      } in
      (
        w',
        rw (there, defer_reset) refl,
        hold-Kept mine w.resets w.scs d sc sc' w.scs.counters has there (omega (arith, small)) ring,
      )

  -- A reset on what its entry carries, NULL or a context with a reference.
  pub reset_sc-Does :
      (calloc_ok : Bool) (mine : ℕ → ℕ) (w : Worker quic) (e : TxEntry) (o : Option StreamCtx)
      → ((sc : StreamCtx)
          → o ≡ some sc
          → ((q : ℕ) → one e.stream_ctx q ≤ mine q)
            × (w.scs.at e.stream_ctx ≡ some sc)
            × (0 < sc.refcount)
            × (sc.refcount + 1 < 2 ^ 32))
      → ((e.stream_ctx == 0) ≡ false → 0 < refs (w.scs.at e.stream_ctx))
      → (w' : Worker quic) × (reset_sc quic calloc_ok w e o ≡ some w') × Does quic mine no_refs w w'
  unfolding reset_sc wrong_direction
  reset_sc-Does calloc_ok mine w e o is live =
      let can_send =
        stream_can_send quic.is_client_stream_id quic.is_bidir_stream_id
          (quic.is_client w.libs e.cnx) e.stream_id in
      elim (Bool-cases (is_resetting o)) [
        | inl resetting ↦ (w, rw resetting refl, same-Kept mine w.resets w.scs)
        | inr fine ↦ elim (Bool-cases can_send) [
          | inl out ↦
              let (b, waits, ring) = must_wait_ends (negotiated quic w e.cnx) o e.aux in
              let (w', done, k) = by_wait o b is ring in (w', rw (fine, out, waits) done, k)
          | inr in_only ↦ (wrong_direction quic w, rw (fine, in_only) refl, same-Kept mine _ _)
        ]
      ]
    where
      reliable : ℕ
      reliable = reset_reliable_size (negotiated quic w e.cnx) o e.aux

      by_wait :
          (o : Option StreamCtx) (b : Bool)
          → ((sc : StreamCtx)
              → o ≡ some sc
              → ((q : ℕ) → one e.stream_ctx q ≤ mine q)
                × (w.scs.at e.stream_ctx ≡ some sc)
                × (0 < sc.refcount)
                × (sc.refcount + 1 < 2 ^ 32))
          → (b ≡ true → sends_from o ≡ true)
          → (w' : Worker quic) × (reset_by quic calloc_ok w e reliable (some b) ≡ some w')
            × Does quic mine no_refs w w'
      by_wait o false is ring = reset_now-Does mine w e reliable live
      by_wait none true is ring = absurd (cc (ring refl))
      by_wait (some sc) true is ring =
          let (has, there, some_ref, small) = is sc refl in
          reset_later-Does calloc_ok mine w e reliable sc has there some_ref small (ring refl)
