-- ===== src/Bridge/Worker/Counted.antt =====
-- References of the stream contexts while the worker handles a command: the held resets and the
-- commands that are queued each have one.
use aiopquic.Base.{
  ℕ, ◌+◌, ◌≤◌, ◌<◌, ◌≡◌, refl, sym, ap, subst, ◌∙◌, arith, Bool, true, false, Bool-cases, inl, inr,
  ◌||◌, Option, none, some, List, ltb, leb, ◌==◌,
}
use aiopquic.StreamBuf.{StreamBuf}
use aiopquic.StreamCtx.{StreamCtx, Counters, tx_abandon, abandon_ring}
use aiopquic.Bridge.Resets.{DeferredReset, Ctxs, put_ctx}
use aiopquic.Bridge.Resets.Held.{at_put, refs, held}
use aiopquic.Bridge.Worker.{
  Quic, Worker, cnx_closing, with_libs, with_scs, sends_from, reached, stream_reattach_sc,
  abandoned, abandon_at, reattach_and_abandon,
}

abbrev pub no_refs : ℕ → ℕ
no_refs q = 0

-- A call that may hold resets, on a context at most as often as `mine` says, and drops as many references
-- as `drops` says: the references that come are those of the resets it holds, a context that is still
-- there keeps its ring, and what is held has one.
pub record Kept (mine drops : ℕ → ℕ) (ds : List DeferredReset) (s : Ctxs) (ds' : List DeferredReset)
    (s' : Ctxs) : Type 0 where
  pub counts : (q : ℕ) → refs (s'.at q) + drops q + held ds q ≡ refs (s.at q) + held ds' q
  pub more : (q : ℕ) → held ds q ≤ held ds' q
  pub most : (q : ℕ) → held ds' q ≤ held ds q + mine q
  pub rings :
      (q : ℕ) → 0 < refs (s'.at q) → sends_from (s.at q) ≡ true → sends_from (s'.at q) ≡ true
  pub fresh : (q : ℕ) → held ds q < held ds' q → 0 < refs (s'.at q) → sends_from (s'.at q) ≡ true

pub same-Kept : (mine : ℕ → ℕ) (ds : List DeferredReset) (s : Ctxs) → Kept mine no_refs ds s ds s
same-Kept mine ds s = record {
  counts = λ q. omega arith;
  more = λ q. omega arith;
  most = λ q. omega arith;
  rings = λ q some_ref e. e;
  fresh = λ q less some_ref. absurd (omega (arith, less));
}

-- A store that changes neither the count of a context nor whether it has a ring.
pub put-Kept :
    (mine : ℕ → ℕ) (ds : List DeferredReset) (s : Ctxs) (p : ℕ) (sc sc' : StreamCtx) (c : Counters)
    → s.at p ≡ some sc
    → sc'.refcount ≡ sc.refcount
    → sends_from (some sc') ≡ sends_from (some sc)
    → Kept mine no_refs ds s ds (put_ctx s p (some sc', c))
put-Kept mine ds s p sc sc' c there count ring = record {
  counts =
      at_put (λ q o. refs o + 0 + held ds q ≡ refs (s.at q) + held ds q) s p (some sc') c
        (omega (arith, count, ap refs there)) (λ q. omega arith);
  more = λ q. omega arith;
  most = λ q. omega arith;
  rings =
      at_put (λ q o. 0 < refs o → sends_from (s.at q) ≡ true → sends_from o ≡ true) s p (some sc') c
        (λ some_ref e. ring ∙ (sym (ap sends_from there) ∙ e)) (λ q some_ref e. e);
  fresh = λ q less some_ref. absurd (omega (arith, less));
}

abandon_ring-count :
    (sb : StreamBuf) (sc : StreamCtx) (c : Counters)
    → sc.tx ≡ some sb
    → ((abandon_ring sb sc c).0.refcount ≡ sc.refcount)
      × (sends_from (some (abandon_ring sb sc c).0) ≡ true)
unfolding abandon_ring
abandon_ring-count sb sc c there = elim (Bool-cases (ltb sb.head sb.tail)) [
  | inl some_bytes ↦ (rw some_bytes refl, rw some_bytes refl)
  | inr no_bytes ↦ (rw no_bytes refl, rw (no_bytes, there) refl)
]

-- What `reached` says, and false where it says nothing.
abbrev pub answer : Option Bool → Bool
answer none = false
answer (some b) = b

abandon_ring-reached :
    (sb : StreamBuf) (sc : StreamCtx) (c : Counters)
    → sc.tx ≡ some sb
    → reached (some sc) ≡ some true
    → reached (some (abandon_ring sb sc c).0) ≡ some true
unfolding abandon_ring
abandon_ring-reached sb sc c there was = elim (Bool-cases (ltb sb.head sb.tail)) [
  | inl some_bytes ↦
      let is : reached (some sc) ≡ some (leb sc.tx_reliable_size sb.head) = rw there refl in
      let sent : leb sc.tx_reliable_size sb.head ≡ true = ap answer (sym is ∙ was) in
      let onward : leb sc.tx_reliable_size sb.tail ≡ true = ground (arith, some_bytes, sent) in
      rw some_bytes (ap some onward)
  | inr no_bytes ↦ rw no_bytes was
]

tx_abandon-count :
    (sc : StreamCtx) (c : Counters)
    → ((tx_abandon sc c).0.refcount ≡ sc.refcount)
      × (sends_from (some (tx_abandon sc c).0) ≡ sends_from (some sc))
unfolding tx_abandon
tx_abandon-count sc c = by_ring sc.tx refl
  where
    on_ring : Option StreamBuf → StreamCtx × Counters
    on_ring o = elim o [ none ↦ (sc, c) | some sb ↦ abandon_ring sb sc c ]

    by_ring :
        (o : Option StreamBuf)
        → sc.tx ≡ o
        → ((tx_abandon sc c).0.refcount ≡ sc.refcount)
          × (sends_from (some (tx_abandon sc c).0) ≡ sends_from (some sc))
    by_ring none e =
        (ap (λ o. (on_ring o).0.refcount) e, ap (λ o. sends_from (some (on_ring o).0)) e)
    by_ring (some sb) e =
        let (count, ring) = abandon_ring-count sb sc c e in
        (
          ap (λ o. (on_ring o).0.refcount) e ∙ count,
          ap (λ o. sends_from (some (on_ring o).0)) e ∙ (ring ∙ rw e refl),
        )

-- Once sent as far as a reset waits for, a context stays so.
abbrev pub Advances : Ctxs → Ctxs → Type 0
Advances s s' = (q : ℕ) → reached (s.at q) ≡ some true → reached (s'.at q) ≡ some true

tx_abandon-reached :
    (sc : StreamCtx) (c : Counters)
    → reached (some sc) ≡ some true
    → reached (some (tx_abandon sc c).0) ≡ some true
unfolding tx_abandon
tx_abandon-reached sc c was = by_ring sc.tx refl
  where
    on_ring : Option StreamBuf → StreamCtx × Counters
    on_ring o = elim o [ none ↦ (sc, c) | some sb ↦ abandon_ring sb sc c ]

    by_ring : (o : Option StreamBuf) → sc.tx ≡ o → reached (some (tx_abandon sc c).0) ≡ some true
    by_ring none e = ap (λ o. reached (some (on_ring o).0)) e ∙ was
    by_ring (some sb) e =
        ap (λ o. reached (some (on_ring o).0)) e ∙ abandon_ring-reached sb sc c e was

pub put-Advances :
    (s : Ctxs) (p : ℕ) (sc sc' : StreamCtx) (c : Counters)
    → s.at p ≡ some sc
    → (reached (some sc) ≡ some true → reached (some sc') ≡ some true)
    → Advances s (put_ctx s p (some sc', c))
put-Advances s p sc sc' c there onward =
    at_put (λ q o. reached (s.at q) ≡ some true → reached o ≡ some true) s p (some sc') c
      (λ e. onward (ap reached (sym there) ∙ e)) (λ q e. e)

-- Where there is a context with a reference.
pub live-ctx : (s : Ctxs) (p : ℕ) → 0 < refs (s.at p) → (sc : StreamCtx) × (s.at p ≡ some sc)
live-ctx s p = by_context (s.at p) refl
  where
    by_context :
        (o : Option StreamCtx) → s.at p ≡ o → 0 < refs o → (sc : StreamCtx) × (s.at p ≡ some sc)
    by_context none e some_ref = absurd (omega (arith, some_ref))
    by_context (some sc) e some_ref = (sc, e)

module _ (quic : Quic) where
  -- What a call on a worker does.
  abbrev pub Does : (ℕ → ℕ) → (ℕ → ℕ) → Worker quic → Worker quic → Type 0
  Does mine drops w w' = Kept mine drops w.resets w.scs w'.resets w'.scs

  pub abandon_at-Does :
      (mine : ℕ → ℕ) (w : Worker quic) (p : ℕ)
      → ((p == 0) ≡ false → 0 < refs (w.scs.at p))
      → (w' : Worker quic) × (abandon_at quic w p ≡ some w')
        × Does mine no_refs w w'
        × Advances w.scs w'.scs
  unfolding abandon_at
  abandon_at-Does mine w p live = elim (Bool-cases (p == 0)) [
    | inl null ↦ (w, rw null refl, same-Kept mine w.resets w.scs, λ q e. e)
    | inr there ↦
        let (sc, e) = live-ctx w.scs p (live there) in
        let (count, ring) = tx_abandon-count sc w.scs.counters in
        (
          with_scs quic w (abandoned quic w.scs p (tx_abandon sc w.scs.counters)),
          rw (there, e) refl,
          put-Kept mine w.resets w.scs p sc _ _ e count ring,
          put-Advances w.scs p sc (tx_abandon sc w.scs.counters).0 (tx_abandon sc w.scs.counters).1
              e (tx_abandon-reached sc w.scs.counters),
        )
  ]

  -- A reattachment gives the address or NULL, and leaves the contexts alone.
  pub stream_reattach_sc-lem :
      (w : Worker quic) (cnx stream_id p rc : ℕ)
      → (((stream_reattach_sc quic w cnx stream_id p rc).0 == 0) ≡ false
          → (stream_reattach_sc quic w cnx stream_id p rc).0 ≡ p)
        × ((stream_reattach_sc quic w cnx stream_id p rc).1.scs ≡ w.scs)
        × ((stream_reattach_sc quic w cnx stream_id p rc).1.resets ≡ w.resets)
  unfolding stream_reattach_sc
  stream_reattach_sc-lem w cnx stream_id p rc =
      elim (Bool-cases ((p == 0) || (rc == quic.error_invalid_stream_id))) [
        | inl left ↦ rw left ((λ e. absurd (ground (arith, e))), refl, refl)
        | inr back ↦ elim (Bool-cases (cnx_closing quic w cnx)) [
          | inl closing ↦ rw (back, closing) ((λ e. absurd (ground (arith, e))), refl, refl)
          | inr up ↦ rw (back, up) ((λ e. refl), refl, refl)
        ]
      ]

  pub reattach_and_abandon-Does :
      (mine : ℕ → ℕ) (w : Worker quic) (cnx stream_id p : ℕ) (rq : ℕ × quic.Q)
      → ((p == 0) ≡ false → 0 < refs (w.scs.at p))
      → (w' : Worker quic) × (reattach_and_abandon quic w cnx stream_id p rq ≡ some w')
        × Does mine no_refs w w'
        × Advances w.scs w'.scs
  reattach_and_abandon-Does mine w cnx stream_id p rq live =
      let w₀ = with_libs quic w rq.1 in
      let r = stream_reattach_sc quic w₀ cnx stream_id p rq.0 in
      let (here, scs, resets) = stream_reattach_sc-lem w₀ cnx stream_id p rq.0 in
      let (w', e, k, onward) = abandon_at-Does mine r.1 r.0 (λ there.
        let at_p = here there in
        subst (λ s. 0 < refs (s.at r.0)) (sym scs)
          (subst (λ x. 0 < refs (w.scs.at x)) (sym at_p)
            (live (ap (λ x. x == 0) (sym at_p) ∙ there)))) in
      (
        w',
        e,
        subst (λ s. Kept mine no_refs w.resets s w'.resets w'.scs) scs
            (subst (λ ds. Kept mine no_refs ds r.1.scs w'.resets w'.scs) resets k),
        subst (λ s. Advances s w'.scs) scs onward,
      )
