-- ===== src/Bridge/Worker/Asyncio/Exact.antt =====
-- Every call keeps the references exact.
use aiopquic.Base.{
  ℕ, ◌+◌, ◌^◌, ◌≤◌, ◌<◌, ◌≡◌, refl, sym, ap, subst, ◌∙◌, arith, Bool, true, false, not, ◌&&◌,
  Bool-cases, inl, inr, Option, none, some, List, [], ◌∷◌, ◌++◌, ltb, ◌==◌, if◌then◌else◌,
}
use aiopquic.StreamCtx.{ref}
use aiopquic.Bridge.Resets.{Ctxs, put_ctx}
use aiopquic.Bridge.Resets.Held.{RingsStay, at_put, refs, one, held, one_self}
use aiopquic.Bridge.Worker.{Quic, Worker, with_scs, sends_from}
use aiopquic.Bridge.Worker.Commands.{TxEntry, tx_event_owns_sc}
use aiopquic.Bridge.Worker.Counted.{live-ctx, Does}
use aiopquic.Bridge.Worker.Owned.{carry, carried, queued, unref_sc_lem}
use aiopquic.Bridge.Worker.Asyncio.{credit_entry, ref_sc, after_ref, tx_push_sc, push_fc_credit}
use aiopquic.Bridge.Worker.Asyncio.Life.{Life, IsExact}

pub queued-append :
    (es fs : List (Bool × TxEntry)) (q : ℕ) → queued (es ++ fs) q ≡ queued es q + queued fs q
queued-append [] fs q = omega arith
queued-append ((ok, e) ∷ es) fs q = omega (arith, queued-append es fs q)

-- Of two results the one that is given.
pub at_some :
    {A : Type 0} {o : Option A} (P : A → Type 0) {a b : A} → o ≡ some a → o ≡ some b → P a → P b
at_some {A = A} P {a} e f = subst P (ap of (sym e ∙ f))
  where
    of : Option A → A
    of none = a
    of (some x) = x

module _ (quic : Quic) where
  -- A call that drops references which the queue or the others had, with room for what it holds.
  pub Does-IsExact :
      (l l' : Life quic) (mine drops : ℕ → ℕ)
      → IsExact quic l
      → Does quic mine drops l.worker l'.worker
      → ((q : ℕ) → refs (l.worker.scs.at q) + mine q + 1 < 2 ^ 32 + drops q)
      → ((q : ℕ) → drops q + queued l'.queue q + l'.others q ≡ queued l.queue q + l.others q)
      → IsExact quic l'
  Does-IsExact l l' mine drops v k room given = record {
    exact = exact;
    small = λ q. omega (arith, room q, k.counts q, k.most q);
    rings = λ q some_held.
        elim (Bool-cases (ltb (held l.worker.resets q) (held l'.worker.resets q))) [
          | inl more ↦ k.fresh q (ground (arith, more)) (omega (arith, some_held, exact q))
          | inr same ↦
              k.rings q (omega (arith, some_held, exact q))
                (v.rings q (ground (arith, same, some_held)))
        ];
  }
    where
      exact :
          (q : ℕ)
          → refs (l'.worker.scs.at q) ≡ held l'.worker.resets q + queued l'.queue q + l'.others q
      exact q = omega (arith, v.exact q, k.counts q, given q)

  -- A call that takes references for the queue or the others.
  pub adds-IsExact :
      (l : Life quic) (s : Ctxs) (queue : List (Bool × TxEntry)) (others adds : ℕ → ℕ)
      → IsExact quic l
      → ((q : ℕ) → refs (s.at q) ≡ refs (l.worker.scs.at q) + adds q)
      → RingsStay l.worker.scs s
      → ((q : ℕ) → queued queue q + others q ≡ queued l.queue q + l.others q + adds q)
      → ((q : ℕ) → refs (l.worker.scs.at q) + adds q + 1 < 2 ^ 32)
      → IsExact quic (record { worker = with_scs quic l.worker s; queue = queue; others = others })
  adds-IsExact l s queue others adds v more rings given small = record {
    exact = λ q. omega (arith, v.exact q, more q, given q);
    small = λ q. omega (arith, small q, more q);
    rings =
        λ q some_held. rings q (omega (arith, some_held, v.exact q, more q)) (v.rings q some_held);
  }

  -- A reference more.
  pub ref_sc-lem :
      (w : Worker quic) (p : ℕ)
      → 0 < refs (w.scs.at p)
      → refs (w.scs.at p) + 1 < 2 ^ 32
      → (s : Ctxs) × (ref_sc quic w p ≡ some (with_scs quic w s))
        × ((q : ℕ) → refs (s.at q) ≡ refs (w.scs.at q) + one p q)
        × RingsStay w.scs s
  unfolding ref_sc ref
  ref_sc-lem w p some_ref small =
      let (sc, there) = live-ctx w.scs p some_ref in
      (
        put_ctx w.scs p (some (ref sc), w.scs.counters),
        rw (there, ref_sc) refl,
        (λ q. elim (Bool-cases (q == p)) [
          | inl same ↦
              let here : q ≡ p = ground (arith, same) in
              rw same (
                omega
                  (arith, small, ap (λ x. refs (w.scs.at x)) here ∙ ap refs there, ap refs there))
          | inr other ↦ rw other (omega arith)
        ]),
        at_put (λ q o. 0 < refs o → sends_from (w.scs.at q) ≡ true → sends_from o ≡ true) w.scs p
            (some (ref sc)) w.scs.counters (λ some_left e. ap sends_from (sym there) ∙ e)
            (λ q some_left e. e),
      )

  -- A push takes the reference that the entry carries where the ring takes it, and none where not.
  pub tx_push_sc-lem :
      (accepted : Bool) (w : Worker quic) (e : TxEntry)
      → carried e e.stream_ctx ≤ refs (w.scs.at e.stream_ctx)
      → refs (w.scs.at e.stream_ctx) + 1 < 2 ^ 32
      → (s : Ctxs) × (tx_push_sc quic accepted w e ≡ some (with_scs quic w s))
        × ((q : ℕ) → refs (s.at q) ≡ refs (w.scs.at q) + (if accepted then carried e q else 0))
        × RingsStay w.scs s
  unfolding tx_push_sc
  tx_push_sc-lem accepted w e has small =
      elim (Bool-cases (not (e.stream_ctx == 0) && tx_event_owns_sc e.event_type)) [
        | inl owns ↦
            let mine : (q : ℕ) → carried e q ≡ one e.stream_ctx q =
              λ q. ap (λ b. carry b e q) owns in
            let some_ref : 0 < refs (w.scs.at e.stream_ctx) =
              omega (arith, has, mine e.stream_ctx, one_self e.stream_ctx) in
            let (s₁, taken, more, rings) = ref_sc-lem w e.stream_ctx some_ref small in
            let (s, done, adds, kept) = by_answer accepted s₁ more rings mine in
            (s, rw (owns, taken) done, adds, kept)
        | inr free ↦
            let mine : (q : ℕ) → carried e q ≡ 0 = λ q. ap (λ b. carry b e q) free in
            (
              w.scs,
              rw free refl,
              (λ q. elim (Bool-cases accepted) [
                | inl in_ring ↦ rw in_ring (omega (arith, mine q))
                | inr out ↦ rw out (omega arith)
              ]),
              (λ q some_ref e. e),
            )
      ]
    where
      by_answer :
          (accepted : Bool) (s₁ : Ctxs)
          → ((q : ℕ) → refs (s₁.at q) ≡ refs (w.scs.at q) + one e.stream_ctx q)
          → RingsStay w.scs s₁
          → ((q : ℕ) → carried e q ≡ one e.stream_ctx q)
          → (s : Ctxs) × (after_ref quic accepted e.stream_ctx (some (with_scs quic w s₁))
              ≡ some (with_scs quic w s))
            × ((q : ℕ) → refs (s.at q) ≡ refs (w.scs.at q) + (if accepted then carried e q else 0))
            × RingsStay w.scs s
      by_answer true s₁ more rings mine = (s₁, refl, (λ q. omega (arith, more q, mine q)), rings)
      by_answer false s₁ more rings mine =
          let p = e.stream_ctx in
          let at_p : one p p ≡ 1 = one_self p in
          let (s, done, k) =
            unref_sc_lem quic (with_scs quic w s₁) p (omega (arith, more p, at_p))
              (omega (arith, more p, at_p, small)) in
          (
            s,
            done,
            (λ q. omega (arith, more q, k.counts q)),
            λ q some_ref r.
                k.rings q some_ref (rings q (omega (arith, some_ref, more q, k.counts q)) r),
          )

  -- A push of credit on a connection is the push of its entry.
  pub push_fc_credit-eq :
      (accepted : Bool) (w : Worker quic) (cnx stream_id p : ℕ)
      → 0 < cnx
      → push_fc_credit quic accepted w cnx stream_id p
        ≡ tx_push_sc quic accepted w (credit_entry cnx stream_id p)
  unfolding push_fc_credit tx_push_sc
  push_fc_credit-eq accepted w cnx stream_id p some_cnx =
      let up : (cnx == 0) ≡ false = ground (arith, some_cnx) in
      elim (Bool-cases (p == 0)) [ inl null ↦ rw (up, null) refl | inr there ↦ rw (up, there) refl ]
