-- ===== src/Bridge/Worker/Asyncio/Calls.antt =====
-- Each call of asyncio, of the worker and of the stack keeps the references exact.
use aiopquic.Base.{
  ℕ, ◌+◌, ◌-◌, ◌^◌, ◌≤◌, ◌<◌, ◌≡◌, refl, sym, ap, subst, ◌∙◌, arith, true, false, not, ◌&&◌,
  Bool-cases, inl, inr, none, some, List, [], ◌∷◌, ◌++◌, ◌==◌, if◌then◌else◌,
}
use aiopquic.StreamCtx.{StreamCtx, Counters}
use aiopquic.Bridge.Resets.{DeferredReset, Ctxs, put_ctx, deferred_resets_drop_cnx}
use aiopquic.Bridge.Resets.Held as Held
use aiopquic.Bridge.Resets.Held.{drop_lem, at_put, refs, one, held, held-split}
use aiopquic.Bridge.Worker.{Quic, with_scs, sends_from}
use aiopquic.Bridge.Worker.Commands.{TxEntry, tx_event_owns_sc}
use aiopquic.Bridge.Worker.Counted.{no_refs}
use aiopquic.Bridge.Worker.Run.Swept.{run_deferred_resets-lem}
use aiopquic.Bridge.Worker.Owned.{carried, queued, unref_sc_lem}
use aiopquic.Bridge.Worker.WtResets.{tx_wt_stop_sending}
use aiopquic.Bridge.Worker.WtResets.Kept.{tx_wt_reset_stream-Does, tx_wt_stop_sending-Does}
use aiopquic.Bridge.Worker.Conserved.{IsOwned, handle_entry-Does}
use aiopquic.Bridge.Worker.Asyncio.Life.{
  Life, after, without, Step, pushes, bounces, handles, passes, closes, takes, drops, changes,
  makes, wt_resets, wt_stops, moves_on, IsExact,
}
use aiopquic.Bridge.Worker.Asyncio.Exact.{
  queued-append, at_some, Does-IsExact, adds-IsExact, ref_sc-lem, tx_push_sc-lem,
}

one_at_most : (p q : ℕ) → one p q ≤ 1
one_at_most p q = elim (Bool-cases (q == p)) [
  | inl same ↦ rw same (omega arith)
  | inr other ↦ rw other (omega arith)
]

module _ (quic : Quic) where
  pub IsExact-IsOwned : (l : Life quic) → IsExact quic l → IsOwned quic l.worker l.queue
  IsExact-IsOwned l v = record {
    has = λ q. omega (arith, v.exact q);
    small = v.small;
    rings = v.rings;
  }

  -- A reference taken where there are two to spare leaves one to spare everywhere.
  spare :
      (l : Life quic) (p : ℕ) (adds : ℕ → ℕ)
      → IsExact quic l
      → refs (l.worker.scs.at p) + 2 < 2 ^ 32
      → ((q : ℕ) → adds q ≤ one p q)
      → (q : ℕ) → refs (l.worker.scs.at q) + adds q + 1 < 2 ^ 32
  spare l p adds v room few q = elim (Bool-cases (q == p)) [
    | inl same ↦
        let here : q ≡ p = ground (arith, same) in
        omega (arith, room, few q, one_at_most p q, ap (λ x. refs (l.worker.scs.at x)) here)
    | inr other ↦
        let none_here : one p q ≡ 0 = rw other refl in omega (arith, v.small q, few q, none_here)
  ]

  carried_few : (e : TxEntry) (q : ℕ) → carried e q ≤ one e.stream_ctx q
  carried_few e q = elim (Bool-cases (not (e.stream_ctx == 0) && tx_event_owns_sc e.event_type)) [
    | inl owns ↦ rw owns (omega arith)
    | inr free ↦ rw free (omega arith)
  ]

  closed-IsExact :
      (l : Life quic) (cnx : ℕ) (ds : List DeferredReset) (s : Ctxs)
      → IsExact quic l
      → deferred_resets_drop_cnx l.worker.resets l.worker.scs cnx ≡ some (ds, s)
      → IsExact quic (after quic l (without quic l.worker ds s))
  closed-IsExact l cnx ds s v is =
      let (s', done, less, rings) =
        drop_lem l.worker.resets l.worker.scs cnx
          (λ q. (omega (arith, v.exact q), omega (arith, v.small q))) in
      let exact : (q : ℕ)
          → refs (s'.at q)
            ≡ held (Held.others l.worker.resets cnx) q + queued l.queue q + l.others q =
        λ q. omega (arith, v.exact q, less q, held-split l.worker.resets cnx q) in
      at_some
        (λ (z : List DeferredReset × Ctxs).
          IsExact quic (after quic l (without quic l.worker z.0 z.1)))
        done is
        (record {
          exact = exact;
          small = λ q. omega (arith, v.small q, less q);
          rings = λ q some_held.
              rings q (omega (arith, some_held, exact q))
                (v.rings q (omega (arith, some_held, held-split l.worker.resets cnx q)));
        })

  made-IsExact :
      (l : Life quic) (p : ℕ) (sc : StreamCtx) (c : Counters)
      → IsExact quic l
      → l.worker.scs.at p ≡ none
      → sc.refcount ≡ 1
      → IsExact quic (record l {
        worker = with_scs quic l.worker (put_ctx l.worker.scs p (some sc, c));
        others = λ q. l.others q + one p q;
      })
  made-IsExact l p sc c v free count =
      adds-IsExact quic l (put_ctx l.worker.scs p (some sc, c)) l.queue (λ q. l.others q + one p q)
        (one p) v
        (λ q. elim (Bool-cases (q == p)) [
          | inl same ↦
              let here : q ≡ p = ground (arith, same) in
              rw same (omega (arith, count, ap (λ x. refs (l.worker.scs.at x)) here ∙ ap refs free))
          | inr other ↦ rw other (omega arith)
        ])
        (at_put (λ q o. 0 < refs o → sends_from (l.worker.scs.at q) ≡ true → sends_from o ≡ true)
          l.worker.scs p (some sc) c
          (λ some_left e.
            let no_ring : sends_from (l.worker.scs.at p) ≡ false = ap sends_from free in
            absurd (cc (no_ring, e)))
          (λ q some_left e. e))
        (λ q. omega arith)
        (λ q. spare l p (one p) v (omega (arith, ap refs free)) (λ q. omega arith) q)

  pub step-IsExact : {l l' : Life quic} → IsExact quic l → Step quic l l' → IsExact quic l'
  step-IsExact v (pushes l ok e w' has room is) =
      let (s, done, more, rings) =
        tx_push_sc-lem quic true l.worker e (omega (arith, has, v.exact e.stream_ctx))
          (omega (arith, room)) in
      at_some (λ w. IsExact quic (record l { worker = w; queue = l.queue ++ ((ok, e) ∷ []) })) done
        is
        (adds-IsExact quic l s (l.queue ++ ((ok, e) ∷ [])) l.others (carried e) v more rings
          (λ q. omega (arith, queued-append l.queue ((ok, e) ∷ []) q))
          (spare l e.stream_ctx (carried e) v room (carried_few e)))
  step-IsExact v (bounces l e w' has is) =
      let (s, done, more, rings) =
        tx_push_sc-lem quic false l.worker e (omega (arith, has, v.exact e.stream_ctx))
          (v.small e.stream_ctx) in
      at_some (λ w. IsExact quic (after quic l w)) done is
        (adds-IsExact quic l s l.queue l.others no_refs v more rings (λ q. omega arith)
          (λ q. omega (arith, v.small q)))
  step-IsExact v (handles l raw ok e es w' first is) =
      let mine : (q : ℕ) → carried e q + queued es q ≡ queued l.queue q =
        λ q. ap (λ x. queued x q) (sym first) in
      let p = e.stream_ctx in
      let (w₁, done, k) =
        handle_entry-Does quic ok raw l.worker e (omega (arith, v.exact p, mine p)) (v.small p) in
      at_some (λ w. IsExact quic (record l { worker = w; queue = es })) done is
        (Does-IsExact quic l (record l { worker = w₁; queue = es }) (carried e) (carried e) v k
          (λ q. omega (arith, v.small q)) (λ q. omega (arith, mine q)))
  step-IsExact v (passes l now w' is) =
      let (w₁, done, counts, waits, owned) =
        run_deferred_resets-lem quic now l.worker l.queue (IsExact-IsOwned l v) in
      at_some (λ w. IsExact quic (after quic l w)) done is
        (record {
          exact = λ q. omega (arith, v.exact q, counts q);
          small = owned.small;
          rings = owned.rings;
        })
  step-IsExact v (closes l cnx ds s is) = closed-IsExact l cnx ds s v is
  step-IsExact v (takes l p w' some_other room is) =
      let (s, done, more, rings) =
        ref_sc-lem quic l.worker p (omega (arith, some_other, v.exact p)) (omega (arith, room)) in
      at_some (λ w. IsExact quic (record l { worker = w; others = λ q. l.others q + one p q })) done
        is
        (adds-IsExact quic l s l.queue (λ q. l.others q + one p q) (one p) v more rings
          (λ q. omega arith) (spare l p (one p) v room (λ q. omega arith)))
  step-IsExact v (drops l p w' some_other is) =
      let (s, done, k) =
        unref_sc_lem quic l.worker p (omega (arith, some_other, v.exact p))
          (omega (arith, v.small p)) in
      at_some (λ w. IsExact quic (record l { worker = w; others = λ q. l.others q - one p q })) done
        is
        (Does-IsExact quic l
          (record l { worker = with_scs quic l.worker s; others = λ q. l.others q - one p q })
          no_refs (one p) v k (λ q. omega (arith, v.small q))
          (λ q. elim (Bool-cases (q == p)) [
            | inl same ↦
                let here : q ≡ p = ground (arith, same) in
                rw same (omega (arith, some_other, ap l.others here))
            | inr other ↦ rw other (omega arith)
          ]))
  step-IsExact v (changes l p sc sc' c there count ring) =
      adds-IsExact quic l (put_ctx l.worker.scs p (some sc', c)) l.queue l.others no_refs v
        (at_put (λ q o. refs o ≡ refs (l.worker.scs.at q) + 0) l.worker.scs p (some sc') c
          (omega (arith, count, ap refs there)) (λ q. omega arith))
        (at_put (λ q o. 0 < refs o → sends_from (l.worker.scs.at q) ≡ true → sends_from o ≡ true)
          l.worker.scs p (some sc') c (λ some_left e. ring (ap sends_from (sym there) ∙ e))
          (λ q some_left e. e))
        (λ q. omega arith) (λ q. omega (arith, v.small q))
  step-IsExact v (makes l p sc c free count) = made-IsExact l p sc c v free count
  step-IsExact v (moves_on l libs) = record { exact = v.exact; small = v.small; rings = v.rings }
  step-IsExact v (wt_resets l ok session cnx stream_id code aux w' linked room is) =
      let p = quic.link_sc l.worker.libs session cnx stream_id in
      let live : (p == 0) ≡ false → 0 < refs (l.worker.scs.at p) = λ apart.
        let some_link : 1 ≤ l.others p =
          subst (λ b. (if b then 0 else 1) ≤ l.others p) apart linked in
        omega (arith, some_link, v.exact p) in
      let (w₁, done, k) =
        tx_wt_reset_stream-Does quic ok l.worker session cnx stream_id code aux live (v.small p) in
      at_some (λ w. IsExact quic (after quic l w)) done is
        (Does-IsExact quic l (after quic l w₁) (one p) no_refs v k
          (λ q. omega (arith, spare l p (one p) v room (λ q. omega arith) q)) (λ q. omega arith))
  step-IsExact v (wt_stops l session cnx stream_id code) =
      Does-IsExact quic l
        (after quic l (tx_wt_stop_sending quic l.worker session cnx stream_id code)) no_refs no_refs
        v (tx_wt_stop_sending-Does quic l.worker session cnx stream_id code)
        (λ q. omega (arith, v.small q)) (λ q. omega arith)
