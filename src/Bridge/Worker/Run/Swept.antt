-- ===== src/Bridge/Worker/Run/Swept.antt =====
-- The held resets after a send pass: those that are ready are gone, and each that is gone has given its
-- reference back.
use aiopquic.Base.{
  ℕ, ◌+◌, ◌^◌, ◌≤◌, ◌<◌, ◌≡◌, refl, sym, ap, ◌∙◌, arith, Bool, true, false, Bool-cases, inl, inr,
  Option, none, some, List, [], ◌∷◌, sub64, leb, if◌then◌else◌,
}
use aiopquic.StreamBuf.{StreamBuf}
use aiopquic.StreamCtx.{StreamCtx}
use aiopquic.Bridge.Resets.{DeferredReset, Ctxs}
use aiopquic.Bridge.Resets.Held.{refs, one, held, one_self}
use aiopquic.Bridge.Worker.{Quic, Worker, is_alive, sends_from, reached}
use aiopquic.Bridge.Worker.Commands.{TxEntry}
use aiopquic.Bridge.Worker.Counted.{answer}
use aiopquic.Bridge.Worker.Owned.{queued}
use aiopquic.Bridge.Worker.Conserved.{IsOwned}
use aiopquic.Bridge.Worker.Run.{stays, run_list, with_list, sweep_us, run_deferred_resets}
use aiopquic.Bridge.Worker.Run.Leave.{Onward, leave-Does}

-- Entries whose reliable bytes are not all sent.
abbrev pub Waits : List DeferredReset → Ctxs → Type 0
Waits [] s = Unit
Waits (d ∷ ds) s = (reached (s.at d.sc) ≡ some false) × Waits ds s

reached_known :
    (o : Option StreamCtx) → sends_from o ≡ true → (ready : Bool) × (reached o ≡ some ready)
reached_known none e = absurd (cc (e))
reached_known (some sc) e = by_ring sc.tx refl e
  where
    by_ring :
        (o : Option StreamBuf)
        → sc.tx ≡ o
        → sends_from (some sc) ≡ true
        → (ready : Bool) × (reached (some sc) ≡ some ready)
    by_ring none e some_ring =
        let no_ring : sends_from (some sc) ≡ false = rw e refl in absurd (cc (no_ring, some_ring))
    by_ring (some sb) e some_ring = (leb sc.tx_reliable_size sb.head, rw e refl)

-- Who waits after a step waited before it.
before-Waits :
    (ds : List DeferredReset) (s s' : Ctxs)
    → ((q : ℕ) → 0 < held ds q → (sends_from (s.at q) ≡ true) × (0 < refs (s'.at q)))
    → Onward s s'
    → Waits ds s'
    → Waits ds s
before-Waits [] s s' there onward w = tt
before-Waits (d ∷ ds) s s' there onward (here, rest) =
    let (ring, some_ref) = there d.sc (omega (arith, one_self d.sc)) in
    let (ready, is) = reached_known (s.at d.sc) ring in
    (
      by_ready ready is some_ref,
      before-Waits ds s s' (λ q some_held. there q (omega (arith, some_held))) onward rest,
    )
  where
    by_ready :
        (ready : Bool)
        → reached (s.at d.sc) ≡ some ready
        → 0 < refs (s'.at d.sc)
        → reached (s.at d.sc) ≡ some false
    by_ready false is some_ref = is
    by_ready true is some_ref =
        let differ : true ≡ false = ap answer (sym (onward d.sc some_ref is) ∙ here) in
        absurd (cc (differ))

not_ready : (ready sweep alive : Bool) → stays ready sweep alive ≡ true → ready ≡ false
not_ready false sweep alive e = refl
not_ready true sweep alive e = absurd (cc (e))

module _ (quic : Quic) where
  -- What the walk along a list leaves, `others` of the references not being those of the list.
  record Walked (sweep : Bool) (ds : List DeferredReset) (w : Worker quic) : Type 0 where
    kept : List DeferredReset
    left : Worker quic
    done : run_list quic sweep ds w ≡ some (kept, left)
    counts : (q : ℕ) → refs (left.scs.at q) + held ds q ≡ refs (w.scs.at q) + held kept q
    fewer : (q : ℕ) → held kept q ≤ held ds q
    rings :
        (q : ℕ)
        → 0 < refs (left.scs.at q)
        → sends_from (w.scs.at q) ≡ true
        → sends_from (left.scs.at q) ≡ true
    waits : Waits kept w.scs

  run_list-Walked :
      (sweep : Bool) (ds : List DeferredReset) (w : Worker quic) (others : ℕ → ℕ)
      → ((q : ℕ) → held ds q + others q ≤ refs (w.scs.at q))
      → ((q : ℕ) → refs (w.scs.at q) < 2 ^ 32)
      → ((q : ℕ) → 0 < held ds q → sends_from (w.scs.at q) ≡ true)
      → Walked sweep ds w
  unfolding run_list
  run_list-Walked sweep [] w others has small rings = record {
    kept = [];
    left = w;
    done = refl;
    counts = λ q. refl;
    fewer = λ q. omega arith;
    rings = λ q some_ref e. e;
    waits = tt;
  }
  run_list-Walked sweep (d ∷ ds) w others has small rings =
      let mine : one d.sc d.sc ≡ 1 = one_self d.sc in
      let (ready, is) = reached_known (w.scs.at d.sc) (rings d.sc (omega (arith, mine))) in
      elim (Bool-cases (stays ready sweep (is_alive quic w d.cnx))) [
        | inl stay ↦
            let v =
              run_list-Walked sweep ds w (λ q. others q + one d.sc q) (λ q. omega (arith, has q))
                small (λ q some_held. rings q (omega (arith, some_held))) in
            record {
              kept = d ∷ v.kept;
              left = v.left;
              done = rw (is, run_list, stay, v.done) refl;
              counts = λ q. omega (arith, v.counts q);
              fewer = λ q. omega (arith, v.fewer q);
              rings = v.rings;
              waits = (is ∙ ap some (not_ready ready sweep (is_alive quic w d.cnx) stay), v.waits);
            }
        | inr go ↦
            let (w₁, finished, k, onward) =
              leave-Does quic w d (omega (arith, has d.sc, mine)) (small d.sc) in
            let fewer : (q : ℕ) → refs (w₁.scs.at q) + one d.sc q ≡ refs (w.scs.at q) =
              λ q. omega (arith, k.counts q, k.more q, k.most q) in
            let has₁ : (q : ℕ) → held ds q + others q ≤ refs (w₁.scs.at q) =
              λ q. omega (arith, has q, fewer q) in
            let v =
              run_list-Walked sweep ds w₁ others has₁ (λ q. omega (arith, small q, fewer q))
                (λ q some_held.
                  k.rings q (omega (arith, some_held, has₁ q))
                    (rings q (omega (arith, some_held)))) in
            record {
              kept = v.kept;
              left = v.left;
              done = rw (is, run_list, go, finished) v.done;
              counts = λ q. omega (arith, v.counts q, fewer q);
              fewer = λ q. omega (arith, v.fewer q);
              rings = λ q some_ref e.
                  v.rings q some_ref (k.rings q (omega (arith, some_ref, v.counts q, v.fewer q)) e);
              waits =
                  before-Waits v.kept w.scs w₁.scs
                    (λ q some_held. (
                      rings q (omega (arith, some_held, v.fewer q)),
                      omega (arith, some_held, v.fewer q, has₁ q),
                    ))
                    onward v.waits;
            }
      ]

  -- The held resets after a send pass, each of them and each queued command having its reference, on counts
  -- with room for one more and rings for the resets: the walk ends without a fault; each entry that leaves
  -- gives back its reference and no other reference goes or comes; each entry that stays waits for reliable
  -- bytes that were not sent before the pass; and what stays and what is queued have their references.
  pub run_deferred_resets-lem :
      (now : ℕ) (w : Worker quic) (es : List (Bool × TxEntry))
      → IsOwned quic w es
      → (w' : Worker quic) × (run_deferred_resets quic now w ≡ some w')
        × ((q : ℕ) → refs (w'.scs.at q) + held w.resets q ≡ refs (w.scs.at q) + held w'.resets q)
        × Waits w'.resets w.scs
        × IsOwned quic w' es
  unfolding run_deferred_resets
  run_deferred_resets-lem now w es v =
      let sweep = leb sweep_us (sub64 now w.resets_swept) in
      let w₀ : Worker quic = record w { resets_swept = if sweep then now else w.resets_swept } in
      let r =
        run_list-Walked sweep w.resets w₀ (queued es) v.has (λ q. omega (arith, v.small q))
          v.rings in
      let has : (q : ℕ) → held r.kept q + queued es q ≤ refs (r.left.scs.at q) =
        λ q. omega (arith, v.has q, r.counts q) in
      (
        record r.left { resets = r.kept },
        ap (with_list quic) r.done,
        r.counts,
        r.waits,
        record {
          has = has;
          small = λ q. omega (arith, v.small q, r.counts q, r.fewer q);
          rings = λ q some_held.
              r.rings q (omega (arith, some_held, has q))
                (v.rings q (omega (arith, some_held, r.fewer q)));
        },
      )
