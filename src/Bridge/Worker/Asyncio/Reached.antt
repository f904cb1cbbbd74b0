-- ===== src/Bridge/Worker/Asyncio/Reached.antt =====
-- Whatever asyncio and the worker do, every reference is accounted for, and no use of a context faults.
use aiopquic.Base.{
  ℕ, ◌+◌, ◌^◌, ◌<◌, ◌≡◌, refl, ap, arith, Bool, Bool-cases, inl, inr, some, List, [], ◌∷◌, ◌==◌,
}
use aiopquic.Bridge.Resets.Held.{refs, held}
use aiopquic.Bridge.Worker.{Quic, Worker}
use aiopquic.Bridge.Worker.Commands.{TxEntry, handle_all, tx_event_owns_sc}
use aiopquic.Bridge.Worker.Run.{run_deferred_resets}
use aiopquic.Bridge.Worker.Run.Swept.{run_deferred_resets-lem}
use aiopquic.Bridge.Worker.Owned.{carried, queued, tx_event_release-Does}
use aiopquic.Bridge.Worker.Conserved.{handle_all-conserves}
use aiopquic.Bridge.Worker.Asyncio.{cleared_entry, swept_entry, tx_sc_release_undrained}
use aiopquic.Bridge.Worker.Asyncio.Life.{Life, Reach, begun, then_step, IsExact}
use aiopquic.Bridge.Worker.Asyncio.Calls.{IsExact-IsOwned, step-IsExact}

abbrev pub entries : List (Bool × TxEntry) → List TxEntry
entries [] = []
entries ((ok, e) ∷ es) = e ∷ entries es

-- What is queued with nothing of memory said.
abbrev pub borne : List TxEntry → ℕ → ℕ
borne [] q = 0
borne (e ∷ es) q = carried e q + borne es q

module _ (quic : Quic) where
  Reach-IsExact : {start l : Life quic} → IsExact quic start → Reach quic start l → IsExact quic l
  Reach-IsExact v begun = v
  Reach-IsExact v (then_step l₀ l reach step) = step-IsExact quic (Reach-IsExact v reach) step

  cleared_carries : (e : TxEntry) (q : ℕ) → carried (cleared_entry e) q ≡ 0
  cleared_carries e q = elim (Bool-cases (tx_event_owns_sc e.event_type)) [
    | inl owns ↦ rw owns refl
    | inr free ↦ elim (Bool-cases (e.stream_ctx == 0)) [
      | inl null ↦ rw (free, null) refl
      | inr there ↦ rw (free, there, free) refl
    ]
  ]

  -- The sweep of a queue, each entry having its reference.
  undrained_lem :
      (w : Worker quic) (es : List (Bool × TxEntry)) (rest : ℕ → ℕ)
      → ((q : ℕ) → refs (w.scs.at q) ≡ queued es q + rest q)
      → ((q : ℕ) → refs (w.scs.at q) < 2 ^ 32)
      → (w' : Worker quic) × (fs : List TxEntry) × (tx_sc_release_undrained quic w (entries es)
          ≡ some (w', fs))
        × ((q : ℕ) → (refs (w'.scs.at q) ≡ rest q) × (borne fs q ≡ 0))
  unfolding tx_sc_release_undrained
  undrained_lem w [] rest v small = (w, [], refl, λ q. (omega (arith, v q), refl))
  undrained_lem w ((ok, e) ∷ es) rest v small =
      let p = e.stream_ctx in
      let (w₁, done, k) = tx_event_release-Does quic w e (omega (arith, v p)) (small p) in
      let less : (q : ℕ) → refs (w₁.scs.at q) + carried e q ≡ refs (w.scs.at q) =
        λ q. omega (arith, k.counts q, k.more q, k.most q) in
      let (w', fs, all, left) =
        undrained_lem w₁ es rest (λ q. omega (arith, v q, less q))
          (λ q. omega (arith, small q, less q)) in
      (
        w',
        cleared_entry e ∷ fs,
        rw (done, tx_sc_release_undrained) (ap (swept_entry quic e) all),
        λ q. ((left q).0, omega (arith, (left q).1, cleared_carries e q)),
      )

  -- From any state where each reference of a context is that of a held reset, of a queued entry or of
  -- somebody else, on counts with room for one more and rings for the resets held, after any calls of
  -- asyncio, of the worker and of the stack in any order: each reference still is one of these; the worker
  -- handles all that is queued, with any answers about memory, and passes over the held resets, without
  -- a fault; and a sweep after it stopped drops just the references of the queue and clears its entries.
  pub Reach-owned :
      (start l : Life quic) (raw : Bool) (now : ℕ)
      → IsExact quic start
      → Reach quic start l
      → ((q : ℕ)
          → refs (l.worker.scs.at q) ≡ held l.worker.resets q + queued l.queue q + l.others q)
        × ((w' : Worker quic) × (handle_all quic raw l.worker l.queue ≡ some w'))
        × ((w' : Worker quic) × (run_deferred_resets quic now l.worker ≡ some w'))
        × ((w' : Worker quic) × (fs : List TxEntry) × (tx_sc_release_undrained quic l.worker
                (entries l.queue)
              ≡ some (w', fs))
            × ((q : ℕ)
                → (refs (w'.scs.at q) ≡ held l.worker.resets q + l.others q) × (borne fs q ≡ 0)))
  Reach-owned start l raw now v reach =
      let x = Reach-IsExact v reach in
      let (handled, all, same, owned) =
        handle_all-conserves quic raw l.worker l.queue (IsExact-IsOwned quic l x) in
      let (passed, runs, counts, waits, still) =
        run_deferred_resets-lem quic now l.worker l.queue (IsExact-IsOwned quic l x) in
      (
        x.exact,
        (handled, all),
        (passed, runs),
        undrained_lem l.worker l.queue (λ q. held l.worker.resets q + l.others q)
            (λ q. omega (arith, x.exact q)) (λ q. omega (arith, x.small q)),
      )
