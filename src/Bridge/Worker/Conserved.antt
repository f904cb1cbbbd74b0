-- ===== src/Bridge/Worker/Conserved.antt =====
-- The references of the stream contexts over any sequence of commands in the TX event ring.
use aiopquic.Base.{
  ℕ, ◌+◌, ◌^◌, ◌≤◌, ◌<◌, ◌≡◌, refl, ap, subst, arith, Bool, true, false, not, ◌&&◌, ◌||◌,
  Bool-cases, inl, inr, some, List, [], ◌∷◌, u64, ltb, ◌==◌,
}
use aiopquic.Bridge.Resets.{DeferredReset, Ctxs}
use aiopquic.Bridge.Resets.Held.{refs, one, held, one_self}
use aiopquic.Bridge.Worker.{Quic, Worker, is_alive, sends_from}
use aiopquic.Bridge.Worker.Commands.{
  Command, TxEntry, mark_active, stream_reset, stop_sending, open_flow_control,
  set_app_flow_control, set_stream_priority, tx_event_owns_sc, on_stream_reset, credit_by,
  on_open_flow_control, on_command, handle_entry, handle_all,
}
use aiopquic.Bridge.Worker.Counted.{Kept, no_refs, same-Kept, Does}
use aiopquic.Bridge.Worker.Resetting.{reset_sc-Does}
use aiopquic.Bridge.Worker.Owned.{
  carry, carried, queued, tx_event_release-Does, on_mark_active-Does, on_stop_sending-Does,
  sc_of-lem, credit_by-Does, prioritised-Does,
}

carried-one :
    (e : TxEntry) (c : Command)
    → e.event_type ≡ c
    → tx_event_owns_sc c ≡ true
    → (e.stream_ctx == 0) ≡ false
    → (q : ℕ) → carried e q ≡ one e.stream_ctx q
carried-one e c is owns apart q =
    let both : (not (e.stream_ctx == 0) && tx_event_owns_sc e.event_type) ≡ true =
      rw (apart, is, owns) refl in
    ap (λ b. carry b e q) both

carried_at : (e : TxEntry) → carried e e.stream_ctx ≤ 1
carried_at e = elim (Bool-cases (not (e.stream_ctx == 0) && tx_event_owns_sc e.event_type)) [
  | inl owns ↦ rw owns (omega (arith, one_self e.stream_ctx))
  | inr free ↦ rw free (omega arith)
]

-- What a call does, and then a drop of references.
pub seq-Kept :
    (mine drops : ℕ → ℕ) (ds ds₁ ds₂ : List DeferredReset) (s s₁ s₂ : Ctxs)
    → Kept mine no_refs ds s ds₁ s₁
    → Kept no_refs drops ds₁ s₁ ds₂ s₂
    → Kept mine drops ds s ds₂ s₂
seq-Kept mine drops ds ds₁ ds₂ s s₁ s₂ a b = record {
  counts = λ q. omega (arith, a.counts q, b.counts q);
  more = λ q. omega (arith, a.more q, b.more q);
  most = λ q. omega (arith, a.most q, b.most q);
  rings = λ q some_ref e. b.rings q some_ref (a.rings q (before q some_ref) e);
  fresh = λ q less some_ref.
      b.rings q some_ref (a.fresh q (omega (arith, less, b.most q)) (before q some_ref));
}
  where
    before : (q : ℕ) → 0 < refs (s₂.at q) → 0 < refs (s₁.at q)
    before q some_ref = omega (arith, some_ref, b.counts q, b.more q, b.most q)

module _ (quic : Quic) where
  -- Each held reset and each queued entry has its reference, counts have room for one more, and what a
  -- held reset is on has a ring to send from.
  pub record IsOwned (w : Worker quic) (es : List (Bool × TxEntry)) : Type 0 where
    pub has : (q : ℕ) → held w.resets q + queued es q ≤ refs (w.scs.at q)
    pub small : (q : ℕ) → refs (w.scs.at q) + 1 < 2 ^ 32
    pub rings : (q : ℕ) → 0 < held w.resets q → sends_from (w.scs.at q) ≡ true

  on_command-Does :
      (calloc_ok raw : Bool) (w : Worker quic) (e : TxEntry)
      → carried e e.stream_ctx ≤ refs (w.scs.at e.stream_ctx)
      → refs (w.scs.at e.stream_ctx) + 1 < 2 ^ 32
      → (w' : Worker quic) × (on_command quic calloc_ok raw e.event_type w e ≡ some w')
        × Does quic (carried e) no_refs w w'
  unfolding on_command on_stream_reset on_open_flow_control
  on_command-Does calloc_ok raw w e has small = by_type e.event_type refl
    where
      live :
          (c : Command)
          → e.event_type ≡ c
          → tx_event_owns_sc c ≡ true
          → (e.stream_ctx == 0) ≡ false
          → 0 < refs (w.scs.at e.stream_ctx)
      live c is owns apart =
          omega (arith, has, carried-one e c is owns apart e.stream_ctx, one_self e.stream_ctx)

      by_type :
          (c : Command)
          → e.event_type ≡ c
          → (w' : Worker quic) × (on_command quic calloc_ok raw c w e ≡ some w')
            × Does quic (carried e) no_refs w w'
      by_type mark_active is = (_, refl, on_mark_active-Does quic w e)
      by_type stream_reset is =
          let (o, there, is_ctx) = sc_of-lem quic w e (live stream_reset is refl) in
          let (w', done, k) =
            reset_sc-Does quic calloc_ok (carried e) w e o
              (λ sc e_o.
                let (apart, at_p) = is_ctx sc e_o in
                (
                  (λ q. omega (arith, carried-one e stream_reset is refl apart q)),
                  at_p,
                  subst (λ o. 0 < refs o) at_p (live stream_reset is refl apart),
                  subst (λ o. refs o + 1 < 2 ^ 32) at_p small,
                ))
              (live stream_reset is refl) in
          (w', unfold on_command in rw (there, on_stream_reset) done, k)
      by_type stop_sending is = (_, refl, on_stop_sending-Does quic (carried e) w e)
      by_type open_flow_control is =
          let (o, there, is_ctx) = sc_of-lem quic w e (live open_flow_control is refl) in
          (
            credit_by quic raw w e o,
            unfold on_command in rw (there, on_open_flow_control) refl,
            credit_by-Does quic raw (carried e) w e o,
          )
      by_type set_app_flow_control is = (_, refl, same-Kept (carried e) w.resets w.scs)
      by_type set_stream_priority is = (_, refl, prioritised-Does quic (carried e) w _)

  -- An entry holds at most what it carries, and drops it.
  pub handle_entry-Does :
      (calloc_ok raw : Bool) (w : Worker quic) (e : TxEntry)
      → carried e e.stream_ctx ≤ refs (w.scs.at e.stream_ctx)
      → refs (w.scs.at e.stream_ctx) + 1 < 2 ^ 32
      → (w' : Worker quic) × (handle_entry quic calloc_ok raw w e ≡ some w')
        × Does quic (carried e) (carried e) w w'
  unfolding handle_entry
  handle_entry-Does calloc_ok raw w e has small =
      elim (Bool-cases ((e.cnx == 0) || not (is_alive quic w e.cnx))) [
        | inl dead ↦
            let w₀ : Worker quic = record w {
              cnt_dropped_dead_cnx = u64 (w.cnt_dropped_dead_cnx + 1);
            } in
            let (w', done, k) = tx_event_release-Does quic w₀ e has (omega (arith, small)) in
            (w', rw dead done, seq-Kept _ _ _ _ _ _ _ _ (same-Kept (carried e) w.resets w.scs) k)
        | inr alive ↦
            let (w₁, acts, a) = on_command-Does calloc_ok raw w e has small in
            let p = e.stream_ctx in
            let (w', done, k) =
              tx_event_release-Does quic w₁ e (omega (arith, has, a.counts p, a.more p))
                (omega (arith, small, a.counts p, a.most p, carried_at e)) in
            (w', rw (alive, acts) done, seq-Kept _ _ _ _ _ _ _ _ a k)
      ]

  handled-IsOwned :
      (w w' : Worker quic) (ok : Bool) (e : TxEntry) (es : List (Bool × TxEntry))
      → IsOwned w ((ok, e) ∷ es)
      → Does quic (carried e) (carried e) w w'
      → IsOwned w' es
  handled-IsOwned w w' ok e es v k = record {
    has = has;
    small = λ q. omega (arith, v.small q, k.counts q, k.most q);
    rings = λ q some_held. elim (Bool-cases (ltb (held w.resets q) (held w'.resets q))) [
      | inl more ↦ k.fresh q (ground (arith, more)) (omega (arith, some_held, has q))
      | inr same ↦
          k.rings q (omega (arith, some_held, has q)) (v.rings q (ground (arith, same, some_held)))
    ];
  }
    where
      has : (q : ℕ) → held w'.resets q + queued es q ≤ refs (w'.scs.at q)
      has q = omega (arith, v.has q, k.counts q)

  -- Any sequence of commands for streams, with or without memory to hold a reset, each entry and each held
  -- reset having its reference, on counts with room for one more and rings for the resets held: the
  -- worker handles all of them without a fault, whether their connections live or not; each entry gives
  -- back one reference and each reset that it holds keeps one, so that a context has as many references
  -- besides those as it had; and every held reset has its reference and its ring then.
  pub handle_all-conserves :
      (raw : Bool) (w : Worker quic) (es : List (Bool × TxEntry))
      → IsOwned w es
      → (w' : Worker quic) × (handle_all quic raw w es ≡ some w')
        × ((q : ℕ)
            → refs (w'.scs.at q) + queued es q + held w.resets q
              ≡ refs (w.scs.at q) + held w'.resets q)
        × IsOwned w' []
  unfolding handle_all
  handle_all-conserves raw w [] v = (w, refl, (λ q. omega arith), v)
  handle_all-conserves raw w ((ok, e) ∷ es) v =
      let (w₁, done, k) =
        handle_entry-Does ok raw w e (omega (arith, v.has e.stream_ctx)) (v.small e.stream_ctx) in
      let (w', all, same, v') = handle_all-conserves raw w₁ es (handled-IsOwned w w₁ ok e es v k) in
      (w', rw (done, handle_all) all, (λ q. omega (arith, same q, k.counts q)), v')
