-- ===== src/Bridge/Resets/Held.antt =====
-- The references of the held resets: each entry has one, and it is dropped with the entry.
use aiopquic.Base.{
  ℕ, ◌+◌, ◌^◌, ◌≤◌, ◌<◌, ◌≡◌, refl, ap, sym, subst, ◌∙◌, arith, Bool, true, false, Bool-cases, inl,
  inr, Option, none, some, List, [], ◌∷◌, ◌==◌, if◌then◌else◌,
}
use aiopquic.StreamCtx.{StreamCtx, Counters, ref, destroy}
use aiopquic.Bridge.Resets.{
  sends_from, DeferredReset, Ctxs, put_ctx, deferred_reset_free, deferred_resets_drop_cnx,
  defer_reset,
}

-- The references of a context, 0 of none.
abbrev pub refs : Option StreamCtx → ℕ
refs none = 0
refs (some sc) = sc.refcount

abbrev pub one : ℕ → ℕ → ℕ
one p q = if q == p then 1 else 0

-- How many entries hold the context at `q`.
abbrev pub held : List DeferredReset → ℕ → ℕ
held [] q = 0
held (d ∷ ds) q = one d.sc q + held ds q

-- The entries of the connection, and those of the others.
abbrev pub gone : List DeferredReset → ℕ → List DeferredReset
gone [] cnx = []
gone (d ∷ ds) cnx = let rest = gone ds cnx in if d.cnx == cnx then d ∷ rest else rest

abbrev pub others : List DeferredReset → ℕ → List DeferredReset
others [] cnx = []
others (d ∷ ds) cnx = let rest = others ds cnx in if d.cnx == cnx then rest else d ∷ rest

-- Each entry has a reference, and the counts are 32-bit words.
abbrev pub IsCounted : List DeferredReset → Ctxs → Type 0
IsCounted ds s = (q : ℕ) → (held ds q ≤ refs (s.at q)) × (refs (s.at q) < 2 ^ 32)

pub held-split :
    (ds : List DeferredReset) (cnx q : ℕ)
    → held (others ds cnx) q + held (gone ds cnx) q ≡ held ds q
held-split [] cnx q = omega arith
held-split (d ∷ ds) cnx q = elim (Bool-cases (d.cnx == cnx)) [
  | inl same ↦ rw same (omega (arith, held-split ds cnx q))
  | inr other ↦ rw other (omega (arith, held-split ds cnx q))
]

pub destroy-refs :
    (sc : StreamCtx) (c : Counters)
    → 0 < sc.refcount
    → sc.refcount < 2 ^ 32
    → refs (destroy sc c).0 + 1 ≡ sc.refcount
unfolding destroy
destroy-refs sc c some_ref word = elim (Bool-cases (sc.refcount == 1)) [
  | inl last ↦ rw last (ground (arith, last))
  | inr shared ↦ rw shared (omega (arith, some_ref, word))
]

pub one_self : (p : ℕ) → one p p ≡ 1
one_self p = ground arith

-- What stands at an address after a store there.
pub at_put :
    (P : ℕ → Option StreamCtx → Type 0) (s : Ctxs) (p : ℕ) (o : Option StreamCtx) (c : Counters)
    → P p o
    → ((q : ℕ) → P q (s.at q))
    → (q : ℕ) → P q ((put_ctx s p (o, c)).at q)
at_put P s p o c here apart q = elim (Bool-cases (q == p)) [
  | inl same ↦ let e : p ≡ q = sym (ground (arith, same)) in rw same (subst (λ x. P x o) e here)
  | inr other ↦ rw other (apart q)
]

-- A context that outlives the drop of a reference keeps its ring.
pub destroy-ring :
    (sc : StreamCtx) (c : Counters)
    → 0 < refs (destroy sc c).0
    → sends_from (some sc) ≡ true
    → sends_from (destroy sc c).0 ≡ true
unfolding destroy
destroy-ring sc c = elim (Bool-cases (sc.refcount == 1)) [
  | inl last ↦ rw last (λ some_ref e. absurd (omega (arith, some_ref)))
  | inr shared ↦ rw shared (λ some_ref e. e)
]

-- A context that is still there keeps its ring.
abbrev pub RingsStay : Ctxs → Ctxs → Type 0
RingsStay s s' =
    (q : ℕ) → 0 < refs (s'.at q) → sends_from (s.at q) ≡ true → sends_from (s'.at q) ≡ true

-- Freeing an entry drops its reference and no other, and what is left keeps its ring.
deferred_reset_free-refs :
    (s : Ctxs) (d : DeferredReset)
    → 0 < refs (s.at d.sc)
    → refs (s.at d.sc) < 2 ^ 32
    → (s' : Ctxs) × (deferred_reset_free s d ≡ some s')
      × ((q : ℕ) → refs (s'.at q) + one d.sc q ≡ refs (s.at q))
      × RingsStay s s'
deferred_reset_free-refs s d = by_context (s.at d.sc) refl
  where
    by_context :
        (o : Option StreamCtx)
        → s.at d.sc ≡ o
        → 0 < refs o
        → refs o < 2 ^ 32
        → (s' : Ctxs) × (deferred_reset_free s d ≡ some s')
          × ((q : ℕ) → refs (s'.at q) + one d.sc q ≡ refs (s.at q))
          × RingsStay s s'
    by_context none e some_ref word = absurd (omega (arith, some_ref))
    by_context (some sc) e some_ref word =
        let sc' : StreamCtx = record sc { tx_reset_pending = false } in
        let left = destroy sc' s.counters in
        (
          put_ctx s d.sc left,
          unfold deferred_reset_free in rw (e, deferred_reset_free) refl,
          λ q. elim (Bool-cases (q == d.sc)) [
            | inl here ↦
                let same : q ≡ d.sc = ground (arith, here) in
                rw here (
                  omega (
                    arith,
                    destroy-refs sc' s.counters some_ref word,
                    ap (λ x. refs (s.at x)) same ∙ ap refs e,
                  ))
            | inr apart ↦ rw apart (omega arith)
          ],
          at_put (λ q o. 0 < refs o → sends_from (s.at q) ≡ true → sends_from o ≡ true) s d.sc
              left.0 left.1
              (λ some_left r. destroy-ring sc' s.counters some_left (ap sends_from (sym e) ∙ r))
              (λ q some_left r. r),
        )

-- After an entry is freed the others still have their references.
freed-IsCounted :
    (ds : List DeferredReset) (s s' : Ctxs) (d : DeferredReset)
    → IsCounted (d ∷ ds) s
    → ((q : ℕ) → refs (s'.at q) + one d.sc q ≡ refs (s.at q))
    → IsCounted ds s'
freed-IsCounted ds s s' d v less q =
    (omega (arith, (v q).0, less q), omega (arith, (v q).1, less q))

-- What a drop leaves: the entries of the others, and each context without the references of those
-- that are gone, its ring kept.
abbrev pub Dropped : List DeferredReset → Ctxs → ℕ → Type 0
Dropped ds s cnx =
    (s' : Ctxs) × (deferred_resets_drop_cnx ds s cnx ≡ some (others ds cnx, s'))
    × ((q : ℕ) → refs (s'.at q) + held (gone ds cnx) q ≡ refs (s.at q))
    × RingsStay s s'

pub drop_lem : (ds : List DeferredReset) (s : Ctxs) (cnx : ℕ) → IsCounted ds s → Dropped ds s cnx
unfolding deferred_resets_drop_cnx
drop_lem [] s cnx v = (s, refl, (λ q. omega arith), λ q some_left r. r)
drop_lem (d ∷ ds) s cnx v = elim (Bool-cases (d.cnx == cnx)) [
  | inl same ↦
      let mine : one d.sc d.sc ≡ 1 = one_self d.sc in
      let (s₁, freed, less, kept) =
        deferred_reset_free-refs s d (omega (arith, (v d.sc).0, mine)) (v d.sc).1 in
      let (s', e, rest, rings) = drop_lem ds s₁ cnx (freed-IsCounted ds s s₁ d v less) in
      (
        s',
        rw (same, freed) e,
        (λ q. rw same (omega (arith, rest q, less q))),
        λ q some_left r. rings q some_left (kept q (omega (arith, some_left, rest q)) r),
      )
  | inr other ↦
      let (s', e, rest, rings) = drop_lem ds s cnx (λ q. (omega (arith, (v q).0), (v q).1)) in
      (s', rw (other, e) refl, (λ q. rw other (rest q)), rings)
]

-- Dropping the held resets of a connection, each entry having a reference on a context and counts being
-- 32-bit words: it returns; what is left is the entries of the other connections in their order; each
-- context has lost as many references as entries on it were dropped; and every entry left has one.
pub deferred_resets_drop_cnx_lem :
    (ds : List DeferredReset) (s : Ctxs) (cnx : ℕ)
    → IsCounted ds s
    → (s' : Ctxs) × (deferred_resets_drop_cnx ds s cnx ≡ some (others ds cnx, s'))
      × ((q : ℕ) → refs (s'.at q) + held (gone ds cnx) q ≡ refs (s.at q))
      × IsCounted (others ds cnx) s'
deferred_resets_drop_cnx_lem ds s cnx v =
    let (s', e, less, rings) = drop_lem ds s cnx v in
    (
      s',
      e,
      less,
      λ q. (omega (arith, (v q).0, less q, held-split ds cnx q), omega (arith, (v q).1, less q)),
    )

taken-IsCounted :
    (ds : List DeferredReset) (s s' : Ctxs) (d : DeferredReset)
    → IsCounted ds s
    → ((q : ℕ) → refs (s'.at q) ≡ refs (s.at q) + one d.sc q)
    → refs (s.at d.sc) + 1 < 2 ^ 32
    → IsCounted (d ∷ ds) s'
taken-IsCounted ds s s' d v more small q = (omega (arith, (v q).0, more q), word)
  where
    word : refs (s'.at q) < 2 ^ 32
    word = elim (Bool-cases (q == d.sc)) [
      | inl here ↦
          let same : q ≡ d.sc = ground (arith, here) in
          let at_q : one d.sc q ≡ 1 = rw here refl in
          omega (arith, more q, at_q, ap (λ x. refs (s.at x)) same, small)
      | inr apart ↦
          let at_q : one d.sc q ≡ 0 = rw apart refl in omega (arith, more q, at_q, (v q).1)
    ]

-- Holding a reset takes one reference, where the entry is allocated, the context is there and has fewer
-- than 2^32 - 1 of them; each entry has its reference then.
pub defer_reset-refs :
    (ds : List DeferredReset) (s : Ctxs) (cnx p stream_id code reliable preamble : ℕ) (is_wt : Bool)
    (sc : StreamCtx)
    → IsCounted ds s
    → s.at p ≡ some sc
    → sc.refcount + 1 < 2 ^ 32
    → (d : DeferredReset) × (s' : Ctxs) × (defer_reset true ds s cnx p stream_id code reliable
          preamble is_wt
        ≡ some (true, d ∷ ds, s'))
      × (d.cnx ≡ cnx)
      × ((q : ℕ) → refs (s'.at q) ≡ refs (s.at q) + one p q)
      × IsCounted (d ∷ ds) s'
unfolding defer_reset ref
defer_reset-refs ds s cnx p stream_id code reliable preamble is_wt sc v there small =
    let d : DeferredReset = record {
      cnx = cnx;
      sc = p;
      stream_id = stream_id;
      error_code = code;
      preamble = preamble;
      is_wt = is_wt;
    } in
    let s' : Ctxs = put_ctx s p (
      some (record (ref sc) { tx_reset_pending = true; tx_reliable_size = reliable }),
      s.counters,
    ) in
    let more : (q : ℕ) → refs (s'.at q) ≡ refs (s.at q) + one p q = λ q.
      elim (Bool-cases (q == p)) [
        | inl here ↦
            let same : q ≡ p = ground (arith, here) in
            rw here (omega (arith, small, ap (λ x. refs (s.at x)) same ∙ ap refs there))
        | inr apart ↦ rw apart (omega arith)
      ] in
    (
      d,
      s',
      rw (there, defer_reset) refl,
      refl,
      more,
      taken-IsCounted ds s s' d v more (omega (arith, small, ap refs there)),
    )
