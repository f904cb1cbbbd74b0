-- ===== src/Bridge/Worker/Asyncio/Life.antt =====
-- Any interleaving of asyncio and the worker, one call at a time, on the references of the stream contexts.
use aiopquic.Base.{
  ℕ, ◌+◌, ◌-◌, ◌^◌, ◌≤◌, ◌<◌, ◌≡◌, Bool, true, false, none, some, List, [], ◌∷◌, ◌++◌, ◌==◌,
  if◌then◌else◌,
}
use aiopquic.StreamCtx.{StreamCtx, Counters}
use aiopquic.Bridge.Resets.{DeferredReset, Ctxs, put_ctx, deferred_resets_drop_cnx}
use aiopquic.Bridge.Resets.Held.{refs, one, held}
use aiopquic.Bridge.Worker.{Quic, Worker, with_libs, with_scs, sends_from}
use aiopquic.Bridge.Worker.Commands.{TxEntry, handle_entry, unref_sc}
use aiopquic.Bridge.Worker.Run.{run_deferred_resets}
use aiopquic.Bridge.Worker.WtResets.{tx_wt_reset_stream, tx_wt_stop_sending}
use aiopquic.Bridge.Worker.Owned.{carried, queued}
use aiopquic.Bridge.Worker.Asyncio.{ref_sc, tx_push_sc}

-- The two threads: what the worker has, the entries in the TX event ring, each with whether there is memory
-- when it is handled, and the references that anybody else has, Python and the stack.
pub record Life (quic : Quic) : Type 0 where
  pub worker : Worker quic
  pub queue : List (Bool × TxEntry)
  pub others : ℕ → ℕ

module _ (quic : Quic) where
  abbrev pub after : Life quic → Worker quic → Life quic
  after l w = record l { worker = w }

  abbrev pub without : Worker quic → List DeferredReset → Ctxs → Worker quic
  without w ds s = record w { resets = ds; scs = s }

  -- The context of a stream's link.
  abbrev pub link_of : Life quic → ℕ → ℕ → ℕ → ℕ
  link_of l session cnx stream_id = quic.link_sc l.worker.libs session cnx stream_id

  -- A call: a push that the ring takes or refuses, by one who has a reference; an entry handled; the pass
  -- after a send; a connection closed; a reference taken or dropped by another; a context changed by one
  -- of the threads, its count and its ring staying; a context made; a reset or a stop of a WebTransport
  -- stream, whose link has a reference; and the stack moving on.
  pub data Step : Life quic → Life quic → Type 0 where
    pushes :
        (l : Life quic) (ok : Bool) (e : TxEntry) (w' : Worker quic)
        → carried e e.stream_ctx ≤ l.others e.stream_ctx
        → refs (l.worker.scs.at e.stream_ctx) + 2 < 2 ^ 32
        → tx_push_sc quic true l.worker e ≡ some w'
        → Step l (record l { worker = w'; queue = l.queue ++ ((ok, e) ∷ []) })
    bounces :
        (l : Life quic) (e : TxEntry) (w' : Worker quic)
        → carried e e.stream_ctx ≤ l.others e.stream_ctx
        → tx_push_sc quic false l.worker e ≡ some w'
        → Step l (after l w')
    handles :
        (l : Life quic) (raw ok : Bool) (e : TxEntry) (es : List (Bool × TxEntry))
        (w' : Worker quic)
        → l.queue ≡ (ok, e) ∷ es
        → handle_entry quic ok raw l.worker e ≡ some w'
        → Step l (record l { worker = w'; queue = es })
    passes :
        (l : Life quic) (now : ℕ) (w' : Worker quic)
        → run_deferred_resets quic now l.worker ≡ some w'
        → Step l (after l w')
    closes :
        (l : Life quic) (cnx : ℕ) (ds : List DeferredReset) (s : Ctxs)
        → deferred_resets_drop_cnx l.worker.resets l.worker.scs cnx ≡ some (ds, s)
        → Step l (after l (without l.worker ds s))
    takes :
        (l : Life quic) (p : ℕ) (w' : Worker quic)
        → 0 < l.others p
        → refs (l.worker.scs.at p) + 2 < 2 ^ 32
        → ref_sc quic l.worker p ≡ some w'
        → Step l (record l { worker = w'; others = λ q. l.others q + one p q })
    drops :
        (l : Life quic) (p : ℕ) (w' : Worker quic)
        → 0 < l.others p
        → unref_sc quic l.worker p ≡ some w'
        → Step l (record l { worker = w'; others = λ q. l.others q - one p q })
    changes :
        (l : Life quic) (p : ℕ) (sc sc' : StreamCtx) (c : Counters)
        → l.worker.scs.at p ≡ some sc
        → sc'.refcount ≡ sc.refcount
        → (sends_from (some sc) ≡ true → sends_from (some sc') ≡ true)
        → Step l (after l (with_scs quic l.worker (put_ctx l.worker.scs p (some sc', c))))
    makes :
        (l : Life quic) (p : ℕ) (sc : StreamCtx) (c : Counters)
        → l.worker.scs.at p ≡ none
        → sc.refcount ≡ 1
        → Step l (record l {
          worker = with_scs quic l.worker (put_ctx l.worker.scs p (some sc, c));
          others = λ q. l.others q + one p q;
        })
    wt_resets :
        (l : Life quic) (ok : Bool) (session cnx stream_id code aux : ℕ) (w' : Worker quic)
        → (if link_of l session cnx stream_id == 0 then 0 else 1)
          ≤ l.others (link_of l session cnx stream_id)
        → refs (l.worker.scs.at (link_of l session cnx stream_id)) + 2 < 2 ^ 32
        → tx_wt_reset_stream quic ok l.worker session cnx stream_id code aux ≡ some w'
        → Step l (after l w')
    wt_stops :
        (l : Life quic) (session cnx stream_id code : ℕ)
        → Step l (after l (tx_wt_stop_sending quic l.worker session cnx stream_id code))
    moves_on : (l : Life quic) (libs : quic.Q) → Step l (after l (with_libs quic l.worker libs))

  pub data Reach (start : Life quic) : Life quic → Type 0 where
    begun : Reach start start
    then_step : (l l' : Life quic) → Reach start l → Step l l' → Reach start l'

  -- Every reference is that of a held reset, of a queued entry, or of somebody else; counts have room for
  -- one more; and what a held reset is on has a ring to send from.
  pub record IsExact (l : Life quic) : Type 0 where
    pub exact :
        (q : ℕ) → refs (l.worker.scs.at q) ≡ held l.worker.resets q + queued l.queue q + l.others q
    pub small : (q : ℕ) → refs (l.worker.scs.at q) + 1 < 2 ^ 32
    pub rings : (q : ℕ) → 0 < held l.worker.resets q → sends_from (l.worker.scs.at q) ≡ true
