-- ===== src/Bridge/Worker/Asyncio.antt =====
-- src/aiopquic/_binding/c/callback.h, asyncio's side of the commands on streams: an entry that carries a
-- context is pushed with a reference to it, which is given back if the ring refuses the entry, and the
-- sweep of the entries that a stopped worker never took. `accepted` is whether the ring takes the entry.
pub mod Life
pub mod Exact
pub mod Calls
pub mod Reached
use aiopquic.Base.{
  ℕ, Bool, true, false, not, ◌&&◌, ◌||◌, Option, none, some, List, [], ◌∷◌, ◌==◌, if◌then◌else◌,
}
use aiopquic.StreamCtx.{ref}
use aiopquic.Bridge.Resets.{put_ctx}
use aiopquic.Bridge.Worker.{Quic, Worker, with_scs}
use aiopquic.Bridge.Worker.Commands.{
  TxEntry, open_flow_control, tx_event_owns_sc, unref_sc, tx_event_release,
}

-- The entry of a credit.
abbrev pub credit_entry : ℕ → ℕ → ℕ → TxEntry
credit_entry cnx stream_id p = record {
  event_type = open_flow_control;
  cnx = cnx;
  stream_id = stream_id;
  stream_ctx = p;
  error_code = 0;
  aux = 0;
  is_fin = 0;
}

-- An entry of the sweep, cleared if it carried a context.
abbrev pub cleared_entry : TxEntry → TxEntry
cleared_entry e = if tx_event_owns_sc e.event_type then record e { stream_ctx = 0 } else e

module _ (quic : Quic) where
  -- A reference more.
  unfoldable pub ref_sc : Worker quic → ℕ → Option (Worker quic)
  ref_sc w p = elim (w.scs.at p) [
    | none ↦ none
    | some sc ↦ some (with_scs quic w (put_ctx w.scs p (some (ref sc), w.scs.counters)))
  ]

  abbrev pub after_ref : Bool → ℕ → Option (Worker quic) → Option (Worker quic)
  after_ref accepted p none = none
  after_ref true p (some w) = some w
  after_ref false p (some w) = unref_sc quic w p

  unfoldable pub tx_push_sc : Bool → Worker quic → TxEntry → Option (Worker quic)
  tx_push_sc accepted w e =
      if not (e.stream_ctx == 0) && tx_event_owns_sc e.event_type
      then after_ref accepted e.stream_ctx (ref_sc w e.stream_ctx)
      else some w

  unfoldable pub push_fc_credit : Bool → Worker quic → ℕ → ℕ → ℕ → Option (Worker quic)
  push_fc_credit accepted w cnx stream_id p =
      if (cnx == 0) || (p == 0) then some w else after_ref accepted p (ref_sc w p)

  abbrev pub swept_entry :
      TxEntry → Option (Worker quic × List TxEntry) → Option (Worker quic × List TxEntry)
  swept_entry e none = none
  swept_entry e (some (w, es)) = some (w, cleared_entry e ∷ es)

  -- What the worker has then, and the entries.
  unfoldable pub tx_sc_release_undrained :
      Worker quic → List TxEntry → Option (Worker quic × List TxEntry)
  tx_sc_release_undrained w [] = some (w, [])
  tx_sc_release_undrained w (e ∷ es) = elim (tx_event_release quic w e) [
    | none ↦ none
    | some w' ↦ swept_entry e (tx_sc_release_undrained w' es)
  ]
