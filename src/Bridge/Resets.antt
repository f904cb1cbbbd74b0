-- ===== src/Bridge/Resets.antt =====
-- src/aiopquic/_binding/c/callback.h, the resets that are held until the reliable bytes of their stream
-- are sent: a list on the context, each entry with a reference on its stream context. Stream contexts
-- stand at addresses.
pub mod Held
use aiopquic.Base.{
  ℕ, ◌&&◌, ◌||◌, Bool, true, false, not, Option, none, some, List, [], ◌∷◌, ltb, ◌==◌,
  if◌then◌else◌,
}
use aiopquic.StreamBuf.{StreamBuf}
use aiopquic.StreamCtx.{StreamCtx, Counters, ref, destroy}

-- `aiopquic_deferred_reset_t`
pub record DeferredReset : Type 0 where
  pub cnx : ℕ
  pub sc : ℕ
  pub stream_id : ℕ
  pub error_code : ℕ
  pub preamble : ℕ
  pub is_wt : Bool

-- The stream contexts at their addresses, none where no context is, and the process-wide counters.
pub record Ctxs : Type 0 where
  pub at : ℕ → Option StreamCtx
  pub counters : Counters

-- The ring that a context sends from.
abbrev pub sends_from : Option StreamCtx → Bool
sends_from none = false
sends_from (some sc) = elim sc.tx [ none ↦ false | some sb ↦ true ]

abbrev pub put_ctx : Ctxs → ℕ → Option StreamCtx × Counters → Ctxs
put_ctx s p (sc, c) = record { at = λ q. if q == p then sc else s.at q; counters = c }

-- The transport parameter `is_reset_stream_at_enabled` of both ends; none where picoquic has no
-- parameters yet.
unfoldable pub reset_stream_at_negotiated : Option Bool → Option Bool → Bool
reset_stream_at_negotiated (some local) (some remote) = local && remote
reset_stream_at_negotiated (some local) none = false
reset_stream_at_negotiated none remote = false

abbrev pub capped : Option StreamBuf → ℕ → ℕ
capped none requested = 0
capped (some tx) requested = if ltb requested tx.tail then requested else tx.tail

abbrev pub reliable_of : Option StreamCtx → ℕ → ℕ
reliable_of none requested = 0
reliable_of (some sc) requested = capped sc.tx requested

-- `negotiated` is `reset_stream_at_negotiated` of the connection.
unfoldable pub reset_reliable_size : Bool → Option StreamCtx → ℕ → ℕ
reset_reliable_size negotiated sc requested =
    if (requested == 0) || not negotiated then 0 else reliable_of sc requested

-- `none` is a fault: there is no stream context at the address.
unfoldable pub deferred_reset_free : Ctxs → DeferredReset → Option Ctxs
deferred_reset_free s d = elim (s.at d.sc) [
  | none ↦ none
  | some sc ↦ some (put_ctx s d.sc (destroy (record sc { tx_reset_pending = false }) s.counters))
]

abbrev pub keep :
    DeferredReset → Option (List DeferredReset × Ctxs) → Option (List DeferredReset × Ctxs)
keep d none = none
keep d (some (ds, s)) = some (d ∷ ds, s)

unfoldable pub deferred_resets_drop_cnx :
    List DeferredReset → Ctxs → ℕ → Option (List DeferredReset × Ctxs)
deferred_resets_drop_cnx [] s cnx = some ([], s)
deferred_resets_drop_cnx (d ∷ ds) s cnx =
    let kept = keep d (deferred_resets_drop_cnx ds s cnx) in
    if d.cnx == cnx
    then elim (deferred_reset_free s d) [
      | none ↦ none
      | some s' ↦ deferred_resets_drop_cnx ds s' cnx
    ]
    else kept

-- Whether the reset is held, with the list and the contexts; `calloc_ok` is whether its entry is
-- allocated, and `none` a fault.
unfoldable pub defer_reset :
    Bool
    → List DeferredReset
    → Ctxs
    → ℕ
    → ℕ
    → ℕ
    → ℕ
    → ℕ
    → ℕ
    → Bool
    → Option (Bool × List DeferredReset × Ctxs)
defer_reset calloc_ok ds s cnx p stream_id code reliable preamble is_wt =
    if not calloc_ok then some (false, ds, s) else elim (s.at p) [
      | none ↦ none
      | some sc ↦ some (
        true,
        record {
          cnx = cnx;
          sc = p;
          stream_id = stream_id;
          error_code = code;
          preamble = preamble;
          is_wt = is_wt;
        }
            ∷ ds,
        put_ctx s p (
          some (record (ref sc) { tx_reset_pending = true; tx_reliable_size = reliable }),
          s.counters,
        ),
      )
    ]

-- The loop over the held resets when the context is destroyed.
unfoldable pub free_resets : List DeferredReset → Ctxs → Option Ctxs
free_resets [] s = some s
free_resets (d ∷ ds) s = elim (deferred_reset_free s d) [
  | none ↦ none
  | some s' ↦ free_resets ds s'
]
