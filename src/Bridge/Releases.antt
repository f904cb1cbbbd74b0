-- ===== src/Bridge/Releases.antt =====
-- src/aiopquic/_binding/c/callback.h, the releases of datagram rings: asyncio posts each to the TX event
-- ring, and owes those that a full ring refuses until the ring has room. The ring is seen as the
-- entries in it, none for one of another type; the worker takes entries while asyncio posts, as many
-- before each access as an argument says. The wake-up of the worker after a post is that of Bridge.Sleep.
pub mod Owed
pub mod Given
pub mod Undrained
use aiopquic.Base.{
  ℕ, zero, suc, ◌*◌, Bool, true, false, not, Option, none, some, List, [], ◌∷◌, ◌++◌, u32, leb, ltb,
  ◌==◌, if◌then◌else◌, length, take, drop,
}
use aiopquic.DgramTable.{
  Table, Rings, Result, done, no_memory, fault, with_ring, unref_at, remove_ring,
}
use aiopquic.Bridge.Drain.{TxRing, arm_drain_pending}

-- `aiopquic_dgram_release_t`, and the entries of type SPSC_EVT_TX_DGRAM_RING_RELEASE.
pub record Release : Type 0 where
  pub cnx : ℕ
  pub db : ℕ

-- The part of `aiopquic_ctx_t` that these use: the entries that the worker took, those in the ring with
-- its capacity, the signal that the ring has drained, the releases owed with the room for them.
pub record Owing : Type 0 where
  pub taken : List (Option Release)
  pub entries : List (Option Release)
  pub capacity : ℕ
  pub signal : TxRing
  pub owed : List Release
  pub owed_cap : ℕ

-- The releases among entries.
abbrev pub releases : List (Option Release) → List Release
releases [] = []
releases (none ∷ es) = releases es
releases (some r ∷ es) = r ∷ releases es

-- The worker takes `k` entries.
unfoldable pub worker_pops : ℕ → Owing → Owing
worker_pops k x = record x { taken = x.taken ++ take k x.entries; entries = drop k x.entries }

-- Whether the release is in the ring.
unfoldable pub release_post : Owing → Release → Bool × Owing
release_post x r =
    if leb x.capacity (length x.entries)
    then (false, x)
    else (true, record x { entries = x.entries ++ (some r ∷ []) })

-- The inner loop: the releases that are left, and the number of accesses so far. `pops` is what the worker
-- takes before each access.
unfoldable pub post_owed : (ℕ → ℕ) → ℕ → List Release → Owing → List Release × ℕ × Owing
post_owed pops j [] x = ([], j, x)
post_owed pops j (r ∷ rs) x =
    let (ok, y) = release_post (worker_pops (pops j) x) r in
    let rest = post_owed pops (suc j) rs y in if ok then rest else (r ∷ rs, suc j, y)

-- Whether the caller may wait.
unfoldable pub arm_on : ℕ → Owing → Bool × Owing
arm_on now x =
    let (wait, s) = arm_drain_pending now (record x.signal { queued = length x.entries }) in
    (wait, record x { signal = s })

-- The rounds, as many as the count says; none where it is too small.
unfoldable pub flush_rounds : (ℕ → ℕ) → ℕ → ℕ → ℕ → Owing → Option Owing
flush_rounds pops now zero j x = none
flush_rounds pops now (suc n) j x =
    let (rest, j', y) = post_owed pops j x.owed x in
    let y' : Owing = record y { owed = rest } in
    let (wait, z) = arm_on now (worker_pops (pops j') y') in
    let more = flush_rounds pops now n (suc j') z in
    if length rest == 0 then some y' else if wait then some z else more

-- One round more than there are releases owed is enough.
unfoldable pub release_flush : (ℕ → ℕ) → ℕ → ℕ → Owing → Option Owing
release_flush pops now j x = flush_rounds pops now (suc (length x.owed)) j x

-- The room for one more: none where `realloc` gives nothing.
unfoldable pub owed_room : Bool → Owing → Option ℕ
owed_room realloc_ok x =
    if not (length x.owed == x.owed_cap)
    then some x.owed_cap
    else if not realloc_ok
    then none
    else some (if x.owed_cap == 0 then 8 else u32 (2 * x.owed_cap))

-- The release is written at the end of the array; a write past its room is a fault, none.
abbrev pub owe_in : (ℕ → ℕ) → ℕ → Owing → Release → Option ℕ → Option Owing
owe_in pops now x r none = some x
owe_in pops now x r (some cap) =
    if ltb (length x.owed) cap
    then release_flush pops now 1 (record x { owed = x.owed ++ (r ∷ []); owed_cap = cap })
    else none

-- The release that a full ring refused; without memory it is lost.
unfoldable pub owe : Bool → (ℕ → ℕ) → ℕ → Owing → Release → Option Owing
owe realloc_ok pops now x r = owe_in pops now x r (owed_room realloc_ok x)

-- With a worker that runs.
unfoldable pub ring_release : Bool → (ℕ → ℕ) → ℕ → Owing → Release → Option Owing
ring_release realloc_ok pops now x r =
    let (ok, y) = release_post (worker_pops (pops 0) x) r in
    if r.db == 0 then some x else if ok then some y else owe realloc_ok pops now y r

abbrev pub drop_with : Result (Table × Rings) → ℕ → Result (Table × Rings)
drop_with no_memory db = no_memory
drop_with fault db = fault
drop_with (done (t, w)) db = with_ring t (unref_at w db)

-- The worker's drop of a ring's reference, with the connection's entry in the table while that holds the
-- ring.
unfoldable pub ring_drop : Table → Rings → Release → Result (Table × Rings)
ring_drop t w r = drop_with (remove_ring t w r.cnx r.db) r.db

abbrev pub with_rings : Rings → Option Owing → Option (Owing × Rings)
with_rings w none = none
with_rings w (some x) = some (x, w)

abbrev pub with_owing : Owing → Option Rings → Option (Owing × Rings)
with_owing x none = none
with_owing x (some w) = some (x, w)

-- Asyncio gives up its reference on a ring; without a worker it is dropped at once.
unfoldable pub dgram_ring_release :
    Bool → Bool → (ℕ → ℕ) → ℕ → Owing → Rings → Release → Option (Owing × Rings)
dgram_ring_release thread_runs realloc_ok pops now x w r =
    if r.db == 0
    then some (x, w)
    else if not thread_runs
    then with_owing x (unref_at w r.db)
    else with_rings w (ring_release realloc_ok pops now x r)

unfoldable pub drop_all_of : List Release → Table → Rings → Result (Table × Rings)
drop_all_of [] t w = done (t, w)
drop_all_of (r ∷ rs) t w = elim (ring_drop t w r) [
  | done (t', w') ↦ drop_all_of rs t' w'
  | no_memory ↦ no_memory
  | fault ↦ fault
]

abbrev pub cleared_entries : List (Option Release) → List (Option Release)
cleared_entries [] = []
cleared_entries (e ∷ es) = none ∷ cleared_entries es

abbrev pub swept : Owing → Result (Table × Rings) → Result (Owing × Table × Rings)
swept x no_memory = no_memory
swept x fault = fault
swept x (done (t, w)) = done (record x { entries = cleared_entries x.entries; owed = [] }, t, w)

-- With the worker stopped: what the ring and what is owed still hold is dropped, and the entries cleared.
unfoldable pub release_undrained : Owing → Table → Rings → Result (Owing × Table × Rings)
release_undrained x t w = swept x (drop_all_of (releases x.entries ++ x.owed) t w)
