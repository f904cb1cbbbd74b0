-- ===== src/DgramTable.antt =====
-- src/aiopquic/_binding/c/datagram_buf.h, the table from connections to their record rings: open
-- addressing with tombstones. Connections and rings are addresses; a walk along the slots is bounded
-- by their number, and `lost` is a walk that comes back to its start, where the code loops for ever.
pub mod Probe
pub mod Placing
pub mod Valid
pub mod Laws
pub mod Rehash
pub mod Grow
pub mod Put
pub mod Remove
use aiopquic.Base.{
  ℕ, zero, suc, ◌+◌, ◌*◌, ◌/◌, ◌^◌, bit_and, bit_xor, Bool, not, ◌&&◌, ◌||◌, Option, none, some,
  List, [], ◌∷◌, u32, u64, sub32, leb, ◌==◌, if◌then◌else◌, get_or, set, replicate,
}
use aiopquic.DgramBuf.{DgramBuf, addref, unref}

-- `aiopquic_dgram_slot_t`
pub record Slot : Type 0 where
  pub cnx : ℕ
  pub db : ℕ

abbrev pub no_slot : Slot
no_slot = record { cnx = 0; db = 0 }

abbrev pub tombstone : ℕ
tombstone = 1

-- `aiopquic_dgram_table_t`
pub record Table : Type 0 where
  pub slots : List Slot
  pub cap : ℕ
  pub mask : ℕ
  pub live : ℕ
  pub used : ℕ

-- The rings at their addresses, none where no ring is, and the count of rings.
pub record Rings : Type 0 where
  pub at : ℕ → Option DgramBuf
  pub alive : ℕ

abbrev put_at : Rings → ℕ → Option DgramBuf → ℕ → Rings
put_at w p ring alive = record { at = λ q. if q == p then ring else w.at q; alive = alive }

-- `none` is a fault: there is no ring at the address.
unfoldable pub addref_at : Rings → ℕ → Option Rings
addref_at w p = elim (w.at p) [
  | none ↦ none
  | some ring ↦ some (put_at w p (some (addref ring)) w.alive)
]

unfoldable pub unref_at : Rings → ℕ → Option Rings
unref_at w p = elim (w.at p) [
  | none ↦ none
  | some ring ↦ (let (left, alive) = unref ring w.alive in some (put_at w p left alive))
]

unfoldable pub hash_ptr : ℕ → ℕ
hash_ptr p =
    let a = bit_xor p (p / 2 ^ 33) in
    let b = u64 (a * 0xff51afd7ed558ccd) in u32 (bit_xor b (b / 2 ^ 33))

unfoldable pub home : ℕ → ℕ → ℕ
home mask cnx = bit_and (hash_ptr cnx) mask

unfoldable pub next : ℕ → ℕ → ℕ
next mask i = bit_and (u32 (i + 1)) mask

abbrev pub key : List Slot → ℕ → ℕ
key slots i = (get_or slots i no_slot).cnx

-- Where a walk ends: at the connection's slot, at an empty slot, or nowhere.
pub data Walk : Type 0 where
  found absent : ℕ → Walk
  lost : Walk

-- The loop of get and of remove_ring from slot `i` on, of at most as many steps as the count says.
unfoldable pub walk : List Slot → ℕ → ℕ → ℕ → ℕ → Walk
walk slots mask cnx zero i = lost
walk slots mask cnx (suc n) i =
    let more = walk slots mask cnx n (next mask i) in
    let c = key slots i in if c == cnx then found i else if c == 0 then absent i else more

-- Where put ends: at the connection's slot, at a tombstone passed before, at an empty slot, or nowhere.
pub data Place : Type 0 where
  registered : Place
  reuse fresh : ℕ → Place
  nowhere : Place

abbrev pub place_at : Option ℕ → ℕ → Place
place_at none i = fresh i
place_at (some tomb) i = reuse tomb

-- The first tombstone that was passed.
abbrev pub note : Option ℕ → ℕ → ℕ → Option ℕ
note none c i = if c == tombstone then some i else none
note (some tomb) c i = some tomb

unfoldable pub scan : List Slot → ℕ → ℕ → ℕ → ℕ → Option ℕ → Place
scan slots mask cnx zero i tomb = nowhere
scan slots mask cnx (suc n) i tomb =
    let c = key slots i in
    let more = scan slots mask cnx n (next mask i) (note tomb c i) in
    if c == cnx then registered else if c == 0 then place_at tomb i else more

-- The loop of grow that looks for an empty slot.
unfoldable pub free_slot : List Slot → ℕ → ℕ → ℕ → Option ℕ
free_slot slots mask zero j = none
free_slot slots mask (suc n) j =
    let more = free_slot slots mask n (next mask j) in if key slots j == 0 then some j else more

-- The loop of grow over the old slots; `none` is a search for an empty slot that does not end.
unfoldable pub rehash : ℕ → ℕ → List Slot → List Slot → Option (List Slot)
rehash cap mask [] ns = some ns
rehash cap mask (s ∷ old) ns =
    if (s.cnx == 0) || (s.cnx == tombstone)
    then rehash cap mask old ns
    else elim (free_slot ns mask cap (home mask s.cnx)) [
      | none ↦ none
      | some j ↦ rehash cap mask old (set ns j s)
    ]

-- A result, the return value -1, or a call that does not return or touches a ring that is gone.
pub data Result (A : Type 0) : Type 0 where
  done : A → Result A
  no_memory : Result A
  fault : Result A

-- `calloc_ok` is whether the new slots are allocated; calloc zeroes them.
unfoldable pub grow : Bool → Table → Result Table
grow calloc_ok t =
    let new_cap = if t.cap == 0 then 64 else u32 (t.cap * 2) in
    let new_mask = sub32 new_cap 1 in
    if not calloc_ok
    then no_memory
    else elim (rehash new_cap new_mask t.slots (replicate new_cap no_slot)) [
      | none ↦ fault
      | some ns ↦
          done (record { slots = ns; cap = new_cap; mask = new_mask; live = t.live; used = t.live })
    ]

-- The table with the connection's entry, once there is a slot for it.
abbrev pub entered : Table → ℕ → ℕ → ℕ → ℕ → Table
entered t cnx db i used = record t {
  slots = set t.slots i (record { cnx = cnx; db = db });
  used = used;
  live = u32 (t.live + 1);
}

abbrev pub with_ring : Table → Option Rings → Result (Table × Rings)
with_ring t none = fault
with_ring t (some w) = done (t, w)

abbrev pub enter : Table → Rings → ℕ → ℕ → Place → Result (Table × Rings)
enter t w cnx db registered = done (t, w)
enter t w cnx db nowhere = fault
enter t w cnx db (reuse i) = with_ring (entered t cnx db i t.used) (addref_at w db)
enter t w cnx db (fresh i) = with_ring (entered t cnx db i (u32 (t.used + 1))) (addref_at w db)

unfoldable pub is_crowded : Table → Bool
is_crowded t = (t.cap == 0) || leb (u32 (t.cap * 7)) (u32 (u32 (t.used + 1) * 10))

unfoldable pub make_room : Bool → Table → Result Table
make_room calloc_ok t = if is_crowded t then grow calloc_ok t else done t

abbrev pub enter_in : Result Table → Rings → ℕ → ℕ → Result (Table × Rings)
enter_in (done t) w cnx db = enter t w cnx db (scan t.slots t.mask cnx t.cap (home t.mask cnx) none)
enter_in no_memory w cnx db = no_memory
enter_in fault w cnx db = fault

unfoldable pub put : Bool → Table → Rings → ℕ → ℕ → Result (Table × Rings)
put calloc_ok t w cnx db = enter_in (make_room calloc_ok t) w cnx db

abbrev pub ring_at : List Slot → Walk → Result (Option ℕ)
ring_at slots (found i) = done (some (get_or slots i no_slot).db)
ring_at slots (absent i) = done none
ring_at slots lost = fault

unfoldable pub get : Table → ℕ → Result (Option ℕ)
get t cnx =
    if t.cap == 0
    then done none
    else ring_at t.slots (walk t.slots t.mask cnx t.cap (home t.mask cnx))

abbrev pub buried : Table → ℕ → Table
buried t i = record t {
  slots = set t.slots i (record { cnx = tombstone; db = 0 });
  live = sub32 t.live 1;
}

-- `only` is the ring that the entry must hold, 0 for any.
abbrev pub bury : Table → Rings → ℕ → Walk → Result (Table × Rings)
bury t w only (absent i) = done (t, w)
bury t w only lost = fault
bury t w only (found i) =
    if not (only == 0) && not ((get_or t.slots i no_slot).db == only)
    then done (t, w)
    else with_ring (buried t i) (unref_at w (get_or t.slots i no_slot).db)

unfoldable pub remove_ring : Table → Rings → ℕ → ℕ → Result (Table × Rings)
remove_ring t w cnx only =
    if (t.cap == 0) || (cnx == 0)
    then done (t, w)
    else bury t w only (walk t.slots t.mask cnx t.cap (home t.mask cnx))

unfoldable pub remove : Table → Rings → ℕ → Result (Table × Rings)
remove t w cnx = remove_ring t w cnx 0

-- The loop of destroy over the slots.
unfoldable pub unref_all : List Slot → Rings → Option Rings
unref_all [] w = some w
unref_all (s ∷ slots) w =
    if (s.cnx == 0) || (s.cnx == tombstone)
    then unref_all slots w
    else elim (unref_at w s.db) [ none ↦ none | some w' ↦ unref_all slots w' ]

abbrev pub no_table : Table
no_table = record { slots = []; cap = 0; mask = 0; live = 0; used = 0 }

unfoldable pub destroy : Table → Rings → Result (Table × Rings)
destroy t w = with_ring no_table (unref_all t.slots w)
