-- ===== src/DgramBuf/Life.antt =====
-- `aiopquic_dgram_buf_create`, `_addref` and `_unref`: a new ring, its references and its end.
use aiopquic.Base.{
  ℕ, zero, suc, ◌+◌, ◌-◌, ◌*◌, ◌^◌, ◌≤◌, ◌<◌, ◌≡◌, refl, ap, ◌∙◌, arith, true, false, Bool-cases,
  inl, inr, Option, none, some, Option-cases, List, [], length, u32, u64, sub32, sub64, ltb, ◌==◌,
}
use aiopquic.Base.Pow2.{IsPow2, IsPow2-bounds}
use aiopquic.Base.Circular.{window}
use aiopquic.StreamBuf.{ceil_pow2_u32}
use aiopquic.StreamBuf.Pow2.{ceil_pow2_u32_cases}
use aiopquic.DgramBuf.{DgramBuf, ring_capacity, create, addref, unref}
use aiopquic.DgramBuf.Valid.{IsValid, Holds}

-- The capacity is a power of two in which the greatest record fits twice.
ring_capacity_fits :
    (requested max_record : ℕ)
    → requested < 2 ^ 32
    → 2 * (4 + max_record) ≤ 2 ^ 31
    → let c = ring_capacity requested max_record in IsPow2 c × (2 * (4 + max_record) ≤ c)
unfolding ring_capacity
ring_capacity_fits requested max_record h small =
    elim (Bool-cases (ltb (ceil_pow2_u32 requested) (2 * (4 + max_record)))) [
      | inl short ↦
          let c = ceil_pow2_u32_cases (2 * (4 + max_record)) (omega arith) in
          rw (twice, short) (c.0, c.1 small)
      | inr enough ↦
          rw (twice, enough) ((ceil_pow2_u32_cases requested h).0, ground (arith, enough))
    ]
  where
    twice : u32 (2 * u32 (4 + max_record)) ≡ 2 * (4 + max_record)
    twice = omega arith

abbrev fresh : ℕ → ℕ → List ℕ → DgramBuf
fresh capacity max_record bytes = record {
  buf = bytes;
  capacity = capacity;
  mask = sub32 capacity 1;
  max_record = max_record;
  tail = 0;
  head = 0;
  refcnt = 1;
  drain_pending = false;
  records_pushed = 0;
  push_full = 0;
  push_oversize = 0;
  records_popped = 0;
  bytes_popped = 0;
  head_deferred = 0;
}

fresh-IsValid :
    (capacity max_record : ℕ) (bytes : List ℕ)
    → IsPow2 capacity
    → 2 * (4 + max_record) ≤ capacity
    → length bytes ≡ capacity
    → IsValid (fresh capacity max_record bytes)
fresh-IsValid capacity max_record bytes w roomy sized = record {
  pow2 = w;
  masked = omega (arith, IsPow2-bounds w);
  storage = sized;
  order = omega arith;
  room = omega arith;
  word = omega arith;
  fits = roomy;
}

-- What `create` returns for a positive limit, the allocations made, is a valid ring with no record,
-- this limit and one reference, and the count of rings is one more.
pub create_ring :
    (block : ℕ → Option (List ℕ)) (requested max_record alive : ℕ) {db : DgramBuf} {alive' : ℕ}
    → ((size : ℕ) (bytes : List ℕ) → block size ≡ some bytes → length bytes ≡ size)
    → requested < 2 ^ 32
    → 2 * (4 + max_record) ≤ 2 ^ 31
    → create true block requested max_record alive ≡ some (db, alive')
    → IsValid db
      × Holds db []
      × (db.max_record ≡ max_record)
      × (db.refcnt ≡ 1)
      × (alive' ≡ u64 (alive + 1))
unfolding create
create_ring block requested max_record alive {db} {alive'} sized h small e =
    let (w, roomy) = ring_capacity_fits requested max_record h small in
    elim (Option-cases (block c)) [
      | inl failed ↦ ground arith
      | inr (bytes, got) ↦
          let made : (db ≡ fresh c max_record bytes) × (alive' ≡ u64 (alive + 1)) =
            ground (arith, got) in
          rw made.0 (
            fresh-IsValid c max_record bytes w roomy (sized c bytes got),
            unfold window in refl,
            refl,
            refl,
            made.1,
          )
    ]
  where
    c : ℕ
    c = ring_capacity requested max_record

-- What is left after some drops, with the count of rings: no ring once it is freed.
abbrev pub Left : Type 0
Left = Option DgramBuf × ℕ

-- `k` more drops on what a drop left. A drop on a ring that was freed is a fault, `none`.
abbrev carry_on : ℕ → (DgramBuf → ℕ → Option Left) → Left → Option Left
carry_on k more (some db, alive) = more db alive
carry_on zero more (none, alive) = some (none, alive)
carry_on (suc k) more (none, alive) = none

-- `k` drops of a reference.
pub drop_refs : ℕ → DgramBuf → ℕ → Option Left
drop_refs zero db alive = some (some db, alive)
drop_refs (suc k) db alive = carry_on k (drop_refs k) (unref db alive)

-- Of the references of a ring, dropping some frees nothing and only counts down.
drop_refs-some :
    (k : ℕ) (db : DgramBuf) (alive : ℕ)
    → k < db.refcnt
    → db.refcnt < 2 ^ 32
    → drop_refs k db alive ≡ some (some (record db { refcnt = db.refcnt - k }), alive)
unfolding drop_refs unref
drop_refs-some zero db alive h w =
    ap (λ n. some (some (record db { refcnt = n }), alive)) {x = db.refcnt} (omega arith)
drop_refs-some (suc k) db alive h w =
    let shared : (db.refcnt == 1) ≡ false = ground arith in
    let down : sub32 db.refcnt 1 ≡ db.refcnt - 1 = omega arith in
    rw (shared, down)
      (drop_refs-some k (record db { refcnt = db.refcnt - 1 }) alive (omega arith) (omega arith)
        ∙ ap (λ n. some (some (record db { refcnt = n }), alive)) (omega arith))

drop_refs_last :
    (k : ℕ) (db : DgramBuf) (alive : ℕ)
    → suc k ≡ db.refcnt
    → db.refcnt < 2 ^ 32
    → drop_refs (suc k) db alive ≡ some (none, sub64 alive 1)
unfolding drop_refs unref
drop_refs_last zero db alive h w = let last : (db.refcnt == 1) ≡ true = ground arith in rw last
drop_refs_last (suc k) db alive h w =
    let shared : (db.refcnt == 1) ≡ false = ground arith in
    let down : sub32 db.refcnt 1 ≡ db.refcnt - 1 = omega arith in
    rw (shared, down)
      (drop_refs_last k (record db { refcnt = db.refcnt - 1 }) alive (omega arith) (omega arith))

-- A reference more and its drop leave the ring and the count of rings as they were. Of the references
-- of a ring, dropping `k`, fewer than all, frees nothing and only counts down; dropping all frees the
-- ring, at the last drop, and the count of rings goes down by one.
pub refs_lem :
    (db : DgramBuf) (alive k : ℕ)
    → k < db.refcnt
    → db.refcnt + 1 < 2 ^ 32
    → (unref (addref db) alive ≡ (some db, alive))
      × (drop_refs k db alive ≡ some (some (record db { refcnt = db.refcnt - k }), alive))
      × (drop_refs db.refcnt db alive ≡ some (none, sub64 alive 1))
unfolding addref unref
refs_lem db alive k some_left w = (
  again,
  drop_refs-some k db alive some_left (omega arith),
  ap (λ n. drop_refs n db alive) {x = db.refcnt} (omega arith)
      ∙ drop_refs_last (db.refcnt - 1) db alive (omega arith) (omega arith),
)
  where
    shared : (u32 (db.refcnt + 1) == 1) ≡ false
    shared = ground arith

    back : sub32 (u32 (db.refcnt + 1)) 1 ≡ db.refcnt
    back = omega arith

    again : unref (addref db) alive ≡ (some db, alive)
    again = rw (shared, back)
