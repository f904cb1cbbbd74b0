-- ===== src/Tests/Tables.antt =====
-- The table from connections to record rings at concrete inputs: one connection, one ring.
use aiopquic.Base.{
  ℕ, zero, suc, ◌+◌, ◌<◌, ◌≡◌, ◌≢◌, refl, arith, true, ◌==◌, if◌then◌else◌, inr, none, some, [],
  ◌∷◌,
}
use aiopquic.DgramTable.{
  no_slot, Table, Rings, no_table, unref_at, hash_ptr, home, next, walk, done, put, get,
  remove_ring,
}
use aiopquic.DgramTable.Valid.{IsValid, Reaches}
use aiopquic.DgramTable.Grow.{Usable}
use aiopquic.DgramTable.Put.{Registered, put_lem}
use aiopquic.DgramTable.Remove.{remove_ring_lem}
use aiopquic.Tests.Records.{sixteen}

abbrev one_ring : Rings
one_ring = record { at = λ p. if p == 4096 then some sixteen else none; alive = 1 }

put_lem_example :
    (t' : Table) × (w' : Rings) × (put true no_table one_ring 5000 4096 ≡ done (t', w'))
    × IsValid t'
    × Registered no_table one_ring 5000 4096 t' w'
    × ((k : ℕ) → 1 < k → k ≢ 5000 → get t' k ≡ get no_table k)
put_lem_example =
    put_lem no_table one_ring 5000 4096 sixteen (Usable.no_entry refl) (omega arith) refl

-- Two slots, the second of them used.
abbrev small : Table
small = record {
  slots = no_slot ∷ record { cnx = 5000; db = 4096 } ∷ [];
  cap = 2;
  mask = 1;
  live = 1;
  used = 1;
}

small-Reaches : Reaches small.slots 2 1
unfolding walk home hash_ptr next
small-Reaches zero h l = absurd (omega (arith, l))
small-Reaches (suc zero) h l = refl
small-Reaches (suc (suc q)) h l = absurd (omega (arith, h))

small-IsValid : IsValid small
small-IsValid = record {
  pow2 = (1, omega arith, refl);
  masked = refl;
  storage = refl;
  reaches = small-Reaches;
  used_count = refl;
  live_count = refl;
  roomy = omega arith;
}

small-get : get small 5000 ≡ done (some 4096)
unfolding get walk home hash_ptr next
small-get = refl

remove_ring_lem_example :
    (t' : Table) × (w' : Rings) × (remove_ring small one_ring 5000 4096 ≡ done (t', w'))
    × (unref_at one_ring 4096 ≡ some w')
    × IsValid t'
    × (t'.live + 1 ≡ 1)
    × (get t' 5000 ≡ done none)
    × ((k : ℕ) → 1 < k → k ≢ 5000 → get t' k ≡ get small k)
remove_ring_lem_example =
    remove_ring_lem small one_ring 5000 4096 4096 sixteen small-IsValid (omega arith) small-get refl
      (inr refl)
