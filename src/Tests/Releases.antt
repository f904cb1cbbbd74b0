-- ===== src/Tests/Releases.antt =====
-- The releases of datagram rings at concrete inputs: a TX event ring of two entries, full, of which the
-- worker takes one while asyncio posts.
use aiopquic.Base.{
  ℕ, ◌+◌, ◌≤◌, length, ◌≡◌, arith, true, false, none, some, [], ◌∷◌, ◌++◌, ◌==◌, if◌then◌else◌,
}
use aiopquic.Bridge.Releases.{Release, Owing, release_flush, ring_release}
use aiopquic.Bridge.Releases.Owed.{posted, Flushed, release_flush-Flushed}
use aiopquic.Bridge.Releases.Given.{tally, IsKept, ring_release_lem}

abbrev ring_of : ℕ → Release
ring_of db = record { cnx = 5; db = db }

abbrev crowded : Owing
crowded = record {
  taken = [];
  entries = none ∷ some (ring_of 3) ∷ [];
  capacity = 2;
  signal = record {
    queued = 2;
    low_water = 0;
    drain_pending = false;
    cnt_arms = 0;
    last_arm_ns = 0;
    cnt_fires = 0;
    last_fire_ns = 0;
    cnt_fire_dropped = 0;
  };
  owed = ring_of 4 ∷ ring_of 6 ∷ [];
  owed_cap = 2;
}

-- The worker takes an entry before the third access.
abbrev one_taken : ℕ → ℕ
one_taken j = if j == 2 then 1 else 0

release_flush-Flushed_example :
    (y : Owing) × (release_flush one_taken 9 0 crowded ≡ some y) × Flushed crowded y
release_flush-Flushed_example = release_flush-Flushed one_taken 9 0 crowded (omega arith)

ring_release_lem_example :
    (y : Owing) × (ring_release true one_taken 9 crowded (ring_of 7) ≡ some y)
    × ((q : ℕ)
        → tally (posted y ++ y.owed) q
          ≡ tally (posted crowded ++ crowded.owed) q + (if 7 == q then 1 else 0))
    × (length y.owed ≤ y.owed_cap)
    × IsKept crowded y
ring_release_lem_example =
    ring_release_lem one_taken 9 crowded (ring_of 7) (omega arith) (omega arith) (omega arith)
      (omega arith)
