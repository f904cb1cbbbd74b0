-- ===== src/Tests/Entries.antt =====
-- The event ring at concrete inputs: four slots, with one owned payload and one borrowed pointer.
use aiopquic.Base.{ℕ, ◌+◌, ◌≡◌, refl, arith, true, [], ◌∷◌, some}
use aiopquic.Base.Circular.{window}
use aiopquic.SpscRing.{Entry, no_entry, Ring, peek, pop, push, take_data}
use aiopquic.SpscRing.Memory.{Heap, at, one_if}
use aiopquic.SpscRing.Valid.{IsValid, pending, Accounts}
use aiopquic.SpscRing.Push.{push_entry, outcome, then_entries, then_heap, queued}
use aiopquic.SpscRing.Pop.{pop_frees, take_then_pop}

abbrev owned : Entry
owned = record no_entry { stream_id = 4; data_buf = 1; data_length = 2 }

abbrev borrowed : Entry
borrowed = record no_entry { stream_id = 8; data_buf = 1000 }

-- The entries stand in the last slot and the first.
abbrev ring : Ring
ring = record {
  tail = 5;
  head = 3;
  bytes_pending = 2;
  capacity = 4;
  mask = 3;
  entries = borrowed ∷ no_entry ∷ no_entry ∷ owned ∷ [];
}

ring-IsValid : IsValid ring
ring-IsValid = record {
  pow2 = (2, omega arith, refl);
  masked = refl;
  storage = refl;
  order = omega arith;
  room = omega arith;
  word = omega arith;
}

ring-pending : pending ring ≡ owned ∷ borrowed ∷ []
unfolding window
ring-pending = refl

-- Block 2 belongs to someone else.
abbrev heap : Heap
heap = record { next = 2; blocks = (1, 7 ∷ 8 ∷ []) ∷ (2, 9 ∷ []) ∷ [] }

abbrev elsewhere : ℕ → ℕ
elsewhere q = one_if q 2

ring-Accounts : Accounts heap ring elsewhere
unfolding window at
ring-Accounts p = ground arith

push_entry_example :
    let (result, r', h') = push true ring heap no_entry (some (5 ∷ 6 ∷ [])) in
    (result ≡ outcome true ring (some (5 ∷ 6 ∷ [])))
    × (pending r' ≡ then_entries result (pending ring) (queued heap no_entry (some (5 ∷ 6 ∷ []))))
    × (h' ≡ then_heap result heap (some (5 ∷ 6 ∷ [])))
    × IsValid r'
    × Accounts h' r' elsewhere
push_entry_example =
    push_entry true heap no_entry (some (5 ∷ 6 ∷ [])) elsewhere ring-IsValid (omega arith)
      ring-Accounts

pop_frees_example :
    (r' : Ring) × (h' : Heap) × (peek ring ≡ some owned)
    × (pop ring heap ≡ some (r', h'))
    × (pending r' ≡ borrowed ∷ [])
    × IsValid r'
    × Accounts h' r' elsewhere
pop_frees_example =
    pop_frees heap owned (borrowed ∷ []) elsewhere ring-IsValid ring-pending ring-Accounts

take_then_pop_example :
    let (p, r₁) = take_data ring in
    (p ≡ 1)
    × (r' : Ring) × (pop r₁ heap ≡ some (r', heap))
    × (pending r' ≡ borrowed ∷ [])
    × IsValid r'
    × Accounts heap r' (λ q. one_if q p + elsewhere q)
    × (r'.bytes_pending ≡ 2)
take_then_pop_example =
    take_then_pop heap owned (borrowed ∷ []) elsewhere ring-IsValid ring-pending refl ring-Accounts
