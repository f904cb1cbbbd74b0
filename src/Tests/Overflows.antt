-- ===== src/Tests/Overflows.antt =====
-- The event ring with its overflow at concrete inputs: a full ring of two slots and one node.
use aiopquic.Base.{ℕ, ◌-◌, ◌≡◌, refl, arith, true, [], ◌∷◌, length, some, min, drop}
use aiopquic.Base.Circular.{window}
use aiopquic.SpscRing.{Entry, no_entry, Ring}
use aiopquic.SpscRing.Memory.{Heap, at, one_if}
use aiopquic.SpscRing.Valid.{IsValid, pending}
use aiopquic.SpscRing.Overflow.{Overflow, push_or_overflow, refill}
use aiopquic.SpscRing.Overflow.Fifo.{
  queue, IsLinked, Held, route, then_queue, sent, push_or_overflow_lem,
}
use aiopquic.SpscRing.Overflow.Refill.{refill_lem}

abbrev owned : Entry
owned = record no_entry { stream_id = 4; data_buf = 1; data_length = 2 }

abbrev waiting : Entry
waiting = record no_entry { stream_id = 8; data_buf = 2; data_length = 1 }

-- One entry of two slots.
abbrev ring : Ring
ring = record {
  tail = 2;
  head = 1;
  bytes_pending = 2;
  capacity = 2;
  mask = 1;
  entries = no_entry ∷ owned ∷ [];
}

ring-IsValid : IsValid ring
ring-IsValid = record {
  pow2 = (1, omega arith, refl);
  masked = refl;
  storage = refl;
  order = omega arith;
  room = omega arith;
  word = omega arith;
}

abbrev overflow : Overflow
overflow = record { nodes = waiting ∷ waiting ∷ []; depth = 2; pushed_count = 5; max_depth = 3 }

abbrev one_node : Overflow
one_node = record overflow { nodes = waiting ∷ []; depth = 1 }

abbrev heap : Heap
heap = record { next = 3; blocks = (1, 7 ∷ 8 ∷ []) ∷ (2, 9 ∷ []) ∷ (3, []) ∷ [] }

abbrev elsewhere : ℕ → ℕ
elsewhere q = one_if q 3

heap-Held : Held heap (queue ring one_node) elsewhere
unfolding window at
heap-Held p = ground arith

push_or_overflow_lem_example :
    let (result, r', o', h') =
      push_or_overflow true true ring one_node heap no_entry (some (5 ∷ [])) in
    (result ≡ route true true ring one_node (some (5 ∷ [])))
    × (queue r' o' ≡ then_queue result (queue ring one_node) (sent heap no_entry (some (5 ∷ []))))
    × IsValid r'
    × IsLinked o'
    × Held h' (queue r' o') elsewhere
push_or_overflow_lem_example =
    push_or_overflow_lem true true one_node heap no_entry (some (5 ∷ [])) elsewhere ring-IsValid
      refl (omega arith) (omega arith) refl heap-Held

refill_lem_example :
    (k : ℕ) × (r' : Ring) × (o' : Overflow) × (refill ring overflow ≡ some (k, r', o'))
    × (k ≡ min 2 (2 - length (pending ring)))
    × (o'.nodes ≡ drop k overflow.nodes)
    × (queue r' o' ≡ queue ring overflow)
    × IsValid r'
    × IsLinked o'
refill_lem_example = refill_lem overflow ring-IsValid refl (omega arith)

abbrev nodes_heap : Heap
nodes_heap = record { next = 3; blocks = (2, 9 ∷ []) ∷ (3, []) ∷ [] }

nodes-Held : Held nodes_heap one_node.nodes elsewhere
unfolding at
nodes-Held p = ground arith
