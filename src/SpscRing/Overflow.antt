-- ===== src/SpscRing/Overflow.antt =====
-- The overflow list behind the event ring (`spsc_overflow_t`): while it holds entries the producer
-- appends to it and stays off the ring, and the consumer moves them into the ring as room appears.
-- The lock guards the links of the list, so an append and a removal are single steps.
pub mod Fifo
pub mod Refill
use aiopquic.Base.{
  ℕ, ◌+◌, Bool, not, Option, none, some, List, [], ◌∷◌, ◌++◌, length, u32, u64, sub64, ltb, ◌==◌,
  if◌then◌else◌,
}
use aiopquic.SpscRing.{
  Entry, Ring, PushResult, pushed, full, no_memory, copies, has_room, store, push, push_borrowed,
  owns,
}
use aiopquic.SpscRing.Memory.{Heap, malloc, free}

-- `spsc_overflow_t`, with the entries of its nodes, head first.
pub record Overflow : Type 0 where
  pub nodes : List Entry
  pub depth : ℕ
  pub pushed_count : ℕ
  pub max_depth : ℕ

abbrev pub init : Overflow
init = record { nodes = []; depth = 0; pushed_count = 0; max_depth = 0 }

-- The return values 0, 1 and -2.
pub data Result : Type 0 where
  in_ring in_overflow out_of_memory : Result

-- A node behind the others, and the counters.
unfoldable pub append : Overflow → Entry → Overflow
append o e =
    let depth = u64 (o.depth + 1) in
    record {
      nodes = o.nodes ++ (e ∷ []);
      depth = depth;
      pushed_count = u64 (o.pushed_count + 1);
      max_depth = if ltb o.max_depth depth then depth else o.max_depth;
    }

-- What the call does once it does not use the ring. `node_ok` and `alloc_ok` are whether malloc gives
-- the node and the payload's copy.
unfoldable pub queue_node :
    Bool → Bool → Ring → Overflow → Heap → Entry → Option (List ℕ) → Result × Ring × Overflow × Heap
queue_node node_ok alloc_ok r o h entry bytes =
    if not node_ok then (out_of_memory, r, o, h) else elim bytes [
      | none ↦ (in_overflow, r, append o (record entry { data_length = 0 }), h)
      | some [] ↦ (in_overflow, r, append o (record entry { data_length = 0 }), h)
      | some (b ∷ bs) ↦
          if not alloc_ok
          then (out_of_memory, r, o, h)
          else let (p, h') = malloc h (b ∷ bs) in
            (
              in_overflow,
              r,
              append o (record entry { data_buf = p; data_length = length (b ∷ bs) }),
              h',
            )
    ]

-- The push that is tried while the overflow is empty.
unfoldable pub direct : Bool → Ring → Heap → Entry → Option (List ℕ) → PushResult × Ring × Heap
direct alloc_ok r h entry bytes =
    if copies bytes
    then push alloc_ok r h entry bytes
    else (let (result, r') = push_borrowed r entry in (result, r', h))

-- What follows that push: a full ring sends the entry to the overflow.
abbrev pub after_direct :
    Bool
    → Bool
    → PushResult
    → Ring
    → Overflow
    → Heap
    → Entry
    → Option (List ℕ)
    → Result × Ring × Overflow × Heap
after_direct node_ok alloc_ok pushed r o h entry bytes = (in_ring, r, o, h)
after_direct node_ok alloc_ok no_memory r o h entry bytes = (out_of_memory, r, o, h)
after_direct node_ok alloc_ok full r o h entry bytes = queue_node node_ok alloc_ok r o h entry bytes

unfoldable pub push_or_overflow :
    Bool → Bool → Ring → Overflow → Heap → Entry → Option (List ℕ) → Result × Ring × Overflow × Heap
push_or_overflow node_ok alloc_ok r o h entry bytes =
    if o.depth == 0
    then (let (result, r', h') = direct alloc_ok r h entry bytes in
        after_direct node_ok alloc_ok result r' o h' entry bytes)
    else queue_node node_ok alloc_ok r o h entry bytes

-- The loop of the refill, with the count moved so far. `none` is a fault: the depth is positive, and
-- there is no node.
unfoldable pub move_nodes : List Entry → Ring → ℕ → ℕ → Option (ℕ × Ring × List Entry × ℕ)
move_nodes [] r depth moved =
    if depth == 0
    then some (moved, r, [], depth)
    else if not (has_room r)
    then some (moved, r, [], depth)
    else none
move_nodes (e ∷ es) r depth moved =
    let next = move_nodes es (store r e) (sub64 depth 1) (u32 (moved + 1)) in
    if depth == 0
    then some (moved, r, e ∷ es, depth)
    else if not (has_room r)
    then some (moved, r, e ∷ es, depth)
    else next

-- The overflow after the loop.
abbrev pub with_nodes : Overflow → Option (ℕ × Ring × List Entry × ℕ) → Option (ℕ × Ring × Overflow)
with_nodes o none = none
with_nodes o (some (moved, r, nodes, depth)) =
    some (moved, r, record o { nodes = nodes; depth = depth })

unfoldable pub refill : Ring → Overflow → Option (ℕ × Ring × Overflow)
refill r o = with_nodes o (move_nodes o.nodes r o.depth 0)

-- The payloads that the nodes own.
unfoldable pub free_nodes : List Entry → Heap → Option Heap
free_nodes [] h = some h
free_nodes (e ∷ es) h =
    if owns e
    then elim (free h e.data_buf) [ none ↦ none | some h' ↦ free_nodes es h' ]
    else free_nodes es h

-- `none` is a fault: a free of what is not allocated.
unfoldable pub destroy : Overflow → Heap → Option (Overflow × Heap)
destroy o h = elim (free_nodes o.nodes h) [
  | none ↦ none
  | some h' ↦ some (record o { nodes = []; depth = 0 }, h')
]
