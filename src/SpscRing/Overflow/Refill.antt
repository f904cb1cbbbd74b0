-- ===== src/SpscRing/Overflow/Refill.antt =====
-- `spsc_ring_refill_from_overflow` and `spsc_overflow_destroy`.
use aiopquic.Base.{
  ℕ, suc, ◌+◌, ◌-◌, ◌^◌, ◌<◌, ◌≡◌, refl, ap, ap₂, sym, ◌∙◌, arith, false, Bool-cases, inl, inr,
  Option, some, List, [], ◌∷◌, ◌++◌, append-nil, append_assoc, length, length-append, ltb, ◌==◌,
  min, sub64, u32, take, drop, take-append-drop, length-drop, ltb→lt,
}
use aiopquic.Base.Pow2.{IsPow2-bounds}
use aiopquic.SpscRing.{Entry, Ring, store, owns}
use aiopquic.SpscRing.Memory.{Heap, at}
use aiopquic.SpscRing.Valid.{IsValid, pending, has_room-eq}
use aiopquic.SpscRing.Push.{store-Stored}
use aiopquic.SpscRing.Pop.{free_owned, others_only}
use aiopquic.SpscRing.Overflow.{Overflow, move_nodes, with_nodes, refill, free_nodes, destroy}
use aiopquic.SpscRing.Overflow.Fifo.{queue, IsLinked, Held}

-- What the loop leaves after `moved` entries, when `k` more move.
Moved : List Entry → Ring → ℕ → ℕ → Ring → Type 0
Moved nodes r moved k r' =
    (move_nodes nodes r (length nodes) moved ≡ some (moved + k, r', drop k nodes, length nodes - k))
    × (k ≡ min (length nodes) (r.capacity - length (pending r)))
    × (pending r' ≡ pending r ++ take k nodes)
    × IsValid r'

same_left :
    (r : Ring) (es : List Entry) {a b d f : ℕ}
    → a ≡ b
    → d ≡ f
    → Path (Option (ℕ × Ring × List Entry × ℕ)) (some (a, r, es, d)) (some (b, r, es, f))
same_left r es p q = ap₂ (λ x y. some (x, r, es, y)) p q

move_nodes_lem :
    (nodes : List Entry) (r : Ring) (moved : ℕ)
    → IsValid r
    → r.tail + length nodes < 2 ^ 64
    → moved + (r.capacity - length (pending r)) < 2 ^ 32
    → (k : ℕ) × (r' : Ring) × Moved nodes r moved k r'
unfolding Moved move_nodes store
move_nodes_lem [] r moved v w short = (
  0,
  r,
  (
    ap (λ n. some (n, r, [], 0)) {x = moved} (omega arith),
    omega arith,
    sym (append-nil (pending r)),
    v,
  ),
)
move_nodes_lem (e ∷ es) r moved v w short =
    elim (Bool-cases (ltb (length (pending r)) r.capacity)) [
      | inr no_room ↦
          let stay : 0 ≡ min (suc (length es)) (r.capacity - length (pending r)) =
            ground (arith, no_room) in
          let waiting : (suc (length es) == 0) ≡ false = ground arith in
          (
            0,
            r,
            (
              rw (has_room-eq v, no_room, waiting)
                  (same_left r (e ∷ es) {a = moved} {d = suc (length es)} (omega arith)
                    (omega arith)),
              stay,
              sym (append-nil (pending r)),
              v,
            ),
          )
      | inl room ↦
          let s = store-Stored e v (omega (arith, w)) (ltb→lt _ _ room) in
          let longer : length (pending (store r e)) ≡ length (pending r) + 1 =
            ap length s.entries ∙ length-append (pending r) (e ∷ []) in
          let below : length (pending r) < r.capacity = ltb→lt _ _ room in
          let (k, r', (moves, count, entries, valid)) =
            move_nodes_lem es (store r e) (moved + 1) s.valid (omega (arith, w))
              (omega (arith, short, longer, below)) in
          let waiting : (suc (length es) == 0) ≡ false = ground arith in
          let down : sub64 (suc (length es)) 1 ≡ length es = omega (arith, w) in
          let up : u32 (moved + 1) ≡ moved + 1 = omega (arith, short, below) in
          (
            suc k,
            r',
            (
              rw (has_room-eq v, room, waiting, down, up, moves)
                  (same_left r' (drop k es) {a = moved + 1 + k} {d = length es - k} (omega arith)
                    (omega arith)),
              omega (arith, count, longer, below),
              entries
                  ∙ ap (λ xs. xs ++ take k es) s.entries
                  ∙ append_assoc (pending r) (e ∷ []) (take k es),
              valid,
            ),
          )
    ]

-- On a valid ring and a linked overflow, before 2^64 entries: a refill never finds a node missing. It
-- moves as many entries as there are and as the ring has room for, the oldest ones, and returns their
-- number; the queue of ring and overflow stays as it was, and both stay valid.
pub refill_lem :
    {r : Ring} (o : Overflow)
    → IsValid r
    → IsLinked o
    → r.tail + length o.nodes < 2 ^ 64
    → (k : ℕ) × (r' : Ring) × (o' : Overflow) × (refill r o ≡ some (k, r', o'))
      × (k ≡ min (length o.nodes) (r.capacity - length (pending r)))
      × (o'.nodes ≡ drop k o.nodes)
      × (queue r' o' ≡ queue r o)
      × IsValid r'
      × IsLinked o'
unfolding refill Moved
refill_lem {r} o v l w =
    let (k, r', (moves, count, entries, valid)) =
      move_nodes_lem o.nodes r 0 v w (omega (arith, IsPow2-bounds v.pow2)) in
    let left = record o { nodes = drop k o.nodes; depth = length o.nodes - k } in
    (
      k,
      r',
      left,
      ap (with_nodes o) (ap (λ d. move_nodes o.nodes r d 0) l ∙ moves)
          ∙ ap (λ n. some (n, r', left)) {x = 0 + k} (omega arith),
      count,
      refl,
      ap (λ es. es ++ drop k o.nodes) entries
          ∙ append_assoc (pending r) (take k o.nodes) (drop k o.nodes)
          ∙ ap (λ es. pending r ++ es) (take-append-drop k o.nodes),
      valid,
      sym (length-drop k o.nodes),
    )

free_nodes_lem :
    (es : List Entry) (h : Heap) (rest : ℕ → ℕ)
    → Held h es rest
    → (h' : Heap) × (free_nodes es h ≡ some h') × ((q : ℕ) → at q h'.blocks ≡ rest q)
unfolding free_nodes
free_nodes_lem [] h rest held = (h, refl, λ q. omega (arith, held q))
free_nodes_lem (e ∷ es) h rest held = elim (Bool-cases (owns e)) [
  | inl owned ↦
      let (h₁, freed, counted) = free_owned h e es rest owned held in
      let (h', done, none_left) = free_nodes_lem es h₁ rest counted in
      (h', rw (owned, freed) done, none_left)
  | inr other ↦
      let (h', done, none_left) =
        free_nodes_lem es h rest (λ q. held q ∙ omega (arith, others_only q e es other)) in
      (h', rw other done, none_left)
]

-- Destroying an overflow whose payloads are blocks of the heap frees each of them once, never what is
-- not allocated, leaves the other blocks, and leaves the overflow empty.
pub destroy-frees :
    (o : Overflow) (h : Heap) (rest : ℕ → ℕ)
    → Held h o.nodes rest
    → (o' : Overflow) × (h' : Heap) × (destroy o h ≡ some (o', h'))
      × (o'.nodes ≡ [])
      × IsLinked o'
      × ((q : ℕ) → at q h'.blocks ≡ rest q)
unfolding destroy
destroy-frees o h rest held =
    let (h', done, none_left) = free_nodes_lem o.nodes h rest held in
    (record o { nodes = []; depth = 0 }, h', rw (done, destroy), refl, refl, none_left)
