-- ===== src/SpscRing/Overflow/Fifo.antt =====
-- The ring and the overflow list as one queue, and what `spsc_ring_push_or_overflow` does to it.
use aiopquic.Base.{
  ℕ, ◌+◌, ◌^◌, ◌<◌, ◌≡◌, refl, ap, sym, subst, ◌∙◌, arith, Bool, true, false, not, ◌&&◌, ◌||◌,
  Bool-cases, inl, inr, Option, none, some, List, [], ◌∷◌, ◌++◌, append-nil, append_assoc, length,
  length-append, ltb, ◌==◌, if◌then◌else◌,
}
use aiopquic.SpscRing.{Entry, Ring, PushResult, pushed, full, no_memory, copies, push_borrowed}
use aiopquic.SpscRing.Memory.{Heap, at}
use aiopquic.SpscRing.Valid.{IsValid, pending, owned_at, owned_at-append, Accounts}
use aiopquic.SpscRing.Push.{
  queued, heap_with, heap_with-at, then_heap, outcome, then_entries, push_entry,
  push_borrowed_entry,
}
use aiopquic.SpscRing.Overflow.{
  Overflow, Result, in_ring, in_overflow, out_of_memory, append, queue_node, direct, after_direct,
  push_or_overflow,
}

-- The queue that the consumer will see: what the ring holds and then what the overflow holds.
abbrev pub queue : Ring → Overflow → List Entry
queue r o = pending r ++ o.nodes

abbrev pub IsLinked : Overflow → Type 0
IsLinked o = o.depth ≡ length o.nodes

-- The blocks of the heap are the payloads that the entries own and, `rest`, those of others.
abbrev pub Held : Heap → List Entry → (ℕ → ℕ) → Type 0
Held h es rest = (p : ℕ) → at p h.blocks ≡ owned_at p es + rest p

-- The entry as it is queued: with its copied payload, or with a borrowed pointer and length 0.
abbrev pub sent : Heap → Entry → Option (List ℕ) → Entry
sent h e (some (b ∷ bs)) = queued h e (some (b ∷ bs))
sent h e empty = record e { data_length = 0 }

abbrev pub node_outcome : Bool → Bool → Option (List ℕ) → Result
node_outcome node_ok alloc_ok bytes =
    if not node_ok || (copies bytes && not alloc_ok) then out_of_memory else in_overflow

abbrev pub after_outcome : Bool → Bool → PushResult → Option (List ℕ) → Result
after_outcome node_ok alloc_ok pushed bytes = in_ring
after_outcome node_ok alloc_ok no_memory bytes = out_of_memory
after_outcome node_ok alloc_ok full bytes = node_outcome node_ok alloc_ok bytes

-- Where a submitted entry goes.
abbrev pub route : Bool → Bool → Ring → Overflow → Option (List ℕ) → Result
route node_ok alloc_ok r o bytes =
    if o.depth == 0
    then after_outcome node_ok alloc_ok (outcome alloc_ok r bytes) bytes
    else node_outcome node_ok alloc_ok bytes

abbrev pub then_queue : Result → List Entry → Entry → List Entry
then_queue in_ring q e = q ++ (e ∷ [])
then_queue in_overflow q e = q ++ (e ∷ [])
then_queue out_of_memory q e = q

append-IsLinked :
    (o : Overflow) (e : Entry) → IsLinked o → o.depth + 1 < 2 ^ 64 → IsLinked (append o e)
unfolding append
append-IsLinked o e l w = omega (arith, l, w, length-append o.nodes (e ∷ []))

queue-append : (r : Ring) (o : Overflow) (e : Entry) → queue r (append o e) ≡ queue r o ++ (e ∷ [])
unfolding append
queue-append r o e = sym (append_assoc (pending r) o.nodes (e ∷ []))

-- The block of a copied payload is the one more block of the heap, and its entry owns it.
Held-sent :
    (h : Heap) (e : Entry) (bytes : Option (List ℕ)) (es : List Entry) (rest : ℕ → ℕ)
    → Held h es rest
    → Held (heap_with h bytes) (es ++ (sent h e bytes ∷ [])) rest
Held-sent h e bytes es rest held p = omega (
  arith,
  held p,
  heap_with-at p h e bytes,
  same bytes,
  owned_at-append p es (sent h e bytes ∷ []),
)
  where
    same :
        (bytes : Option (List ℕ))
        → owned_at p (sent h e bytes ∷ []) ≡ owned_at p (queued h e bytes ∷ [])
    same none = ground arith
    same (some []) = ground arith
    same (some (b ∷ bs)) = refl

queue_node-eq :
    (node_ok alloc_ok : Bool) (r : Ring) (o : Overflow) (h : Heap) (e : Entry)
    (bytes : Option (List ℕ))
    → queue_node node_ok alloc_ok r o h e bytes ≡ (
        if not node_ok || (copies bytes && not alloc_ok)
        then (out_of_memory, r, o, h)
        else (in_overflow, r, append o (sent h e bytes), heap_with h bytes))
unfolding queue_node
queue_node-eq true alloc_ok r o h e none = refl
queue_node-eq true alloc_ok r o h e (some []) = refl
queue_node-eq true true r o h e (some (b ∷ bs)) = refl
queue_node-eq true false r o h e (some (b ∷ bs)) = refl
queue_node-eq false alloc_ok r o h e none = refl
queue_node-eq false alloc_ok r o h e (some []) = refl
queue_node-eq false alloc_ok r o h e (some (b ∷ bs)) = refl

borrowed_lem :
    {r : Ring} (h : Heap) (e : Entry) (rest : ℕ → ℕ)
    → IsValid r
    → r.tail + 1 < 2 ^ 64
    → e.data_length ≡ 0
    → Accounts h r rest
    → let (result, r') = push_borrowed r e in
      (result ≡ (if not (ltb (length (pending r)) r.capacity) then full else pushed))
      × (pending r' ≡ then_entries result (pending r) (record e { data_length = 0 }))
      × (h ≡ then_heap result h none)
      × IsValid r'
      × Accounts h r' rest
borrowed_lem {r} h e rest v word borrowed a =
    let (result, entries, valid, blocks) = push_borrowed_entry h e rest v word borrowed a in
    (
      result ∙ ground arith,
      entries
          ∙ ap (λ n. then_entries (push_borrowed r e).0 (pending r) (record e { data_length = n }))
              borrowed,
      untouched (push_borrowed r e).0,
      valid,
      blocks,
    )
  where
    untouched : (result : PushResult) → h ≡ then_heap result h none
    untouched pushed = refl
    untouched full = refl
    untouched no_memory = refl

-- What the push that is tried first leaves.
direct_lem :
    (alloc_ok : Bool) {r : Ring} (h : Heap) (e : Entry) (bytes : Option (List ℕ)) (rest : ℕ → ℕ)
    → IsValid r
    → r.tail + 1 < 2 ^ 64
    → e.data_length ≡ 0
    → Accounts h r rest
    → let (result, r', h') = direct alloc_ok r h e bytes in
      (result ≡ outcome alloc_ok r bytes)
      × (pending r' ≡ then_entries result (pending r) (sent h e bytes))
      × (h' ≡ then_heap result h bytes)
      × IsValid r'
      × Accounts h' r' rest
unfolding direct
direct_lem alloc_ok {r} h e none rest v word borrowed a = borrowed_lem h e rest v word borrowed a
direct_lem alloc_ok {r} h e (some []) rest v word borrowed a =
    let (result, entries, heap, valid, blocks) = borrowed_lem h e rest v word borrowed a in
    (result, entries, heap ∙ untouched (push_borrowed r e).0, valid, blocks)
  where
    untouched : (result : PushResult) → then_heap result h none ≡ then_heap result h (some [])
    untouched pushed = refl
    untouched full = refl
    untouched no_memory = refl
direct_lem alloc_ok {r} h e (some (b ∷ bs)) rest v word borrowed a =
    push_entry alloc_ok h e (some (b ∷ bs)) rest v word a

-- What a submission leaves of a queue `q`.
module _ (h : Heap) (e : Entry) (bytes : Option (List ℕ)) (rest : ℕ → ℕ) (q : List Entry) where
  abbrev pub Kept : Result → Ring → Overflow → Heap → Type 0
  Kept result r' o' h' =
      (queue r' o' ≡ then_queue result q (sent h e bytes))
      × IsValid r'
      × IsLinked o'
      × Held h' (queue r' o') rest

queue_node_lem :
    (node_ok alloc_ok : Bool) (r : Ring) (o : Overflow) (h : Heap) (e : Entry)
    (bytes : Option (List ℕ)) (rest : ℕ → ℕ)
    → IsValid r
    → IsLinked o
    → o.depth + 1 < 2 ^ 64
    → Held h (queue r o) rest
    → let (result, r', o', h') = queue_node node_ok alloc_ok r o h e bytes in
      (result ≡ node_outcome node_ok alloc_ok bytes)
      × Kept h e bytes rest (queue r o) result r' o' h'
queue_node_lem node_ok alloc_ok r o h e bytes rest v l deep held =
    elim (Bool-cases (not node_ok || (copies bytes && not alloc_ok))) [
      | inl failed ↦
          rw (queue_node-eq node_ok alloc_ok r o h e bytes, failed) (refl, (refl, v, l, held))
      | inr kept ↦
          rw (queue_node-eq node_ok alloc_ok r o h e bytes, kept)
            (
              refl,
              (
                behind,
                v,
                append-IsLinked o _ l deep,
                λ p.
                    Held-sent h e bytes (queue r o) rest held p
                    ∙ ap (λ es. owned_at p es + rest p) (sym behind),
              ),
            )
    ]
  where
    behind : queue r (append o (sent h e bytes)) ≡ queue r o ++ (sent h e bytes ∷ [])
    behind = queue-append r o (sent h e bytes)

-- What follows the push that is tried while the overflow is empty.
module _ (node_ok alloc_ok : Bool) (r r₁ : Ring) (o : Overflow) (h : Heap) (e : Entry)
    (bytes : Option (List ℕ)) (rest : ℕ → ℕ) (v : IsValid r₁) (none_left : o.nodes ≡ [])
    (l : IsLinked o) (deep : o.depth + 1 < 2 ^ 64) where
  alone : (x : Ring) → queue x o ≡ pending x
  alone x = ap (λ es. pending x ++ es) none_left ∙ append-nil (pending x)

  alone-Held : (h' : Heap) → Accounts h' r₁ rest → Held h' (queue r₁ o) rest
  alone-Held h' a p = a p ∙ ap (λ es. owned_at p es + rest p) (sym (alone r₁))

  after_direct_lem :
      (result : PushResult)
      → pending r₁ ≡ then_entries result (pending r) (sent h e bytes)
      → Accounts (then_heap result h bytes) r₁ rest
      → let (result', r', o', h') =
          after_direct node_ok alloc_ok result r₁ o (then_heap result h bytes) e bytes in
        (result' ≡ after_outcome node_ok alloc_ok result bytes)
        × Kept h e bytes rest (queue r o) result' r' o' h'
  after_direct_lem pushed p a = (
    refl,
    (
      alone r₁ ∙ p ∙ ap (λ es. es ++ (sent h e bytes ∷ [])) (sym (alone r)),
      v,
      l,
      alone-Held (heap_with h bytes) a,
    ),
  )
  after_direct_lem no_memory p a = (refl, (ap (λ es. es ++ o.nodes) p, v, l, alone-Held h a))
  after_direct_lem full p a =
      let (result, (entries, valid, linked, held)) =
        queue_node_lem node_ok alloc_ok r₁ o h e bytes rest v l deep (alone-Held h a) in
      (
        result,
        (
          entries
              ∙ ap
                  (λ es.
                    then_queue (queue_node node_ok alloc_ok r₁ o h e bytes).0 (es ++ o.nodes)
                      (sent h e bytes))
                  p,
          valid,
          linked,
          held,
        ),
      )

nodes_none : (es : List Entry) → length es ≡ 0 → es ≡ []
nodes_none [] h = refl
nodes_none (e ∷ es) h = absurd (omega arith)

-- On a valid ring and a linked overflow, the blocks of the heap being the payloads of their queue
-- beside some others, before 2^64 entries, for an entry that comes with length 0: a submission goes
-- into the ring exactly if the overflow is empty and the ring has room, else into the overflow, and
-- fails just for memory that it needs. Wherever it goes, the entry stands behind all that was
-- submitted before; after a failure the queue is as it was. Ring and overflow stay valid, and the
-- blocks are those of the queue beside the same others.
pub push_or_overflow_lem :
    (node_ok alloc_ok : Bool) {r : Ring} (o : Overflow) (h : Heap) (e : Entry)
    (bytes : Option (List ℕ)) (rest : ℕ → ℕ)
    → IsValid r
    → IsLinked o
    → r.tail + 1 < 2 ^ 64
    → o.depth + 1 < 2 ^ 64
    → e.data_length ≡ 0
    → Held h (queue r o) rest
    → let (result, r', o', h') = push_or_overflow node_ok alloc_ok r o h e bytes in
      (result ≡ route node_ok alloc_ok r o bytes)
      × (queue r' o' ≡ then_queue result (queue r o) (sent h e bytes))
      × IsValid r'
      × IsLinked o'
      × Held h' (queue r' o') rest
unfolding push_or_overflow
push_or_overflow_lem node_ok alloc_ok {r} o h e bytes rest v l word deep borrowed held =
    elim (Bool-cases (o.depth == 0)) [
      | inr waiting ↦
          let (result, (entries, valid, linked, blocks)) =
            queue_node_lem node_ok alloc_ok r o h e bytes rest v l deep held in
          rw waiting (result, entries, valid, linked, blocks)
      | inl empty ↦
          let none_left : o.nodes ≡ [] = nodes_none o.nodes (ground (arith, l, empty)) in
          let a : Accounts h r rest = λ p.
            held p
            ∙ ap (λ es. owned_at p es + rest p)
                (ap (λ es. pending r ++ es) none_left ∙ append-nil (pending r)) in
          let (first, entries, heap, valid, blocks) =
            direct_lem alloc_ok h e bytes rest v word borrowed a in
          let (result, (behind, valid', linked, held')) =
            after_direct_lem node_ok alloc_ok r (direct alloc_ok r h e bytes).1 o h e bytes rest
              valid none_left l deep (direct alloc_ok r h e bytes).0 entries
              (subst (λ x. Accounts x (direct alloc_ok r h e bytes).1 rest) heap blocks) in
          rw (empty, heap, sym first) (result, behind, valid', linked, held')
    ]
