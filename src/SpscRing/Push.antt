-- ===== src/SpscRing/Push.antt =====
-- `spsc_ring_push` and `spsc_ring_push_borrowed`: the outcome that the room and malloc decide, the
-- queue, and who owns the payload.
use aiopquic.Base.{
  ℕ, ◌+◌, ◌^◌, ◌<◌, ◌≡◌, refl, ap, sym, ◌∙◌, arith, Bool, Bool-cases, inl, inr, Option, none, some,
  List, [], ◌∷◌, ◌++◌, length, u64, ltb, if◌then◌else◌, ◌&&◌, not, ltb→lt,
}
use aiopquic.SpscRing.{
  copies, Ring, Entry, store, push, push_borrowed, PushResult, pushed, full, no_memory,
}
use aiopquic.SpscRing.Memory.{Heap, malloc, at, at-malloc}
use aiopquic.SpscRing.Valid.{
  IsValid, pending, length-pending, has_room-eq, total_length, owned_at, total_length-append,
  owned_at-append, Accounts, Counted, pending-extended, extended-IsValid,
}

-- The entry that a push leaves in its slot, and the heap that it leaves.
abbrev pub queued : Heap → Entry → Option (List ℕ) → Entry
queued h e (some (b ∷ bs)) = record e {
  data_buf = (malloc h (b ∷ bs)).0;
  data_length = length (b ∷ bs);
}
queued h e empty = record e { data_buf = 0; data_length = 0 }

abbrev pub heap_with : Heap → Option (List ℕ) → Heap
heap_with h (some (b ∷ bs)) = (malloc h (b ∷ bs)).1
heap_with h empty = h

-- What the room and malloc decide.
abbrev pub outcome : Bool → Ring → Option (List ℕ) → PushResult
outcome alloc_ok r bytes =
    if not (ltb (length (pending r)) r.capacity)
    then full
    else if copies bytes && not alloc_ok
    then no_memory
    else pushed

abbrev pub then_entries : PushResult → List Entry → Entry → List Entry
then_entries pushed es e = es ++ (e ∷ [])
then_entries full es e = es
then_entries no_memory es e = es

abbrev pub then_heap : PushResult → Heap → Option (List ℕ) → Heap
then_heap pushed h bytes = heap_with h bytes
then_heap full h bytes = h
then_heap no_memory h bytes = h

push-eq :
    (alloc_ok : Bool) (r : Ring) (h : Heap) (e : Entry) (bytes : Option (List ℕ))
    → IsValid r
    → push alloc_ok r h e bytes ≡ (
        if not (ltb (length (pending r)) r.capacity)
        then (full, r, h)
        else if copies bytes && not alloc_ok
        then (no_memory, r, h)
        else (pushed, store r (queued h e bytes), heap_with h bytes))
unfolding push
push-eq alloc_ok r h e none v = rw (has_room-eq v) (ground arith)
push-eq alloc_ok r h e (some []) v = rw (has_room-eq v) (ground arith)
push-eq alloc_ok r h e (some (b ∷ bs)) v = rw (has_room-eq v) (ground arith)

-- What `store` keeps: the entry stands behind the others, the total counts it, the ring is valid.
pub record Stored (r : Ring) (e : Entry) : Type 0 where
  pub entries : pending (store r e) ≡ pending r ++ (e ∷ [])
  pub valid : IsValid (store r e)
  pub counted : Counted r → total_length (pending r) + e.data_length < 2 ^ 64 → Counted (store r e)

pub store-Stored :
    {r : Ring} (e : Entry)
    → IsValid r
    → r.tail + 1 < 2 ^ 64
    → length (pending r) < r.capacity
    → Stored r e
unfolding store
store-Stored {r} e v word room = record {
  entries = entries;
  valid = extended-IsValid v e total below word;
  counted = λ c w. counted_up c w;
}
  where
    total : ℕ
    total = if ltb 0 e.data_length then u64 (r.bytes_pending + e.data_length) else r.bytes_pending

    below : r.tail < r.head + r.capacity
    below = omega (arith, length-pending r, v.order)

    entries : pending (store r e) ≡ pending r ++ (e ∷ [])
    entries = pending-extended v e total below word

    -- 2^64 bounds the new total, so the atomic addition does not wrap around.
    counted_up : Counted r → total_length (pending r) + e.data_length < 2 ^ 64 → Counted (store r e)
    counted_up c w =
        let more : total ≡ total_length (pending r) + e.data_length =
          elim (Bool-cases (ltb 0 e.data_length)) [
            | inl some_bytes ↦ ground (arith, some_bytes)
            | inr no_bytes ↦ ground (arith, no_bytes)
          ] in
        more
        ∙ omega (arith, total_length-append (pending r) (e ∷ []))
        ∙ sym (ap total_length entries)

-- The counting of the queued payload's block: one more block, which the queued entry owns.
pub heap_with-at :
    (p : ℕ) (h : Heap) (e : Entry) (bytes : Option (List ℕ))
    → at p (heap_with h bytes).blocks ≡ at p h.blocks + owned_at p (queued h e bytes ∷ [])
unfolding malloc
heap_with-at p h e none = ground arith
heap_with-at p h e (some []) = ground arith
heap_with-at p h e (some (b ∷ bs)) = at-malloc p h (b ∷ bs) ∙ ground arith

module _ {r : Ring} (h : Heap) (e : Entry) (bytes : Option (List ℕ)) (rest : ℕ → ℕ) (v : IsValid r)
    (word : r.tail + 1 < 2 ^ 64) (a : Accounts h r rest) where
  -- What a push leaves for each result: the queue, the heap, a valid ring, the blocks accounted for.
  Done : PushResult → Ring → Heap → Type 0
  Done result r' h' =
      (pending r' ≡ then_entries result (pending r) (queued h e bytes))
      × (h' ≡ then_heap result h bytes)
      × IsValid r'
      × Accounts h' r' rest

  pushed-Done :
      length (pending r) < r.capacity → Done pushed (store r (queued h e bytes)) (heap_with h bytes)
  unfolding Done
  pushed-Done room = (s.entries, refl, s.valid, λ p. blocks p)
    where
      q : Entry
      q = queued h e bytes

      s : Stored r q
      s = store-Stored q v word room

      blocks : Accounts (heap_with h bytes) (store r q) rest
      blocks p =
          heap_with-at p h e bytes
          ∙ omega (arith, a p, owned_at-append p (pending r) (q ∷ []))
          ∙ ap (λ es. owned_at p es + rest p) (sym s.entries)

-- On a valid ring, whose pending payloads are the blocks of the heap beside some others, before 2^64
-- pushes: a push is refused as full exactly if the ring holds as many entries as its capacity, and
-- fails for memory exactly if there is room, a payload to copy and no memory; then queue and heap are
-- as they were. Otherwise the entry stands behind the others, with the address of a copy of the
-- payload, the one new block of the heap, or NULL and length 0 for none. The ring stays valid, and
-- the blocks are still those of the pending payloads beside the same others.
pub push_entry :
    (alloc_ok : Bool) {r : Ring} (h : Heap) (e : Entry) (bytes : Option (List ℕ)) (rest : ℕ → ℕ)
    → IsValid r
    → r.tail + 1 < 2 ^ 64
    → Accounts h r rest
    → let (result, r', h') = push alloc_ok r h e bytes in
      (result ≡ outcome alloc_ok r bytes)
      × (pending r' ≡ then_entries result (pending r) (queued h e bytes))
      × (h' ≡ then_heap result h bytes)
      × IsValid r'
      × Accounts h' r' rest
unfolding Done
push_entry alloc_ok {r} h e bytes rest v word a =
    elim (Bool-cases (ltb (length (pending r)) r.capacity)) [
      | inr no_room ↦ rw (push-eq alloc_ok r h e bytes v, no_room) (refl, refl, refl, v, a)
      | inl room ↦ elim (Bool-cases (copies bytes && not alloc_ok)) [
        | inl failed ↦ rw (push-eq alloc_ok r h e bytes v, room, failed) (refl, refl, refl, v, a)
        | inr stored ↦
            let (entries, heap, valid, blocks) =
              pushed-Done h e bytes rest v word a (ltb→lt _ _ room) in
            rw (push-eq alloc_ok r h e bytes v, room, stored) (refl, entries, heap, valid, blocks)
      ]
    ]

-- A successful push of a payload whose sum with the pending lengths is below 2^64 keeps the running
-- total that of the pending entries.
pub store-Counted :
    {r : Ring} (e : Entry)
    → IsValid r
    → r.tail + 1 < 2 ^ 64
    → length (pending r) < r.capacity
    → total_length (pending r) + e.data_length < 2 ^ 64
    → Counted r
    → Counted (store r e)
store-Counted e v word room w c = (store-Stored e v word room).counted c w

-- A borrowed push is refused as full exactly if the ring holds as many entries as its capacity.
-- Otherwise the entry stands behind the others as it is. The ring stays valid; no block is made, and
-- an entry of length 0 is not one whose payload the ring would free.
pub push_borrowed_entry :
    {r : Ring} (h : Heap) (e : Entry) (rest : ℕ → ℕ)
    → IsValid r
    → r.tail + 1 < 2 ^ 64
    → e.data_length ≡ 0
    → Accounts h r rest
    → let (result, r') = push_borrowed r e in
      (result ≡ (if ltb (length (pending r)) r.capacity then pushed else full))
      × (pending r' ≡ then_entries result (pending r) e)
      × IsValid r'
      × Accounts h r' rest
unfolding push_borrowed
push_borrowed_entry {r} h e rest v word borrowed a =
    elim (Bool-cases (ltb (length (pending r)) r.capacity)) [
      | inr no_room ↦ rw (has_room-eq v, no_room) (refl, refl, v, a)
      | inl room ↦
          let below : r.tail < r.head + r.capacity =
            omega (arith, ltb→lt _ _ room, length-pending r, v.order) in
          rw (has_room-eq v, room)
            (
              refl,
              pending-extended v e r.bytes_pending below word,
              extended-IsValid v e r.bytes_pending below word,
              λ p.
                  a p
                  ∙ omega (arith, owned_at-append p (pending r) (e ∷ []), not_owned p)
                  ∙ ap (λ es. owned_at p es + rest p)
                      (sym (pending-extended v e r.bytes_pending below word)),
            )
    ]
  where
    not_owned : (p : ℕ) → owned_at p (e ∷ []) ≡ 0
    not_owned p = ground (arith, borrowed)
