-- ===== src/SpscRing/Pop.antt =====
-- `spsc_ring_peek`, `spsc_ring_pop`, `spsc_ring_take_data` and `spsc_ring_destroy`: the entry that
-- leaves, the ring behind it, and its payload.
use aiopquic.Base.{
  ℕ, zero, suc, ◌+◌, ◌-◌, ◌%◌, ◌<◌, ◌≡◌, refl, ap, ap₂, sym, ◌∙◌, arith, true, false, Bool-cases,
  inl, inr, none, some, List, [], ◌∷◌, length, get_or, get_or-set_self, set, length-set, u64, sub64,
  leb,
}
use aiopquic.Base.Pow2.{IsPow2-bounds}
use aiopquic.Base.Circular.{window}
use aiopquic.SpscRing.{
  Ring, Entry, no_entry, slot, owns, peek, pop, pop_entry, take_data, free_pending, destroy,
}
use aiopquic.SpscRing.Memory.{Heap, free, at, one_if, at-free}
use aiopquic.SpscRing.Valid.{
  IsValid, pending, length-pending, slot-eq-mod, owned_at, Accounts, first, others, pending-first,
  pending-cleared, pending-passed,
}

-- A pop frees what the entry at the head owns; this is the ring that is left, for the entry that
-- stays behind in the slot and the running total.
left : Ring → Entry → ℕ → Ring
left r e bytes = record r {
  bytes_pending = bytes;
  entries = set r.entries (slot r r.head) e;
  head = u64 (r.head + 1);
}

module _ {r : Ring} (v : IsValid r) (some_entry : r.head < r.tail) where
  new_head : u64 (r.head + 1) ≡ r.head + 1
  new_head = omega (arith, v.word)

  left-IsValid : (e : Entry) (bytes : ℕ) → IsValid (left r e bytes)
  unfolding left
  left-IsValid e bytes = record {
    pow2 = v.pow2;
    masked = v.masked;
    storage = length-set r.entries (slot r r.head) e ∙ v.storage;
    order = omega (arith, new_head);
    room = omega (arith, v.room, new_head);
    word = v.word;
  }

  passed-IsValid : IsValid (record r { head = u64 (r.head + 1) })
  passed-IsValid = record {
    pow2 = v.pow2;
    masked = v.masked;
    storage = v.storage;
    order = omega (arith, new_head);
    room = omega (arith, v.room, new_head);
    word = v.word;
  }

  at_head : get_or r.entries (slot r r.head) no_entry ≡ first v some_entry
  at_head = ap (λ i. get_or r.entries i no_entry) (slot-eq-mod r.head v)

-- The entry at the head and the others, of a ring that holds some.
head_entry :
    {r : Ring} (e : Entry) (es : List Entry) (v : IsValid r)
    → pending r ≡ e ∷ es
    → (some_entry : r.head < r.tail) × (get_or r.entries (slot r r.head) no_entry ≡ e)
      × (others v some_entry ≡ es)
head_entry {r} e es v p = (some_entry, at_head v some_entry ∙ parts.0, parts.1)
  where
    some_entry : r.head < r.tail
    some_entry = omega (arith, length-pending r, ap length p)

    parts : (first v some_entry ≡ e) × (others v some_entry ≡ es)
    parts =
        let same : first v some_entry ∷ others v some_entry ≡ e ∷ es =
          sym (pending-first v some_entry) ∙ p in
        (cc (same), cc (same))

pub owned_first :
    (q : ℕ) (e : Entry) (es : List Entry)
    → owns e ≡ true
    → owned_at q (e ∷ es) ≡ one_if q e.data_buf + owned_at q es
owned_first q e es h = rw h

pub others_only :
    (q : ℕ) (e : Entry) (es : List Entry) → owns e ≡ false → owned_at q (e ∷ es) ≡ owned_at q es
others_only q e es h = ground (arith, h)

one_if_same : (p : ℕ) → one_if p p ≡ 1
one_if_same p = ground arith

-- What the ring owns can be freed, and then the others are accounted for.
pub free_owned :
    (h : Heap) (e : Entry) (es : List Entry) (rest : ℕ → ℕ)
    → owns e ≡ true
    → ((q : ℕ) → at q h.blocks ≡ owned_at q (e ∷ es) + rest q)
    → (h' : Heap) × (free h e.data_buf ≡ some h')
      × ((q : ℕ) → at q h'.blocks ≡ owned_at q es + rest q)
free_owned h e es rest owned counts =
    let (h', freed, same) = at-free e.data_buf h live in
    (h', freed, λ q. omega (arith, same q, counts q, owned_first q e es owned))
  where
    live : 0 < at e.data_buf h.blocks
    live =
        omega (arith, counts e.data_buf, owned_first e.data_buf e es owned, one_if_same e.data_buf)

-- The entry at the head of a valid ring is what peek shows.
pub peek-eq :
    {r : Ring} (e : Entry) (es : List Entry) → IsValid r → pending r ≡ e ∷ es → peek r ≡ some e
unfolding peek
peek-eq {r} e es v p =
    let (some_entry, at_e, rest) = head_entry e es v p in
    let more : leb r.tail r.head ≡ false = ground (arith, some_entry) in rw (more, at_e)

pub peek-empty : {r : Ring} → IsValid r → pending r ≡ [] → peek r ≡ none
unfolding peek
peek-empty {r} v p =
    let none_left : leb r.tail r.head ≡ true = ground (arith, length-pending r, ap length p) in
    rw none_left

-- A valid ring that holds an entry and whose pending payloads are blocks of the heap: a pop frees the
-- entry's payload, if the ring owns it, and nothing else, never what is not allocated; the other
-- entries stay, in their order, and the ring stays valid.
pub pop_frees :
    {r : Ring} (h : Heap) (e : Entry) (es : List Entry) (rest : ℕ → ℕ)
    → IsValid r
    → pending r ≡ e ∷ es
    → Accounts h r rest
    → (r' : Ring) × (h' : Heap) × (peek r ≡ some e)
      × (pop r h ≡ some (r', h'))
      × (pending r' ≡ es)
      × IsValid r'
      × Accounts h' r' rest
unfolding pop pop_entry left
pop_frees {r} h e es rest v p a = elim (Bool-cases (owns e)) [
  | inl owned ↦
      let (h', freed, counted) = free_owned h e es rest owned counts in
      let r' = left r (record e { data_buf = 0 }) (sub64 r.bytes_pending e.data_length) in
      let es' : pending r' ≡ es =
        pending-cleared v some_entry (record e { data_buf = 0 }) ∙ rest_eq in
      (
        r',
        h',
        peek-eq e es v p,
        ap (pop_entry r h) at_e ∙ rw (owned, freed),
        es',
        left-IsValid v some_entry _ _,
        λ q. counted q ∙ ap (λ xs. owned_at q xs + rest q) (sym es'),
      )
  | inr other ↦ (
    record r { head = u64 (r.head + 1) },
    h,
    peek-eq e es v p,
    ap (pop_entry r h) at_e ∙ rw other,
    pending-passed v some_entry ∙ rest_eq,
    passed-IsValid v some_entry,
    λ q.
        counts q
        ∙ omega (arith, others_only q e es other)
        ∙ ap (λ xs. owned_at q xs + rest q) (sym (pending-passed v some_entry ∙ rest_eq)),
  )
]
  where
    parts :
        (some_entry : r.head < r.tail) × (get_or r.entries (slot r r.head) no_entry ≡ e)
        × (others v some_entry ≡ es)
    parts = head_entry e es v p

    some_entry : r.head < r.tail
    some_entry = parts.0

    at_e : get_or r.entries (slot r r.head) no_entry ≡ e
    at_e = parts.1

    rest_eq : others v some_entry ≡ es
    rest_eq = parts.2

    counts : (q : ℕ) → at q h.blocks ≡ owned_at q (e ∷ es) + rest q
    counts q = a q ∙ ap (λ xs. owned_at q xs + rest q) p

slot-below : {r : Ring} (p : ℕ) → IsValid r → slot r p < length r.entries
slot-below {r} p v = omega (arith, slot-eq-mod p v, v.storage, IsPow2-bounds v.pow2)

-- A valid ring whose pending payloads are blocks of the heap, and whose first entry has one that the
-- ring owns: take_data returns that payload, which the pop after it does not free, and which is then
-- a block beside those of the ring. The other entries stay, in their order, and the ring stays valid.
-- The running total of the pending bytes stays as it was, with the bytes that were taken.
pub take_then_pop :
    {r : Ring} (h : Heap) (e : Entry) (es : List Entry) (rest : ℕ → ℕ)
    → IsValid r
    → pending r ≡ e ∷ es
    → owns e ≡ true
    → Accounts h r rest
    → let (p, r₁) = take_data r in
      (p ≡ e.data_buf)
      × (r' : Ring) × (pop r₁ h ≡ some (r', h))
      × (pending r' ≡ es)
      × IsValid r'
      × Accounts h r' (λ q. one_if q p + rest q)
      × (r'.bytes_pending ≡ r.bytes_pending)
unfolding take_data pop pop_entry left slot
take_then_pop {r} h e es rest v p owned a = (
  ap (λ x. x.data_buf) at_e,
  r',
  ap (pop_entry r₁ h) at_slot ∙ refl,
  es',
  left-IsValid v some_entry taken r.bytes_pending,
  λ q. counted q,
  refl,
)
  where
    old : Entry
    old = get_or r.entries (slot r r.head) no_entry

    taken : Entry
    taken = record old { data_buf = 0; data_length = 0 }

    r₁ : Ring
    r₁ = record r { entries = set r.entries (slot r r.head) taken }

    r' : Ring
    r' = left r taken r.bytes_pending

    parts : (some_entry : r.head < r.tail) × (old ≡ e) × (others v some_entry ≡ es)
    parts = head_entry e es v p

    some_entry : r.head < r.tail
    some_entry = parts.0

    at_e : old ≡ e
    at_e = parts.1

    at_slot : get_or (set r.entries (slot r r.head) taken) (slot r r.head) no_entry ≡ taken
    at_slot = get_or-set_self r.entries (slot r r.head) taken no_entry (slot-below r.head v)

    es' : pending r' ≡ es
    es' = pending-cleared v some_entry taken ∙ parts.2

    counted : (q : ℕ) → at q h.blocks ≡ owned_at q (pending r') + (one_if q old.data_buf + rest q)
    counted q =
        a q
        ∙ ap (λ xs. owned_at q xs + rest q) p
        ∙ omega (arith, owned_first q e es owned)
        ∙ ap₂ (λ xs b. owned_at q xs + (one_if q b + rest q)) (sym es')
            (ap (λ x. x.data_buf) (sym at_e))

-- The loop of destroy over the entries that are still there.
free_pending_lem :
    (r : Ring) (n head : ℕ) (h : Heap) (rest : ℕ → ℕ)
    → IsValid r
    → ((q : ℕ) → at q h.blocks ≡ owned_at q (window no_entry r.capacity r.entries head n) + rest q)
    → (h' : Heap) × (free_pending r h head n ≡ some h') × ((q : ℕ) → at q h'.blocks ≡ rest q)
unfolding free_pending window
free_pending_lem r zero head h rest v a = (h, refl, λ q. omega (arith, a q))
free_pending_lem r (suc n) head h rest v a =
    let e = get_or r.entries (head % r.capacity) no_entry in
    let at_e : get_or r.entries (slot r head) no_entry ≡ e =
      ap (λ i. get_or r.entries i no_entry) (slot-eq-mod head v) in
    let es = window no_entry r.capacity r.entries (head + 1) n in
    elim (Bool-cases (owns e)) [
      | inl owned ↦
          let (h₁, freed, counted) = free_owned h e es rest owned a in
          let (h', done, none_left) = free_pending_lem r n (head + 1) h₁ rest v counted in
          (h', rw (at_e, owned, freed) done, none_left)
      | inr other ↦
          let (h', done, none_left) =
            free_pending_lem r n (head + 1) h rest v
              (λ q. a q ∙ omega (arith, others_only q e es other)) in
          (h', rw (at_e, other) done, none_left)
    ]

-- Destroying a valid ring whose pending payloads are blocks of the heap frees each of them once,
-- never what is not allocated, and leaves the other blocks.
pub destroy_lem :
    {r : Ring} (h : Heap) (rest : ℕ → ℕ)
    → IsValid r
    → Accounts h r rest
    → (h' : Heap) × (destroy r h ≡ some h') × ((q : ℕ) → at q h'.blocks ≡ rest q)
unfolding destroy
destroy_lem {r} h rest v a = free_pending_lem r (r.tail - r.head) r.head h rest v a
