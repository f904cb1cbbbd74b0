-- ===== src/SpscRing/Valid.antt =====
-- The invariant of the event ring, the entries that it holds, and what one entry more or less does.
use aiopquic.Base.{
  ℕ, suc, ◌+◌, ◌-◌, ◌%◌, ◌^◌, ◌≤◌, ◌<◌, ◌≡◌, refl, ap, ◌∙◌, arith, List, [], ◌∷◌, ◌++◌, length,
  length-set, get_or, set, u32, u64, bit_and, ltb, if◌then◌else◌,
}
use aiopquic.Base.Pow2.{IsPow2, mask_index}
use aiopquic.Base.Circular.{window, length-window, window-set_end, window-set_behind}
use aiopquic.SpscRing.{Ring, Entry, no_entry, slot, has_room, owns}
use aiopquic.SpscRing.Memory.{Heap, at, one_if}

pub record IsValid (r : Ring) : Type 0 where
  pub pow2 : IsPow2 r.capacity
  pub masked : r.mask ≡ r.capacity - 1
  pub storage : length r.entries ≡ r.capacity
  pub order : r.head ≤ r.tail
  pub room : r.tail ≤ r.head + r.capacity
  pub word : r.tail < 2 ^ 64

-- The entries between head and tail, oldest first.
abbrev pub pending : Ring → List Entry
pending r = window no_entry r.capacity r.entries r.head (r.tail - r.head)

pub length-pending : (r : Ring) → length (pending r) ≡ r.tail - r.head
length-pending r = length-window no_entry r.capacity r.entries r.head (r.tail - r.head)

pub slot-eq-mod : {r : Ring} (p : ℕ) → IsValid r → slot r p ≡ p % r.capacity
unfolding slot
slot-eq-mod p v = ap (λ m. u32 (bit_and p m)) v.masked ∙ mask_index p v.pow2

pub has_room-eq : {r : Ring} → IsValid r → has_room r ≡ ltb (length (pending r)) r.capacity
unfolding has_room
has_room-eq {r} v = ap (λ n. ltb n r.capacity) (omega (arith, v.order, v.word, length-pending r))

-- A payload of an entry, as the running total and the heap count it.
abbrev pub total_length : List Entry → ℕ
total_length [] = 0
total_length (e ∷ es) = e.data_length + total_length es

abbrev pub owned_at : ℕ → List Entry → ℕ
owned_at p [] = 0
owned_at p (e ∷ es) = (if owns e then one_if p e.data_buf else 0) + owned_at p es

pub total_length-append :
    (xs ys : List Entry) → total_length (xs ++ ys) ≡ total_length xs + total_length ys
total_length-append [] ys = omega arith
total_length-append (x ∷ xs) ys = omega (arith, total_length-append xs ys)

pub owned_at-append :
    (p : ℕ) (xs ys : List Entry) → owned_at p (xs ++ ys) ≡ owned_at p xs + owned_at p ys
owned_at-append p [] ys = omega arith
owned_at-append p (x ∷ xs) ys = omega (arith, owned_at-append p xs ys)

-- The blocks of the heap are those of the pending payloads and, `rest`, those of the others.
abbrev pub Accounts : Heap → Ring → (ℕ → ℕ) → Type 0
Accounts h r rest = (p : ℕ) → at p h.blocks ≡ owned_at p (pending r) + rest p

-- The running total is that of the pending entries.
abbrev pub Counted : Ring → Type 0
Counted r = r.bytes_pending ≡ total_length (pending r)

module _ {r : Ring} (v : IsValid r) (e : Entry) (bytes : ℕ) (room : r.tail < r.head + r.capacity)
    (word : r.tail + 1 < 2 ^ 64) where
  -- One entry more, with any new running total.
  abbrev pub extended : Ring
  extended = record r {
    entries = set r.entries (slot r r.tail) e;
    bytes_pending = bytes;
    tail = u64 (r.tail + 1);
  }

  new_tail : u64 (r.tail + 1) ≡ r.tail + 1
  new_tail = omega (arith, word)

  pub pending-extended : pending extended ≡ pending r ++ (e ∷ [])
  pending-extended =
      rw (new_tail, slot-eq-mod r.tail v)
        (window-set_end no_entry r.capacity r.entries r.head r.tail e (omega (arith, v.storage))
          v.order room)

  pub extended-IsValid : IsValid extended
  extended-IsValid = record {
    pow2 = v.pow2;
    masked = v.masked;
    storage = length-set r.entries (slot r r.tail) e ∙ v.storage;
    order = omega (arith, v.order, new_tail);
    room = omega (arith, room, new_tail);
    word = omega (arith, word, new_tail);
  }

-- The entry at the head, and the ring without it, its slot cleared or not.
module _ {r : Ring} (v : IsValid r) (some_entry : r.head < r.tail) where
  abbrev pub first : Entry
  first = get_or r.entries (r.head % r.capacity) no_entry

  abbrev pub others : List Entry
  others = window no_entry r.capacity r.entries (r.head + 1) (r.tail - (r.head + 1))

  pub pending-first : pending r ≡ first ∷ others
  pending-first = ap (window no_entry r.capacity r.entries r.head) n ∙ unfold window in refl
    where
      n : r.tail - r.head ≡ suc (r.tail - (r.head + 1))
      n = omega arith

  module _ (x : Entry) where
    pub pending-cleared :
        window no_entry r.capacity
          (set r.entries (slot r r.head) x)
          (u64 (r.head + 1))
          (r.tail - u64 (r.head + 1))
        ≡ others
    pending-cleared =
        rw (new_head, slot-eq-mod r.head v)
          (window-set_behind no_entry r.capacity r.entries r.head (r.tail - (r.head + 1)) x
            (omega (arith, v.room)))
      where
        new_head : u64 (r.head + 1) ≡ r.head + 1
        new_head = omega (arith, v.word)

  pub pending-passed :
      window no_entry r.capacity r.entries (u64 (r.head + 1)) (r.tail - u64 (r.head + 1)) ≡ others
  pending-passed = ap (λ p. window no_entry r.capacity r.entries p (r.tail - p)) new_head
    where
      new_head : u64 (r.head + 1) ≡ r.head + 1
      new_head = omega (arith, v.word)
