-- ===== src/StreamBuf/Race/Knows.antt =====
-- What each thread knows of the ring between its steps, and what a step of the other leaves of it.
use aiopquic.Base.{ℕ, ◌+◌, ◌-◌, ◌^◌, ◌≤◌, ◌<◌, ◌≡◌, refl, ◌∙◌, arith, List, ◌++◌, length}
use aiopquic.Base.Circular.{
  window, write_each, window-write_each_before, window-write_each_at, length-write_each,
}
use aiopquic.StreamBuf.{StreamBuf}
use aiopquic.StreamBuf.Valid.{IsValid, contents}
use aiopquic.StreamBuf.Race.{Producer, Consumer, System}

-- What a side knows between its steps.
abbrev pub ProducerOk : StreamBuf → Producer → Type 0
ProducerOk sb Producer.resting = Unit
ProducerOk sb (Producer.loaded bytes head) =
    (head ≤ sb.head)
    × (sb.tail ≤ head + sb.capacity)
    × (length bytes < 2 ^ 32)
    × (sb.tail + length bytes < 2 ^ 64)
ProducerOk sb (Producer.copied xs tail) =
    (tail ≡ sb.tail + length xs)
    × (tail ≤ sb.head + sb.capacity)
    × (tail < 2 ^ 64)
    × (window 0 sb.capacity sb.buf sb.tail (length xs) ≡ xs)

abbrev pub ConsumerOk : StreamBuf → Consumer → Type 0
ConsumerOk sb Consumer.resting = Unit
ConsumerOk sb (Consumer.loaded max_bytes tail) = (sb.head ≤ tail) × (tail ≤ sb.tail)
ConsumerOk sb (Consumer.reading out head) =
    (head ≡ sb.head + length out)
    × (head ≤ sb.tail)
    × (window 0 sb.capacity sb.buf sb.head (length out) ≡ out)

pub record Inv (s : System) : Type 0 where
  pub valid : IsValid s.ring
  pub producer_ok : ProducerOk s.ring s.producer
  pub consumer_ok : ConsumerOk s.ring s.consumer
  pub fifo : s.accepted ≡ s.delivered ++ contents s.ring

-- The consumer's bytes stay where they are while the producer writes behind the tail.
module _ {sb : StreamBuf} (v : IsValid sb) (xs : List ℕ)
    (fits : sb.tail + length xs ≤ sb.head + sb.capacity) where
  abbrev pub stored : List ℕ
  stored = write_each 0 sb.capacity sb.buf sb.tail xs

  stored_before :
      (n : ℕ)
      → sb.head + n ≤ sb.tail
      → window 0 sb.capacity stored sb.head n ≡ window 0 sb.capacity sb.buf sb.head n
  stored_before n h = window-write_each_before 0 sb.capacity sb.buf sb.head n sb.tail xs h fits

  module _ (hash : ℕ) where
    abbrev pub written : StreamBuf
    written = record sb { buf = stored; push_hash = hash }

    pub written-IsValid : IsValid written
    written-IsValid = record {
      pow2 = v.pow2;
      masked = v.masked;
      storage = length-write_each 0 sb.capacity sb.buf sb.tail xs ∙ v.storage;
      order = v.order;
      room = v.room;
      word = v.word;
    }

    pub written-ConsumerOk : (c : Consumer) → ConsumerOk sb c → ConsumerOk written c
    written-ConsumerOk Consumer.resting k = k
    written-ConsumerOk (Consumer.loaded max_bytes tail) k = k
    written-ConsumerOk (Consumer.reading out head) (e, h, same) =
        (e, h, stored_before (length out) (omega arith) ∙ same)

    pub contents-written : contents written ≡ contents sb
    contents-written = stored_before (sb.tail - sb.head) (omega (arith, v.order))

    pub written-ProducerOk :
        sb.tail + length xs < 2 ^ 64 → ProducerOk written (Producer.copied xs (sb.tail + length xs))
    written-ProducerOk w = (
      refl,
      fits,
      w,
      window-write_each_at 0 sb.capacity sb.buf sb.tail xs (omega (arith, v.storage))
          (omega (arith, v.order)),
    )

-- The producer's knowledge survives a move of the head towards the tail, and the consumer's one of
-- the tail.
pub ProducerOk-head :
    (sb : StreamBuf) (head : ℕ) (p : Producer)
    → sb.head ≤ head
    → ProducerOk sb p
    → ProducerOk (record sb { head = head }) p
ProducerOk-head sb head Producer.resting h k = k
ProducerOk-head sb head (Producer.loaded bytes old) h k = omega arith
ProducerOk-head sb head (Producer.copied xs tail) h (e, f, w, same) = (e, omega arith, w, same)

pub ProducerOk-hash :
    (sb : StreamBuf) (hash : ℕ) (p : Producer)
    → ProducerOk sb p
    → ProducerOk (record sb { pop_hash = hash }) p
ProducerOk-hash sb hash Producer.resting k = k
ProducerOk-hash sb hash (Producer.loaded bytes old) k = k
ProducerOk-hash sb hash (Producer.copied xs tail) k = k

pub ConsumerOk-tail :
    (sb : StreamBuf) (tail : ℕ) (c : Consumer)
    → sb.tail ≤ tail
    → ConsumerOk sb c
    → ConsumerOk (record sb { tail = tail }) c
ConsumerOk-tail sb tail Consumer.resting h k = k
ConsumerOk-tail sb tail (Consumer.loaded max_bytes old) h k = omega arith
ConsumerOk-tail sb tail (Consumer.reading out head) h (e, f, same) = (e, omega arith, same)
