-- ===== src/StreamBuf/Race.antt =====
-- The byte ring between two threads. Each side loads the other's position, copies bytes, and then
-- publishes its own position by a release store; the steps of the two sides interleave freely.
-- Loads and stores are taken to be sequentially consistent, as the acquire and release pairs make
-- them for one producer and one consumer.
pub mod Knows
pub mod Fifo
use aiopquic.Base.{ℕ, ◌+◌, ◌^◌, ◌<◌, ◌≡◌, List, [], ◌++◌, length, take}
use aiopquic.StreamBuf.{StreamBuf, push_at, pop_at}

-- Where the producer stands: it has loaded `head`, or copied bytes and not yet published its tail.
pub data Producer : Type 0 where
  resting : Producer
  loaded : List ℕ → ℕ → Producer
  copied : List ℕ → ℕ → Producer

-- Where the consumer stands: it has loaded `tail`, or read bytes and not yet published its head.
pub data Consumer : Type 0 where
  resting : Consumer
  loaded : ℕ → ℕ → Consumer
  reading : List ℕ → ℕ → Consumer

-- The ring, the two threads, and what has been published: bytes accepted and bytes delivered.
pub record System : Type 0 where
  pub ring : StreamBuf
  pub producer : Producer
  pub consumer : Consumer
  pub accepted : List ℕ
  pub delivered : List ℕ

-- The part of `push_at` before the store of `tail`, and of `pop_at` before the store of `head`.
abbrev pub copy_in : StreamBuf → ℕ → List ℕ → StreamBuf
copy_in sb head bytes =
    let (n, sb') = push_at sb sb.tail head bytes in
    record sb { buf = sb'.buf; push_hash = sb'.push_hash }

abbrev pub copy_out : StreamBuf → ℕ → ℕ → StreamBuf
copy_out sb tail max_bytes =
    let (n, out, sb') = pop_at sb sb.head tail max_bytes in record sb { pop_hash = sb'.pop_hash }

pub data Step (s : System) : System → Type 0 where
  load_head :
      (bytes : List ℕ)
      → s.producer ≡ Producer.resting
      → length bytes < 2 ^ 32
      → s.ring.tail + length bytes < 2 ^ 64
      → Step s (record s { producer = Producer.loaded bytes s.ring.head })
  copy :
      (bytes : List ℕ) (head : ℕ)
      → s.producer ≡ Producer.loaded bytes head
      → Step s (record s {
        ring = copy_in s.ring head bytes;
        producer =
            let (n, sb') = push_at s.ring s.ring.tail head bytes in
            Producer.copied (take n bytes) sb'.tail;
      })
  publish_tail :
      (written : List ℕ) (tail : ℕ)
      → s.producer ≡ Producer.copied written tail
      → Step s (record s {
        ring = record (s.ring) { tail = tail };
        producer = Producer.resting;
        accepted = s.accepted ++ written;
      })
  load_tail :
      (max_bytes : ℕ)
      → s.consumer ≡ Consumer.resting
      → Step s (record s { consumer = Consumer.loaded max_bytes s.ring.tail })
  read :
      (max_bytes tail : ℕ)
      → s.consumer ≡ Consumer.loaded max_bytes tail
      → Step s (record s {
        ring = copy_out s.ring tail max_bytes;
        consumer =
            let (n, out, sb') = pop_at s.ring s.ring.head tail max_bytes in
            Consumer.reading out sb'.head;
      })
  publish_head :
      (out : List ℕ) (head : ℕ)
      → s.consumer ≡ Consumer.reading out head
      → Step s (record s {
        ring = record (s.ring) { head = head };
        consumer = Consumer.resting;
        delivered = s.delivered ++ out;
      })

abbrev pub start : StreamBuf → System
start sb = record {
  ring = sb;
  producer = Producer.resting;
  consumer = Consumer.resting;
  accepted = [];
  delivered = [];
}

pub data Reach (sb : StreamBuf) : System → Type 0 where
  here : Reach sb (start sb)
  next : {s t : System} → Reach sb s → Step s t → Reach sb t
