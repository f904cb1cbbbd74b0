-- ===== src/StreamBuf/Race/Fifo.antt =====
-- The ring between two threads stays valid and first-in first-out under every interleaving.
use native.Mathlib.Nat.{le_refl}
use aiopquic.Base.{
  ℕ, ◌+◌, ◌-◌, ◌≤◌, ◌≡◌, sym, ap, ap₂, subst, ◌∙◌, arith, List, [], ◌++◌, append_assoc, length,
  take,
}
use aiopquic.Base.Circular.{window, window-add, length-window}
use aiopquic.StreamBuf.{StreamBuf, push_at, pop_at}
use aiopquic.StreamBuf.Valid.{IsValid, contents}
use aiopquic.StreamBuf.Push.{append, accepts, push_at-eq-append, length_taken}
use aiopquic.StreamBuf.Pop.{oldest, consume, takes, pop_at-eq-consume}
use aiopquic.StreamBuf.Race.{
  Producer, Consumer, System, copy_in, copy_out, Step, Reach, load_head, copy, publish_tail,
  load_tail, read, publish_head, here, next,
}
use aiopquic.StreamBuf.Race.Knows.{
  ProducerOk, ConsumerOk, Inv, written-IsValid, written-ConsumerOk, contents-written,
  written-ProducerOk, ProducerOk-head, ProducerOk-hash, ConsumerOk-tail,
}

copy-Inv :
    {s : System} (bytes : List ℕ) (head : ℕ)
    → ProducerOk s.ring (Producer.loaded bytes head)
    → Inv s
    → Inv (record s {
      ring = copy_in s.ring head bytes;
      producer =
          let (n, sb') = push_at s.ring s.ring.tail head bytes in
          Producer.copied (take n bytes) sb'.tail;
    })
copy-Inv {s} bytes head (stale, known, short, word) inv =
    rw (push_at-eq-append inv.valid head bytes stale known short word) (record {
      valid = written-IsValid inv.valid xs fits hash;
      producer_ok = written-ProducerOk inv.valid xs fits hash (omega (arith, taken));
      consumer_ok = written-ConsumerOk inv.valid xs fits hash s.consumer inv.consumer_ok;
      fifo = inv.fifo ∙ ap (λ c. s.delivered ++ c) (sym (contents-written inv.valid xs fits hash));
    })
  where
    xs : List ℕ
    xs = take (accepts s.ring head bytes) bytes

    hash : ℕ
    hash = (append s.ring xs).push_hash

    taken : length xs ≡ accepts s.ring head bytes
    taken = length_taken inv.valid head bytes stale known short word

    fits : s.ring.tail + length xs ≤ s.ring.head + s.ring.capacity
    fits = omega (arith, taken, inv.valid.order)

contents-publish :
    (sb : StreamBuf) (xs : List ℕ) (tail : ℕ)
    → sb.head ≤ sb.tail
    → tail ≡ sb.tail + length xs
    → window 0 sb.capacity sb.buf sb.tail (length xs) ≡ xs
    → contents (record sb { tail = tail }) ≡ contents sb ++ xs
contents-publish sb xs tail order e same =
    ap (window 0 sb.capacity sb.buf sb.head) n
    ∙ window-add 0 sb.capacity sb.buf sb.head (sb.tail - sb.head) (length xs)
    ∙ ap (λ p. contents sb ++ window 0 sb.capacity sb.buf p (length xs)) (omega arith)
    ∙ ap (λ l. contents sb ++ l) same
  where
    n : tail - sb.head ≡ sb.tail - sb.head + length xs
    n = omega arith

contents-release :
    (sb : StreamBuf) (out : List ℕ) (head : ℕ)
    → head ≡ sb.head + length out
    → head ≤ sb.tail
    → window 0 sb.capacity sb.buf sb.head (length out) ≡ out
    → contents sb ≡ out ++ contents (record sb { head = head })
contents-release sb out head e h same =
    ap (window 0 sb.capacity sb.buf sb.head) n
    ∙ window-add 0 sb.capacity sb.buf sb.head (length out) (sb.tail - head)
    ∙ ap₂ (λ l p. l ++ window 0 sb.capacity sb.buf p (sb.tail - head)) same (sym e)
  where
    n : sb.tail - sb.head ≡ length out + (sb.tail - head)
    n = omega arith

publish_tail-Inv :
    {s : System} (xs : List ℕ) (tail : ℕ)
    → ProducerOk s.ring (Producer.copied xs tail)
    → Inv s
    → Inv (record s {
      ring = record (s.ring) { tail = tail };
      producer = Producer.resting;
      accepted = s.accepted ++ xs;
    })
publish_tail-Inv {s} xs tail (e, fits, word, same) inv = record {
  valid = record {
    pow2 = inv.valid.pow2;
    masked = inv.valid.masked;
    storage = inv.valid.storage;
    order = omega (arith, inv.valid.order);
    room = fits;
    word = word;
  };
  producer_ok = tt;
  consumer_ok = ConsumerOk-tail s.ring tail s.consumer (omega arith) inv.consumer_ok;
  fifo =
      ap (λ a. a ++ xs) inv.fifo
      ∙ append_assoc s.delivered (contents s.ring) xs
      ∙ ap (λ c. s.delivered ++ c) (sym (contents-publish s.ring xs tail inv.valid.order e same));
}

read-Inv :
    {s : System} (max_bytes tail : ℕ)
    → ConsumerOk s.ring (Consumer.loaded max_bytes tail)
    → Inv s
    → Inv (record s {
      ring = copy_out s.ring tail max_bytes;
      consumer =
          let (n, out, sb') = pop_at s.ring s.ring.head tail max_bytes in
          Consumer.reading out sb'.head;
    })
read-Inv {s} max_bytes tail (known, stale) inv =
    rw (pop_at-eq-consume inv.valid tail max_bytes known stale) (record {
      valid = record {
        pow2 = inv.valid.pow2;
        masked = inv.valid.masked;
        storage = inv.valid.storage;
        order = inv.valid.order;
        room = inv.valid.room;
        word = inv.valid.word;
      };
      producer_ok = ProducerOk-hash s.ring hash s.producer inv.producer_ok;
      consumer_ok = (
        omega (arith, n_out),
        omega arith,
        ap (window 0 s.ring.capacity s.ring.buf s.ring.head) n_out,
      );
      fifo = inv.fifo;
    })
  where
    hash : ℕ
    hash = (consume s.ring (takes s.ring tail max_bytes)).pop_hash

    n_out : length (oldest s.ring (takes s.ring tail max_bytes)) ≡ takes s.ring tail max_bytes
    n_out = length-window 0 s.ring.capacity s.ring.buf s.ring.head (takes s.ring tail max_bytes)

publish_head-Inv :
    {s : System} (out : List ℕ) (head : ℕ)
    → ConsumerOk s.ring (Consumer.reading out head)
    → Inv s
    → Inv (record s {
      ring = record (s.ring) { head = head };
      consumer = Consumer.resting;
      delivered = s.delivered ++ out;
    })
publish_head-Inv {s} out head (e, h, same) inv = record {
  valid = record {
    pow2 = inv.valid.pow2;
    masked = inv.valid.masked;
    storage = inv.valid.storage;
    order = h;
    room = omega (arith, inv.valid.room);
    word = inv.valid.word;
  };
  producer_ok = ProducerOk-head s.ring head s.producer (omega arith) inv.producer_ok;
  consumer_ok = tt;
  fifo =
      inv.fifo
      ∙ ap (λ c. s.delivered ++ c) (contents-release s.ring out head e h same)
      ∙ sym (append_assoc s.delivered out (contents (record (s.ring) { head = head })));
}

Step-Inv : {s t : System} → Step s t → Inv s → Inv t
Step-Inv {s} (load_head bytes e short word) inv = record {
  valid = inv.valid;
  producer_ok = (le_refl s.ring.head, inv.valid.room, short, word);
  consumer_ok = inv.consumer_ok;
  fifo = inv.fifo;
}
Step-Inv {s} (copy bytes head e) inv =
    copy-Inv bytes head (subst (ProducerOk s.ring) e inv.producer_ok) inv
Step-Inv {s} (publish_tail written tail e) inv =
    publish_tail-Inv written tail (subst (ProducerOk s.ring) e inv.producer_ok) inv
Step-Inv {s} (load_tail max_bytes e) inv = record {
  valid = inv.valid;
  producer_ok = inv.producer_ok;
  consumer_ok = (inv.valid.order, le_refl s.ring.tail);
  fifo = inv.fifo;
}
Step-Inv {s} (read max_bytes tail e) inv =
    read-Inv max_bytes tail (subst (ConsumerOk s.ring) e inv.consumer_ok) inv
Step-Inv {s} (publish_head out head e) inv =
    publish_head-Inv out head (subst (ConsumerOk s.ring) e inv.consumer_ok) inv

Reach-Inv : {sb : StreamBuf} {s : System} → IsValid sb → contents sb ≡ [] → Reach sb s → Inv s
Reach-Inv v empty here = record { valid = v; producer_ok = tt; consumer_ok = tt; fifo = sym empty }
Reach-Inv v empty (next r st) = Step-Inv st (Reach-Inv v empty r)

-- Two threads on a valid empty ring: however their loads, copies and stores interleave, the bytes
-- published as accepted are always the bytes delivered followed by those in the ring, in order, and
-- the ring stays valid. Each push is of less than 2^32 bytes and ends below position 2^64.
pub Reach-fifo :
    {sb : StreamBuf} {s : System}
    → IsValid sb
    → contents sb ≡ []
    → Reach sb s
    → (s.accepted ≡ s.delivered ++ contents s.ring) × IsValid s.ring
Reach-fifo v empty r = let inv = Reach-Inv v empty r in (inv.fifo, inv.valid)
