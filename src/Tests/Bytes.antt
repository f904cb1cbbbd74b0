-- ===== src/Tests/Bytes.antt =====
-- The byte ring at concrete inputs: an empty ring of four bytes, written past its end.
use aiopquic.Base.{
  ℕ, ◌≡◌, refl, sym, ap, ◌∙◌, arith, true, false, List, [], ◌∷◌, ◌++◌, length, take, Option, none,
  some, replicate, length-replicate,
}
use aiopquic.Base.Circular.{window, write_wrapped, read_wrapped, memcpy}
use aiopquic.StreamBuf.{
  StreamBuf, push, pop, create, fnv1a_init, ceil_pow2_u32, push_at, pop_at, index, clz, bit_length,
  hash_gate,
}
use aiopquic.StreamBuf.Valid.{IsValid, contents}
use aiopquic.StreamBuf.Run.{Op, put, get, run, run_fifo}
use aiopquic.StreamBuf.Race.{
  Reach, System, Producer, Consumer, copy_in, start, here, next, load_head, copy, load_tail,
}
use aiopquic.StreamBuf.Race.Fifo.{Reach-fifo}

abbrev four : StreamBuf
four = record {
  buf = 0 ∷ 0 ∷ 0 ∷ 0 ∷ [];
  capacity = 4;
  mask = 3;
  tail = 2;
  head = 2;
  fin_pending = false;
  hash_enabled = true;
  push_hash = 5;
  pop_hash = 5;
}

four-IsValid : IsValid four
four-IsValid = record {
  pow2 = (2, omega arith, refl);
  masked = refl;
  storage = refl;
  order = omega arith;
  room = omega arith;
  word = omega arith;
}

four-contents : contents four ≡ []
unfolding window
four-contents = refl

abbrev three_bytes : List ℕ
three_bytes = 7 ∷ 8 ∷ 9 ∷ []

abbrev calls : List Op
calls = put three_bytes ∷ get 2 ∷ put three_bytes ∷ get 9 ∷ []

abbrev wrapped : StreamBuf
wrapped = record four { buf = 5 ∷ 6 ∷ 7 ∷ 8 ∷ []; head = 3; tail = 6 }

wrapped-IsValid : IsValid wrapped
wrapped-IsValid = record {
  pow2 = (2, omega arith, refl);
  masked = refl;
  storage = refl;
  order = omega arith;
  room = omega arith;
  word = omega arith;
}

run_fifo_example :
    let t = run four calls in
    (t.delivered ++ contents t.final ≡ contents four ++ t.accepted) × IsValid t.final
run_fifo_example = run_fifo calls four-IsValid (omega arith, (omega arith, tt)) (omega arith)

calls_drain : contents (run four calls).final ≡ []
unfolding run push push_at pop pop_at index window write_wrapped memcpy read_wrapped
calls_drain = refl

abbrev zeros : ℕ → Option (List ℕ)
zeros size = some (replicate size 0)

zeros-length : (size : ℕ) (bytes : List ℕ) → zeros size ≡ some bytes → length bytes ≡ size
zeros-length size bytes e =
    let same : replicate size 0 ≡ bytes = cc (e) in
    ap (λ (l : List ℕ). length l) (sym same) ∙ length-replicate size 0

abbrev new_ring : StreamBuf
new_ring = record {
  buf = 0 ∷ 0 ∷ 0 ∷ 0 ∷ [];
  capacity = 4;
  mask = 3;
  tail = 0;
  head = 0;
  fin_pending = false;
  hash_enabled = false;
  push_hash = fnv1a_init;
  pop_hash = fnv1a_init;
}

created : create true zeros none 3 ≡ some new_ring
unfolding create ceil_pow2_u32 clz bit_length hash_gate
created = refl

-- The producer loads, copies and publishes; the consumer loads its tail in between.
abbrev after_load : System
after_load = record (start four) { producer = Producer.loaded three_bytes 2 }

abbrev after_both : System
after_both = record after_load { consumer = Consumer.loaded 9 2 }

abbrev after_copy : System
after_copy = record after_both {
  ring = copy_in four 2 three_bytes;
  producer =
      let (n, sb') = push_at four 2 2 three_bytes in Producer.copied (take n three_bytes) sb'.tail;
}

after_copy-Reach : Reach four after_copy
after_copy-Reach =
    next
      (next (next here (load_head three_bytes refl (omega arith) (omega arith))) (load_tail 9 refl))
      (copy three_bytes 2 refl)

Reach-fifo_example :
    (after_copy.accepted ≡ after_copy.delivered ++ contents after_copy.ring)
    × IsValid after_copy.ring
Reach-fifo_example = Reach-fifo four-IsValid four-contents after_copy-Reach
