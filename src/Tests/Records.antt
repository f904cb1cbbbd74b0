-- ===== src/Tests/Records.antt =====
-- The record ring at concrete inputs: sixteen bytes, records of at most four.
use aiopquic.Base.{
  u32, leb, ℕ, ◌≡◌, refl, sym, ap, ◌∙◌, arith, true, false, List, [], ◌∷◌, ◌++◌, length, Option,
  some, replicate, length-replicate,
}
use aiopquic.Base.Circular.{window}
use aiopquic.StreamBuf.{ceil_pow2_u32, clz, bit_length}
use aiopquic.Bridge.Datagrams.{prepare_datagram, provide_datagram}
use aiopquic.Bridge.Datagrams.Records.{IsServed, prepare_datagram_lem}
use aiopquic.DgramBuf.{DgramBuf, create, ring_capacity, header, push_record}
use aiopquic.DgramBuf.Valid.{IsValid, Holds}
use aiopquic.DgramBuf.Push.{push_record_lem, outcome, then_records, armed}
use aiopquic.DgramBuf.Run.{Op, send, receive, run, run_records}

abbrev pub sixteen : DgramBuf
sixteen = record {
  buf = replicate 16 0;
  capacity = 16;
  mask = 15;
  max_record = 4;
  tail = 0;
  head = 0;
  refcnt = 1;
  drain_pending = false;
  records_pushed = 0;
  push_full = 0;
  push_oversize = 0;
  records_popped = 0;
  bytes_popped = 0;
  head_deferred = 0;
}

sixteen-IsValid : IsValid sixteen
sixteen-IsValid = record {
  pow2 = (4, omega arith, refl);
  masked = refl;
  storage = refl;
  order = omega arith;
  room = omega arith;
  word = omega arith;
  fits = omega arith;
}

sixteen-empty : Holds sixteen []
unfolding window
sixteen-empty = refl

abbrev datagram : List ℕ
datagram = 1 ∷ 2 ∷ 3 ∷ []

-- One record, written across the end of the array.
abbrev holding : DgramBuf
holding = record sixteen {
  buf = 0 ∷ 1 ∷ 2 ∷ 3 ∷ 0 ∷ 0 ∷ 0 ∷ 0 ∷ 0 ∷ 0 ∷ 0 ∷ 0 ∷ 0 ∷ 3 ∷ 0 ∷ 0 ∷ [];
  head = 13;
  tail = 20;
}

holding-IsValid : IsValid holding
holding-IsValid = record {
  pow2 = (4, omega arith, refl);
  masked = refl;
  storage = refl;
  order = omega arith;
  room = omega arith;
  word = omega arith;
  fits = omega arith;
}

holding-Holds : Holds holding (datagram ∷ [])
unfolding window header
holding-Holds = refl

abbrev calls : List Op
calls = send datagram ∷ send datagram ∷ send datagram ∷ receive ∷ []

push_record_lem_example :
    let (result, db') = push_record holding datagram in
    (result ≡ outcome holding 3)
    × Holds db' (then_records result (datagram ∷ []) datagram)
    × IsValid db'
    × (db'.drain_pending ≡ armed result false)
push_record_lem_example =
    push_record_lem (datagram ∷ []) datagram holding-IsValid holding-Holds (omega arith)

run_records_example :
    let t = run holding calls in
    (left : List (List ℕ)) × ((datagram ∷ []) ++ t.taken ≡ t.delivered ++ left)
    × Holds t.final left
    × IsValid t.final
run_records_example =
    run_records calls (datagram ∷ []) holding-IsValid holding-Holds (omega arith, tt)
      (omega arith, (omega arith, (omega arith, tt))) (omega arith)

abbrev zeros : ℕ → Option (List ℕ)
zeros size = some (replicate size 0)

zeros-length : (size : ℕ) (bytes : List ℕ) → zeros size ≡ some bytes → length bytes ≡ size
zeros-length size bytes e =
    let same : replicate size 0 ≡ bytes = cc (e) in
    ap (λ (l : List ℕ). length l) (sym same) ∙ length-replicate size 0

created : create true zeros 10 4 7 ≡ some (sixteen, 8)
unfolding create ring_capacity ceil_pow2_u32 clz bit_length
created = refl

abbrev shared : DgramBuf
shared = record sixteen { refcnt = 3 }

prepare_datagram_lem_example :
    IsServed holding datagram []
      (leb (length datagram) (u32 1200))
      (prepare_datagram true true 1200 holding)
    × (provide_datagram true true 1200 holding ≡ prepare_datagram true true 1200 holding)
prepare_datagram_lem_example =
    prepare_datagram_lem true 1200 datagram [] holding-IsValid holding-Holds (omega arith)
