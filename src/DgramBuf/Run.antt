-- ===== src/DgramBuf/Run.antt =====
-- The record ring over any sequence of sends and receives.
use aiopquic.Base.{
  ℕ, ◌+◌, ◌^◌, ◌<◌, ◌≡◌, refl, ap, sym, ◌∙◌, arith, false, List, [], ◌∷◌, ◌++◌, append-nil,
  append_assoc, length, ◌==◌, if◌then◌else◌, Option, none, some,
}
use aiopquic.DgramBuf.{
  DgramBuf, push_record, peek_len, pop_into, PushResult, accepted, full, oversize,
}
use aiopquic.DgramBuf.Valid.{IsValid, Holds}
use aiopquic.DgramBuf.Push.{push_record_lem, then_records, tail-push_record-le}
use aiopquic.DgramBuf.Pop.{peek_pop, peek_empty, tail-pop_into}

-- What the producer and the worker ask of the ring.
pub data Op : Type 0 where
  send : List ℕ → Op
  receive : Op

-- The worker's step: nothing at length 0, else the head record.
unfoldable pub receive_one : DgramBuf → Option (List ℕ) × DgramBuf
receive_one db =
    let len = peek_len db in
    if len == 0 then (none, db) else (let (out, db') = pop_into db len in (some out, db'))

pub record Trace : Type 0 where
  pub taken : List (List ℕ)
  pub delivered : List (List ℕ)
  pub final : DgramBuf

abbrev pub option_list : Option (List ℕ) → List (List ℕ)
option_list none = []
option_list (some x) = x ∷ []

unfoldable pub run : DgramBuf → List Op → Trace
run db [] = record { taken = []; delivered = []; final = db }
run db (send r ∷ ops) =
    let (result, db') = push_record db r in
    let t = run db' ops in record t { taken = then_records result [] r ++ t.taken }
run db (receive ∷ ops) =
    let (out, db') = receive_one db in
    let t = run db' ops in record t { delivered = option_list out ++ t.delivered }

abbrev pub offered : List Op → ℕ
offered [] = 0
offered (send r ∷ ops) = 4 + length r + offered ops
offered (receive ∷ ops) = offered ops

abbrev pub NoneEmpty : List (List ℕ) → Type 0
NoneEmpty [] = Unit
NoneEmpty (r ∷ rs) = (0 < length r) × NoneEmpty rs

abbrev pub SendsNoneEmpty : List Op → Type 0
SendsNoneEmpty [] = Unit
SendsNoneEmpty (send r ∷ ops) = (0 < length r) × SendsNoneEmpty ops
SendsNoneEmpty (receive ∷ ops) = SendsNoneEmpty ops

then_records-append :
    (result : PushResult) (rs : List (List ℕ)) (r : List ℕ)
    → then_records result rs r ≡ rs ++ then_records result [] r
then_records-append accepted rs r = refl
then_records-append full rs r = sym (append-nil rs)
then_records-append oversize rs r = sym (append-nil rs)

NoneEmpty-then :
    (result : PushResult) (rs : List (List ℕ)) (r : List ℕ)
    → NoneEmpty rs
    → 0 < length r
    → NoneEmpty (then_records result rs r)
NoneEmpty-then accepted [] r h p = (p, tt)
NoneEmpty-then accepted (x ∷ rs) r h p = (h.0, NoneEmpty-then accepted rs r h.1 p)
NoneEmpty-then full rs r h p = h
NoneEmpty-then oversize rs r h p = h

receive_empty : {db : DgramBuf} → IsValid db → Holds db [] → receive_one db ≡ (none, db)
unfolding receive_one
receive_empty v held = rw (peek_empty v held)

receive_head :
    {db : DgramBuf} (r : List ℕ) (rs : List (List ℕ))
    → IsValid db
    → Holds db (r ∷ rs)
    → 0 < length r
    → let (out, db') = receive_one db in
      (out ≡ some r) × Holds db' rs × IsValid db' × (db'.tail ≡ db.tail)
unfolding receive_one
receive_head {db} r rs v held p =
    let (len, out, others, valid) = peek_pop r rs v held in
    let some_len : (peek_len db == 0) ≡ false = ground (arith, len) in
    rw some_len (ap some out, others, valid, tail-pop_into db (peek_len db))

-- From a valid ring that holds the records `rs`, none of them empty, any sequence of sends of
-- payloads that are not empty and of receives delivers records of `rs` and then those taken, whole
-- and in order: some records are left, which the ring holds, and with those delivered they make up
-- `rs` and those taken. The ring stays valid. All that is sent fits the 64-bit positions.
pub run_records :
    (ops : List Op) {db : DgramBuf} (rs : List (List ℕ))
    → IsValid db
    → Holds db rs
    → NoneEmpty rs
    → SendsNoneEmpty ops
    → db.tail + offered ops < 2 ^ 64
    → let t = run db ops in
      (left : List (List ℕ)) × (rs ++ t.taken ≡ t.delivered ++ left)
      × Holds t.final left
      × IsValid t.final
unfolding run
run_records [] rs v held full_ones sent word = (rs, append-nil rs, held, v)
run_records (send r ∷ ops) {db} rs v held full_ones sent word =
    let (result, db') = push_record db r in
    let p = push_record_lem rs r v held (omega (arith, word)) in
    let t = run db' ops in
    let (left, fifo, holds, valid) =
      run_records ops (then_records result rs r) p.2 p.1
        (NoneEmpty-then result rs r full_ones sent.0) sent.1
        (omega (arith, tail-push_record-le db r, word)) in
    (
      left,
      sym (append_assoc rs (then_records result [] r) t.taken)
          ∙ ap (λ l. l ++ t.taken) (sym (then_records-append result rs r))
          ∙ fifo,
      holds,
      valid,
    )
run_records (receive ∷ ops) [] v held full_ones sent word =
    rw (receive_empty v held) (run_records ops [] v held full_ones sent word)
run_records (receive ∷ ops) {db} (r ∷ rs) v held full_ones sent word =
    let (out, db') = receive_one db in
    let p = receive_head r rs v held full_ones.0 in
    let t = run db' ops in
    let (left, fifo, holds, valid) =
      run_records ops rs p.2 p.1 full_ones.1 sent (omega (arith, p.3, word)) in
    (
      left,
      ap (λ l. r ∷ l) fifo
          ∙ ap (λ o. option_list o ++ (t.delivered ++ left)) (sym p.0)
          ∙ sym (append_assoc (option_list out) t.delivered left),
      holds,
      valid,
    )
