-- ===== src/StreamCtx/Send.antt =====
-- `aiopquic_stream_ctx_send_data`: its outcomes, the bytes, the FIN and the drain signal.
use aiopquic.Base.{
  ℕ, ◌+◌, ◌-◌, ◌^◌, ◌≤◌, ◌<◌, ◌≡◌, refl, ap, sym, ◌∙◌, arith, Bool, true, false, ◌||◌, Bool-cases,
  inl, inr, Option, some, List, [], ◌∷◌, ◌++◌, append-nil, length, take_all, u32, sub32, sub64, ltb,
  ◌==◌, if◌then◌else◌,
}
use aiopquic.Base.Pow2.{IsPow2-bounds}
use aiopquic.StreamBuf as Buf
use aiopquic.StreamBuf.{StreamBuf}
use aiopquic.StreamBuf.Valid.{IsValid, contents, length-contents}
use aiopquic.StreamBuf.Push.{push_lem}
use aiopquic.StreamCtx.{
  StreamCtx, SendResult, sent, retry, failed, never_fits, with_fin, push_all, send_on, send_data,
  ensure, set_tx_data_drain_pending,
}

-- What a send of `len` bytes comes to.
abbrev pub verdict : StreamBuf → ℕ → SendResult
verdict sb len =
    if ltb sb.capacity len
    then never_fits
    else if ltb (sb.capacity - length (contents sb)) len
    then retry
    else sent

abbrev pub then_bytes : SendResult → List ℕ → List ℕ → List ℕ
then_bytes sent held bytes = held ++ bytes
then_bytes retry held bytes = held
then_bytes failed held bytes = held
then_bytes never_fits held bytes = held

abbrev pub then_fin : SendResult → Bool → Bool → Bool
then_fin sent before fin = fin || before
then_fin retry before fin = before
then_fin failed before fin = before
then_fin never_fits before fin = before

-- A send that waits leaves the drain signal armed.
abbrev pub then_armed : SendResult → Bool → Bool
then_armed retry before = true
then_armed sent before = before
then_armed failed before = before
then_armed never_fits before = before

pub fin_pending-push :
    (sb : StreamBuf) (bytes : List ℕ) → (Buf.push sb bytes).1.fin_pending ≡ sb.fin_pending
unfolding Buf.push Buf.push_at
fin_pending-push sb bytes = ground arith

pub with_fin-IsValid : (fin : Bool) {sb : StreamBuf} → IsValid sb → IsValid (with_fin fin sb)
unfolding Buf.set_fin
with_fin-IsValid true v = record {
  pow2 = v.pow2;
  masked = v.masked;
  storage = v.storage;
  order = v.order;
  room = v.room;
  word = v.word;
}
with_fin-IsValid false v = v

pub contents-with_fin : (fin : Bool) (sb : StreamBuf) → contents (with_fin fin sb) ≡ contents sb
unfolding Buf.set_fin
contents-with_fin true sb = refl
contents-with_fin false sb = refl

pub fin_pending-with_fin :
    (fin : Bool) (sb : StreamBuf) → (with_fin fin sb).fin_pending ≡ (fin || sb.fin_pending)
unfolding Buf.set_fin
fin_pending-with_fin true sb = refl
fin_pending-with_fin false sb = refl

module _ (fin : Bool) (sc : StreamCtx) (sb : StreamBuf) (bytes : List ℕ) where
  -- What a send leaves, for each result.
  abbrev Left : SendResult → StreamCtx → Type 0
  Left result sc' =
      (sb' : StreamBuf) × (result ≡ verdict sb (length bytes))
      × (sc'.tx ≡ some sb')
      × (contents sb' ≡ then_bytes result (contents sb) bytes)
      × (sb'.fin_pending ≡ then_fin result sb.fin_pending fin)
      × (sc'.tx_drain_pending ≡ then_armed result sc.tx_drain_pending)
      × IsValid sb'

push_all-eq :
    (fin : Bool) (sc : StreamCtx) {sb : StreamBuf} (bytes : List ℕ)
    → IsValid sb
    → length bytes < 2 ^ 32
    → sb.tail + length bytes < 2 ^ 64
    → length bytes ≤ sb.capacity - length (contents sb)
    → push_all sc sb bytes fin
      ≡ (sent, record sc { tx = some (with_fin fin (Buf.push sb bytes).1) })
unfolding push_all
push_all-eq fin sc {sb} bytes v short word room =
    let whole : ((Buf.push sb bytes).0 == length bytes) ≡ true =
      ground (arith, (push_lem bytes v short word).0, room) in
    rw whole

all-Left :
    (fin : Bool) (sc : StreamCtx) (sb : StreamBuf) (bytes : List ℕ)
    → IsValid sb
    → length bytes < 2 ^ 32
    → sb.tail + length bytes < 2 ^ 64
    → length bytes ≤ sb.capacity - length (contents sb)
    → sent ≡ verdict sb (length bytes)
    → Left fin sc sb bytes sent (record sc { tx = some (with_fin fin (Buf.push sb bytes).1) })
all-Left fin sc sb bytes v short word room result =
    let (n, pushed) = Buf.push sb bytes in
    let (count, stored, moved, valid) = push_lem bytes v short word in
    (
      with_fin fin pushed,
      result,
      refl,
      contents-with_fin fin pushed
          ∙ stored
          ∙ ap (λ l. contents sb ++ l) (take_all n bytes (omega (arith, count, room))),
      fin_pending-with_fin fin pushed ∙ ap (λ f. fin || f) (fin_pending-push sb bytes),
      refl,
      with_fin-IsValid fin valid,
    )

room_eq :
    {sb : StreamBuf}
    → IsValid sb
    → sub32 sb.capacity (u32 (sub64 sb.tail sb.head)) ≡ sb.capacity - length (contents sb)
room_eq {sb} v = omega (arith, v.order, v.room, v.word, IsPow2-bounds v.pow2, length-contents sb)

send_on_lem :
    (now : ℕ) (fin : Bool) (sc : StreamCtx) {sb : StreamBuf} (bytes : List ℕ)
    → sc.tx ≡ some sb
    → IsValid sb
    → length bytes < 2 ^ 32
    → sb.tail + length bytes < 2 ^ 64
    → let (result, sc') = send_on now sc sb sb.head sb.head bytes fin in
      Left fin sc sb bytes result sc'
unfolding send_on set_tx_data_drain_pending
send_on_lem now fin sc {sb} [] there v short word =
    let fits : ltb sb.capacity 0 ≡ false = ground arith in
    let free : ltb (sb.capacity - length (contents sb)) 0 ≡ false = ground arith in
    rw (fits, free)
      (
        with_fin fin sb,
        refl,
        refl,
        contents-with_fin fin sb ∙ sym (append-nil (contents sb)),
        fin_pending-with_fin fin sb,
        refl,
        with_fin-IsValid fin v,
      )
send_on_lem now fin sc {sb} (b ∷ bs) there v short word =
    let some_bytes : (length (b ∷ bs) == 0) ≡ false = ground arith in
    elim (Bool-cases (ltb sb.capacity (length (b ∷ bs)))) [
      | inl over ↦ rw over (sb, refl, there, refl, refl, refl, v)
      | inr fits ↦ elim (Bool-cases (ltb (sb.capacity - length (contents sb)) (length (b ∷ bs)))) [
        | inl full ↦ rw (fits, some_bytes, room_eq v, full) (sb, refl, there, refl, refl, refl, v)
        | inr room ↦
            let (sb', result, ring, held, pending, armed, valid) =
              all-Left fin sc sb (b ∷ bs) v short word (ground (arith, room)) (rw (fits, room)) in
            rw
              (
                fits,
                some_bytes,
                room_eq v,
                room,
                push_all-eq fin sc (b ∷ bs) v short word (ground (arith, room)),
              )
              (sb', refl, ring, held, pending, armed, valid)
      ]
    ]

-- On a context with a valid send ring, a send of less than 2^32 bytes, before 2^64 bytes: it is
-- refused for good exactly if the bytes are more than the ring's capacity, asked to be tried again
-- exactly if they are more than what is free, and made otherwise. Either all the bytes stand behind
-- those that the ring held, and the FIN is set if it was asked for, or the ring holds what it held and
-- no FIN is set. Just a send to be tried again arms the drain signal. The ring stays valid.
pub send_data_lem :
    (make : ℕ → Option StreamBuf) (now capacity : ℕ) (fin : Bool) (sc : StreamCtx) {sb : StreamBuf}
    (bytes : List ℕ)
    → sc.tx ≡ some sb
    → IsValid sb
    → length bytes < 2 ^ 32
    → sb.tail + length bytes < 2 ^ 64
    → let (result, sc') = send_data make now sc bytes capacity fin in
      (sb' : StreamBuf) × (result ≡ verdict sb (length bytes))
      × (sc'.tx ≡ some sb')
      × (contents sb' ≡ then_bytes result (contents sb) bytes)
      × (sb'.fin_pending ≡ then_fin result sb.fin_pending fin)
      × (sc'.tx_drain_pending ≡ then_armed result sc.tx_drain_pending)
      × IsValid sb'
unfolding send_data ensure
send_data_lem make now capacity fin sc {sb} bytes there v short word =
    rw there (send_on_lem now fin (record sc { tx = some sb }) bytes refl v short word)
