-- ===== src/Bridge/Pull/Bytes.antt =====
-- The bytes of a pull: in order, none lost, as many as the stack is told, and none beyond a reset.
use aiopquic.Base.{
  ℕ, ◌+◌, ◌^◌, ◌≤◌, ◌<◌, ◌≡◌, refl, sym, ap, ◌∙◌, arith, Bool, true, false, ◌&&◌, ◌||◌, Bool-cases,
  inl, inr, some, List, [], ◌∷◌, ◌++◌, append-nil, append_assoc, length, take, drop,
  take-append-drop, length-take, length-append, u32, ltb, ◌==◌,
}
use aiopquic.Base.Pow2.{IsPow2-bounds}
use aiopquic.StreamBuf as Buf
use aiopquic.StreamBuf.{StreamBuf}
use aiopquic.StreamBuf.Valid.{IsValid, contents, length-contents}
use aiopquic.StreamBuf.Push.{push_lem}
use aiopquic.StreamBuf.Pop.{pop_lem}
use aiopquic.StreamCtx.{StreamCtx, Counters, tx_sendable, tx_drain_take}
use aiopquic.StreamCtx.Life.{used-eq}
use aiopquic.StreamCtx.Send.{with_fin-IsValid, contents-with_fin}
use aiopquic.Bridge.Pull.{
  Write, write, finish, written, offer, copy_out, fire_drain, Meanwhile, pull,
}

-- The bytes that the ring takes of a sequence of writes.
abbrev pub added : List Write → StreamBuf → List ℕ
added [] sb = []
added (write bytes ∷ ws) sb = take (Buf.push sb bytes).0 bytes ++ added ws (Buf.push sb bytes).1
added (finish ∷ ws) sb = added ws (Buf.set_fin sb)

abbrev pub offered : List Write → ℕ
offered [] = 0
offered (write bytes ∷ ws) = length bytes + offered ws
offered (finish ∷ ws) = offered ws

abbrev pub Short : List Write → Type 0
Short [] = Unit
Short (write bytes ∷ ws) = (length bytes < 2 ^ 32) × Short ws
Short (finish ∷ ws) = Short ws

head-push : (sb : StreamBuf) (bytes : List ℕ) → (Buf.push sb bytes).1.head ≡ sb.head
unfolding Buf.push Buf.push_at
head-push sb bytes = ground arith

pub written_lem :
    (ws : List Write) {sb : StreamBuf}
    → IsValid sb
    → Short ws
    → sb.tail + offered ws < 2 ^ 64
    → (contents (written ws sb) ≡ contents sb ++ added ws sb)
      × ((written ws sb).head ≡ sb.head)
      × ((written ws sb).tail ≤ sb.tail + offered ws)
      × IsValid (written ws sb)
written_lem [] v s w = (sym (append-nil _), refl, omega arith, v)
written_lem (write bytes ∷ ws) {sb} v s w =
    let (n, sb') = Buf.push sb bytes in
    let p = push_lem bytes v s.0 (omega (arith, w)) in
    let (held, head, tail, valid) = written_lem ws p.3 s.1 (omega (arith, p.0, p.2, w)) in
    (
      held
          ∙ ap (λ c. c ++ added ws sb') p.1
          ∙ append_assoc (contents sb) (take n bytes) (added ws sb'),
      head ∙ head-push sb bytes,
      omega (arith, tail, p.0, p.2),
      valid,
    )
written_lem (finish ∷ ws) {sb} v s w =
    let (held, head, tail, valid) =
      written_lem ws (with_fin-IsValid true v) s (set_fin_tail sb w) in
    (
      held ∙ ap (λ c. c ++ added ws (Buf.set_fin sb)) (contents-with_fin true sb),
      head ∙ set_fin_head sb,
      set_fin_bound sb (written ws (Buf.set_fin sb)).tail tail,
      valid,
    )
  where
    set_fin_tail :
        (b : StreamBuf) → b.tail + offered ws < 2 ^ 64 → (Buf.set_fin b).tail + offered ws < 2 ^ 64
    set_fin_tail b h = unfold Buf.set_fin in h

    set_fin_head : (b : StreamBuf) → (Buf.set_fin b).head ≡ b.head
    set_fin_head b = unfold Buf.set_fin in refl

    set_fin_bound :
        (b : StreamBuf) (t : ℕ) → t ≤ (Buf.set_fin b).tail + offered ws → t ≤ b.tail + offered ws
    set_fin_bound b t h = unfold Buf.set_fin in h

copy_out_lem :
    (given : Bool) (to_send : ℕ) {sb : StreamBuf} (c : Counters)
    → IsValid sb
    → to_send ≤ length (contents sb)
    → let (bytes, sb', c') = copy_out given to_send sb c in
      (bytes ++ contents sb' ≡ contents sb)
      × ((given || (to_send == 0)) ≡ true → length bytes ≡ to_send)
      × (length bytes ≤ to_send)
      × (sb'.head ≡ sb.head + length bytes)
      × IsValid sb'
unfolding copy_out
copy_out_lem given to_send {sb} c v room = elim (Bool-cases (given && ltb 0 to_send)) [
  | inl copied ↦
      let (n, out, sb') = Buf.pop sb to_send in
      let (count, front, rest, tail, valid) = pop_lem to_send v in
      let all : n ≡ to_send = omega (arith, count, room) in
      let long : length out ≡ to_send =
        omega (arith, ap length front, length-take n (contents sb), all, room) in
      rw copied (
        whole n out (contents sb') (contents sb) front rest,
        λ ok. long,
        omega (arith, long),
        moved out sb' (whole n out (contents sb') (contents sb) front rest) tail valid,
        valid,
      )
  | inr idle ↦ rw idle (refl, λ ok. ground (arith, idle, ok), omega arith, omega arith, v)
]
  where
    whole :
        (n : ℕ) (out rest all : List ℕ) → out ≡ take n all → rest ≡ drop n all → out ++ rest ≡ all
    whole n out rest all e f = rw (e, f) (take-append-drop n all)

    moved :
        (out : List ℕ) (sb' : StreamBuf)
        → out ++ contents sb' ≡ contents sb
        → sb'.tail ≡ sb.tail
        → IsValid sb'
        → sb'.head ≡ sb.head + length out
    moved out sb' e tail valid = omega (
      arith,
      ap length e,
      length-append out (contents sb'),
      length-contents sb,
      length-contents sb',
      tail,
      valid.order,
      v.order,
    )

pub offer-bounds :
    (sc : StreamCtx) {sb : StreamBuf} (fin_after : Bool) (want : ℕ)
    → IsValid sb
    → let told = offer sc sb fin_after want in
      (told.to_send ≤ length (contents sb)) × (told.to_send ≤ want)
unfolding offer tx_sendable
offer-bounds sc {sb} fin_after want v =
    let e = used-eq v in
    let small : length (contents sb) < 2 ^ 32 =
      omega (arith, length-contents sb, v.room, IsPow2-bounds v.pow2) in
    rw e (ground (arith, small), ground (arith, small))

fire_drain_lem :
    (queued : Bool) (now : ℕ) (sc : StreamCtx)
    → let (fired, sc') = fire_drain queued now sc in
      (sc'.tx ≡ sc.tx) × ((fired || sc'.tx_drain_pending) ≡ sc.tx_drain_pending)
unfolding fire_drain tx_drain_take
fire_drain_lem queued now sc = elim (Bool-cases sc.tx_drain_pending) [
  | inl armed ↦ by_queued queued armed
  | inr idle ↦ rw idle (refl, refl)
]
  where
    by_queued :
        (ok : Bool) (armed : sc.tx_drain_pending ≡ true)
        → let (fired, sc') = fire_drain ok now sc in
          (sc'.tx ≡ sc.tx) × ((fired || sc'.tx_drain_pending) ≡ sc.tx_drain_pending)
    by_queued true armed = unfold fire_drain tx_drain_take in rw armed (refl, refl)
    by_queued false armed = unfold fire_drain tx_drain_take in rw armed (refl, refl)

-- What the sender writes in all while the stack pulls.
abbrev pub writes : Meanwhile → StreamBuf → List ℕ
writes m sb = added m.before_tail sb ++ added m.before_copy (written m.before_tail sb)

abbrev pub all_offered : Meanwhile → ℕ
all_offered m = offered m.before_tail + offered m.before_copy

-- The ring that a pull leaves.
abbrev pub left : Meanwhile → ℕ → StreamCtx → StreamBuf → Counters → StreamBuf
left m want sc sb c =
    let seen = written m.before_tail sb in
    (copy_out m.given (offer sc seen sb.fin_pending (u32 want)).to_send (written m.before_copy seen)
      c).1

module _ (m : Meanwhile) (want : ℕ) (sc : StreamCtx) {sb : StreamBuf} (c : Counters)
    (v : IsValid sb) (short : Short m.before_tail) (short_too : Short m.before_copy)
    (word : sb.tail + all_offered m < 2 ^ 64) where
  -- A pull on a valid ring, the sender writing less than 2^32 bytes at a time, before 2^64 bytes: the bytes
  -- pulled and those left are what the ring held and what it took meanwhile, in order. They are as many
  -- as the stack is told, where it gives a buffer or asks for none, never more, and no more than it asks
  -- for; the ring moves on by their number and stays valid. An armed drain signal fires or stays armed.
  pub pull_lem :
      let p = pull m want sc sb c in
      let sb' = left m want sc sb c in
      (p.sc.tx ≡ some sb')
      × (p.bytes ++ contents sb' ≡ contents sb ++ writes m sb)
      × ((m.given || (p.told.to_send == 0)) ≡ true → length p.bytes ≡ p.told.to_send)
      × (length p.bytes ≤ p.told.to_send)
      × (p.told.to_send ≤ u32 want)
      × (sb'.head ≡ sb.head + length p.bytes)
      × ((p.fired || p.sc.tx_drain_pending) ≡ sc.tx_drain_pending)
      × IsValid sb'
  unfolding pull
  pull_lem =
      let seen = written m.before_tail sb in
      let told = offer sc seen sb.fin_pending (u32 want) in
      let (held, head, tail, valid) = written_lem m.before_tail v short (omega (arith, word)) in
      let (held_too, head_too, tail_too, valid_too) =
        written_lem m.before_copy valid short_too (omega (arith, word, tail)) in
      let (there, wanted) = offer-bounds sc sb.fin_pending (u32 want) valid in
      let (bytes, sb', c') = copy_out m.given told.to_send (written m.before_copy seen) c in
      let (front, exact, bound, moved, valid') = copy_out_lem m.given told.to_send c valid_too (
        omega (
          arith,
          there,
          ap length held_too,
          length-append (contents seen) (added m.before_copy seen),
        )) in
      let (kept, signal) = fire_drain_lem m.queued m.now (record sc { tx = some sb' }) in
      (
        kept,
        front
            ∙ held_too
            ∙ ap (λ b. b ++ added m.before_copy seen) held
            ∙ append_assoc (contents sb) (added m.before_tail sb) (added m.before_copy seen),
        exact,
        bound,
        wanted,
        omega (arith, moved, head_too, head),
        signal,
        valid',
      )
