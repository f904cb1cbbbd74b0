-- ===== src/Bridge/Pull/Fin.antt =====
-- The end of a pulled stream, and whether the stack asks again.
use aiopquic.Base.{
  ℕ, ◌+◌, ◌^◌, ◌≤◌, ◌<◌, ◌≡◌, refl, sym, ap, ◌∙◌, arith, Bool, true, false, not, ◌&&◌, ◌||◌, List,
  [], ◌∷◌, ◌++◌, append-nil, append_assoc, length, length-append, split_front, drop-append, u32,
  ◌==◌,
}
use aiopquic.Base.Pow2.{IsPow2-bounds}
use aiopquic.StreamBuf as Buf
use aiopquic.StreamBuf.{StreamBuf}
use aiopquic.StreamBuf.Valid.{IsValid, contents, length-contents}
use aiopquic.StreamCtx.{StreamCtx, Counters, tx_sendable}
use aiopquic.StreamCtx.Life.{used-eq, tx_sendable_lem}
use aiopquic.Bridge.Pull.{Write, write, finish, written, offer, Meanwhile, pull}
use aiopquic.Bridge.Pull.Bytes.{
  added, Short, written_lem, writes, all_offered, left, offer-bounds, pull_lem,
}

-- The sender writes nothing after its FIN.
abbrev pub nothing_after : Bool → List Write → Bool
nothing_after fin [] = true
nothing_after fin (write bytes ∷ ws) = not fin && nothing_after fin ws
nothing_after fin (finish ∷ ws) = nothing_after true ws

added-nothing : (ws : List Write) (sb : StreamBuf) → nothing_after true ws ≡ true → added ws sb ≡ []
added-nothing [] sb e = refl
added-nothing (write bytes ∷ ws) sb e = cc (e)
added-nothing (finish ∷ ws) sb e = added-nothing ws (Buf.set_fin sb) e

both_parts :
    (fin : Bool) (ws more : List Write)
    → fin ≡ true
    → nothing_after fin (ws ++ more) ≡ true
    → (nothing_after true ws ≡ true) × (nothing_after true more ≡ true)
both_parts fin [] more f e = (refl, ap (λ b. nothing_after b more) (sym f) ∙ e)
both_parts fin (write bytes ∷ ws) more f e = ground (arith, f, e)
both_parts fin (finish ∷ ws) more f e = both_parts true ws more refl e

no_bytes : (xs : List ℕ) → length xs ≡ 0 → xs ≡ []
no_bytes [] e = refl
no_bytes (x ∷ xs) e = ground (arith, e)

offer-fin :
    (sc : StreamCtx) (sb : StreamBuf) (fin_after : Bool) (want : ℕ)
    → (offer sc sb fin_after want).is_fin ≡ true
    → (fin_after ≡ true)
      × (sc.tx_reset_pending ≡ false)
      × ((offer sc sb fin_after want).to_send ≡ Buf.used sb)
unfolding offer
offer-fin sc sb fin_after want e = (ground (arith, e), ground (arith, e), ground (arith, e))

offer-last :
    (sc : StreamCtx) (sb : StreamBuf) (want : ℕ)
    → sc.tx_reset_pending ≡ false
    → Buf.used sb ≤ want
    → (offer sc sb true want).is_fin ≡ true
unfolding offer tx_sendable
offer-last sc sb want e room = rw e (ground (arith, room))

offer-idle :
    (sc : StreamCtx) (sb : StreamBuf) (fin_after : Bool) (want : ℕ)
    → sc.tx_reset_pending ≡ false
    → (offer sc sb fin_after want).is_still_active ≡ false
    → Buf.used sb ≤ (offer sc sb fin_after want).to_send
unfolding offer tx_sendable
offer-idle sc sb fin_after want e idle = ground (arith, e, idle)

offer-le :
    (sc : StreamCtx) (sb : StreamBuf) (fin_after : Bool) (want : ℕ)
    → (offer sc sb fin_after want).to_send ≤ tx_sendable sc sb (Buf.used sb)
unfolding offer
offer-le sc sb fin_after want = ground arith

offer-no_fin :
    (sc : StreamCtx) (sb : StreamBuf) (fin_after : Bool) (want : ℕ)
    → sc.tx_reset_pending ≡ true
    → (offer sc sb fin_after want).is_fin ≡ false
unfolding offer
offer-no_fin sc sb fin_after want e = ground (arith, e)

module _ (m : Meanwhile) (want : ℕ) (sc : StreamCtx) {sb : StreamBuf} (c : Counters)
    (v : IsValid sb) (short : Short m.before_tail) (short_too : Short m.before_copy)
    (word : sb.tail + all_offered m < 2 ^ 64) where
  -- The writer's contract: after its FIN it writes nothing.
  module _ (contract : nothing_after sb.fin_pending (m.before_tail ++ m.before_copy) ≡ true) where
    quiet : sb.fin_pending ≡ true → (added m.before_tail sb ≡ []) × (writes m sb ≡ [])
    quiet f =
        let (first, second) = both_parts sb.fin_pending m.before_tail m.before_copy f contract in
        let none_before = added-nothing m.before_tail sb first in
        (
          none_before,
          ap (λ b. b ++ added m.before_copy (written m.before_tail sb)) none_before
              ∙ added-nothing m.before_copy (written m.before_tail sb) second,
        )

    used-seen : sb.fin_pending ≡ true → Buf.used (written m.before_tail sb) ≡ length (contents sb)
    used-seen f =
        let (held, head, tail, valid) = written_lem m.before_tail v short (omega (arith, word)) in
        used-eq valid
        ∙ ap length (held ∙ ap (λ b. contents sb ++ b) (quiet f).0 ∙ append-nil (contents sb))

    fin_means :
        (m.given || ((pull m want sc sb c).told.to_send == 0)) ≡ true
        → (pull m want sc sb c).told.is_fin ≡ true
        → (sb.fin_pending ≡ true)
          × (sc.tx_reset_pending ≡ false)
          × ((pull m want sc sb c).bytes ≡ contents sb)
          × (contents (left m want sc sb c) ≡ [])
    unfolding pull
    fin_means given e =
        let p = pull m want sc sb c in
        let sb' = left m want sc sb c in
        let (f, r, all) = offer-fin sc (written m.before_tail sb) sb.fin_pending (u32 want) e in
        let (kept, front, exact, bound, wanted, moved, signal, valid) =
          pull_lem m want sc c v short short_too word in
        let whole : p.bytes ++ contents sb' ≡ contents sb =
          front ∙ ap (λ b. contents sb ++ b) (quiet f).1 ∙ append-nil (contents sb) in
        let long : length p.bytes ≡ length (contents sb) = exact given ∙ all ∙ used-seen f in
        let empty : contents sb' ≡ [] =
          no_bytes (contents sb')
            (omega (arith, ap length whole, length-append p.bytes (contents sb'), long)) in
        (f, r, sym (append-nil p.bytes) ∙ ap (λ b. p.bytes ++ b) (sym empty) ∙ whole, empty)

    fin_comes :
        sb.fin_pending ≡ true
        → sc.tx_reset_pending ≡ false
        → length (contents sb) ≤ u32 want
        → (pull m want sc sb c).told.is_fin ≡ true
    unfolding pull
    fin_comes f r room =
        ap (λ b. (offer sc (written m.before_tail sb) b (u32 want)).is_fin) f
        ∙ offer-last sc (written m.before_tail sb) (u32 want) r (omega (arith, used-seen f, room))

-- What the sender does meanwhile is of writes of less than 2^32 bytes, before 2^64 bytes.
abbrev pub Fits : Meanwhile → StreamBuf → Type 0
Fits m sb = Short m.before_tail × Short m.before_copy × (sb.tail + all_offered m < 2 ^ 64)

-- A pull on a valid ring, with writes that fit, of a sender that writes nothing after its FIN, where the
-- stack gives a buffer or asks for no bytes, and is told that the stream ends: the sender's FIN was there and
-- no reset is pending, the bytes pulled are all that the ring held, and none is left.
pub pull_fin :
    (m : Meanwhile) (want : ℕ) (sc : StreamCtx) {sb : StreamBuf} (c : Counters)
    → IsValid sb
    → Fits m sb
    → nothing_after sb.fin_pending (m.before_tail ++ m.before_copy) ≡ true
    → (m.given || ((pull m want sc sb c).told.to_send == 0)) ≡ true
    → (pull m want sc sb c).told.is_fin ≡ true
    → (sb.fin_pending ≡ true)
      × (sc.tx_reset_pending ≡ false)
      × ((pull m want sc sb c).bytes ≡ contents sb)
      × (contents (left m want sc sb c) ≡ [])
pull_fin m want sc c v (short, short_too, word) contract given e =
    fin_means m want sc c v short short_too word contract given e

-- A pull on a valid ring, with writes that fit, of a sender that writes nothing after its FIN, which is there,
-- with no reset pending: if the stack asks for as many bytes as the ring holds, it is told that they end
-- the stream.
pub pull_last :
    (m : Meanwhile) (want : ℕ) (sc : StreamCtx) {sb : StreamBuf} (c : Counters)
    → IsValid sb
    → Fits m sb
    → nothing_after sb.fin_pending (m.before_tail ++ m.before_copy) ≡ true
    → sb.fin_pending ≡ true
    → sc.tx_reset_pending ≡ false
    → length (contents sb) ≤ u32 want
    → (pull m want sc sb c).told.is_fin ≡ true
pull_last m want sc c v (short, short_too, word) contract f r room =
    fin_comes m want sc c v short short_too word contract f r room

-- A pull on a valid ring, with writes that fit, no reset pending, where the stack gives a buffer or asks for
-- no bytes: if it is told that there are no more, only what the sender wrote after the look is left.
pub pull_idle :
    (m : Meanwhile) (want : ℕ) (sc : StreamCtx) {sb : StreamBuf} (c : Counters)
    → IsValid sb
    → Fits m sb
    → (m.given || ((pull m want sc sb c).told.to_send == 0)) ≡ true
    → sc.tx_reset_pending ≡ false
    → (pull m want sc sb c).told.is_still_active ≡ false
    → contents (left m want sc sb c) ≡ added m.before_copy (written m.before_tail sb)
unfolding pull
pull_idle m want sc {sb} c v (short, short_too, word) given r idle =
    let seen = written m.before_tail sb in
    let p = pull m want sc sb c in
    let sb' = left m want sc sb c in
    let late = added m.before_copy seen in
    let (held, head, tail, valid) = written_lem m.before_tail v short (omega (arith, word)) in
    let (kept, front, exact, bound, wanted, moved, signal, valid') =
      pull_lem m want sc c v short short_too word in
    let (there, room) = offer-bounds sc sb.fin_pending (u32 want) valid in
    let all = offer-idle sc seen sb.fin_pending (u32 want) r idle in
    let long : length p.bytes ≡ length (contents seen) =
      omega (arith, exact given, all, there, used-eq valid) in
    let whole : contents seen ++ late ≡ p.bytes ++ contents sb' =
      ap (λ b. b ++ late) held
      ∙ append_assoc (contents sb) (added m.before_tail sb) late
      ∙ sym front in
    (split_front (length (contents seen)) p.bytes (contents sb') (contents seen ++ late) long
      whole).1
    ∙ drop-append (contents seen) late

-- A pull on a valid ring, with writes that fit, while a reset is pending and no more than its reliable size
-- is sent: it leaves the ring's position at most at the reliable size, and the stack is told of no FIN.
pub pull_reset :
    (m : Meanwhile) (want : ℕ) (sc : StreamCtx) {sb : StreamBuf} (c : Counters)
    → IsValid sb
    → Fits m sb
    → sc.tx_reset_pending ≡ true
    → sb.head ≤ sc.tx_reliable_size
    → sc.tx_reliable_size < 2 ^ 64
    → ((left m want sc sb c).head ≤ sc.tx_reliable_size)
      × ((pull m want sc sb c).told.is_fin ≡ false)
unfolding pull
pull_reset m want sc {sb} c v (short, short_too, word) r below small =
    let seen = written m.before_tail sb in
    let (held, head, tail, valid) = written_lem m.before_tail v short (omega (arith, word)) in
    let (kept, front, exact, bound, wanted, moved, signal, valid') =
      pull_lem m want sc c v short short_too word in
    let e = used-eq valid in
    let few : Buf.used seen < 2 ^ 32 =
      omega (arith, e, length-contents seen, valid.room, IsPow2-bounds valid.pow2) in
    let (much, limit, least) =
      tx_sendable_lem sc seen (Buf.used seen) (omega (arith, head, below)) small few r in
    (
      omega (arith, moved, bound, head, limit, offer-le sc seen sb.fin_pending (u32 want)),
      offer-no_fin sc seen sb.fin_pending (u32 want) r,
    )
