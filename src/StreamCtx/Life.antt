-- ===== src/StreamCtx/Life.antt =====
-- References of a stream context, and where the bytes go that are never sent.
use aiopquic.Base.{
  ℕ, ◌+◌, ◌-◌, ◌^◌, ◌≤◌, ◌<◌, ◌≡◌, refl, ap, sym, ◌∙◌, arith, true, false, Bool-cases, inl, inr,
  Option, none, some, length, u32, u64, sub32, sub64, ltb, ◌==◌, if◌then◌else◌, min,
}
use aiopquic.Base.Pow2.{IsPow2-bounds}
use aiopquic.StreamBuf as Buf
use aiopquic.StreamBuf.{StreamBuf}
use aiopquic.StreamBuf.Valid.{IsValid, contents, length-contents}
use aiopquic.StreamCtx.{
  StreamCtx, Counters, ref, destroy, remaining, tx_abandon, abandon_ring, tx_sendable,
}

pub used-eq : {sb : StreamBuf} → IsValid sb → Buf.used sb ≡ length (contents sb)
unfolding Buf.used
used-eq {sb} v = omega (arith, v.order, v.room, v.word, IsPow2-bounds v.pow2, length-contents sb)

credit : (d n : ℕ) → d + n < 2 ^ 64 → (if ltb 0 n then u64 (d + n) else d) ≡ d + n
credit d n small = elim (Bool-cases (ltb 0 n)) [
  | inl some_bytes ↦ ground (arith, some_bytes)
  | inr no_bytes ↦ ground (arith, no_bytes)
]

used-emptied : (sb : StreamBuf) → sb.tail < 2 ^ 64 → Buf.used (record sb { head = sb.tail }) ≡ 0
unfolding Buf.used
used-emptied sb word = omega (arith, word)

-- What is left when the last reference is dropped.
freed_with : Counters → ℕ → Option StreamCtx × Counters
freed_with c discarded =
    (none, record c { tx_discarded = discarded; sc_destroyed = u64 (c.sc_destroyed + 1) })

destroy-eq :
    (sc : StreamCtx) {sb : StreamBuf} (c : Counters) (n : ℕ)
    → sc.tx ≡ some sb
    → Buf.used sb ≡ n
    → sc.refcount ≡ 1
    → c.tx_discarded + n < 2 ^ 64
    → destroy sc c ≡ freed_with c (c.tx_discarded + n)
unfolding destroy freed_with
destroy-eq sc c n there used last small =
    let only : (sc.refcount == 1) ≡ true = ground (arith, last) in
    rw (only, there, used) (ap (freed_with c) (credit c.tx_discarded n small))

-- On a context with one reference and a valid send ring: a reference more and its drop change
-- nothing, and the drop of the last reference frees the context, counts it as destroyed, and counts
-- the bytes still in that ring as discarded, below 2^64 of them.
pub destroy_last :
    (sc : StreamCtx) (sb : StreamBuf) (c : Counters)
    → sc.tx ≡ some sb
    → IsValid sb
    → sc.refcount ≡ 1
    → c.tx_discarded + length (contents sb) < 2 ^ 64
    → (destroy (ref sc) c ≡ (some sc, c))
      × ((destroy sc c).0 ≡ none)
      × ((destroy sc c).1.sc_destroyed ≡ u64 (c.sc_destroyed + 1))
      × ((destroy sc c).1.tx_discarded ≡ c.tx_discarded + length (contents sb))
unfolding destroy ref
destroy_last sc sb c there v last small =
    (rw (shared, back), rw only, rw only, rw (only, there, used-eq v) (credit _ _ small))
  where
    only : (sc.refcount == 1) ≡ true
    only = ground (arith, last)

    shared : (u32 (sc.refcount + 1) == 1) ≡ false
    shared = ground (arith, last)

    back : sub32 (u32 (sc.refcount + 1)) 1 ≡ sc.refcount
    back = omega (arith, last)

-- With a reset pending and no more than its reliable size sent so far, what may be handed on is no more
-- than what is there, it is all of that up to the reliable size, and a pull of it leaves the position
-- at most there. Positions are 64-bit, the bytes there less than 2^32.
pub tx_sendable_lem :
    (sc : StreamCtx) (sb : StreamBuf) (avail : ℕ)
    → sb.head ≤ sc.tx_reliable_size
    → sc.tx_reliable_size < 2 ^ 64
    → avail < 2 ^ 32
    → sc.tx_reset_pending ≡ true
    → let n = tx_sendable sc sb avail in
      (n ≤ avail)
      × (sb.head + n ≤ sc.tx_reliable_size)
      × (n ≡ min avail (sc.tx_reliable_size - sb.head))
unfolding tx_sendable
tx_sendable_lem sc sb avail below word short pending =
    rw pending (ground (arith, below), ground (arith, below), ground (arith, below))

-- Abandoning a valid send ring empties it and counts its bytes as discarded at once, below 2^64 of
-- them, and the drop of the last reference after it counts none of them again: the counters end as
-- they do without the abandoning.
pub tx_abandon_lem :
    (sc : StreamCtx) {sb : StreamBuf} (c : Counters)
    → sc.tx ≡ some sb
    → IsValid sb
    → sc.refcount ≡ 1
    → c.tx_discarded + length (contents sb) < 2 ^ 64
    → let (sc', c') = tx_abandon sc c in
      (c'.tx_discarded ≡ c.tx_discarded + length (contents sb))
      × (remaining sc'.tx ≡ 0)
      × (destroy sc' c' ≡ destroy sc c)
unfolding tx_abandon abandon_ring freed_with
tx_abandon_lem sc {sb} c there v last small = elim (Bool-cases (ltb sb.head sb.tail)) [
  | inl held ↦
      let credited : u64 (c.tx_discarded + sub64 sb.tail sb.head)
          ≡ c.tx_discarded + length (contents sb) =
        omega (arith, length-contents sb, v.word, v.order, small) in
      let none_left : Buf.used (record sb { head = sb.tail }) ≡ 0 = used-emptied sb v.word in
      rw (there, held)
        (
          credited,
          none_left,
          destroy-eq (record sc { tx = some (record sb { head = sb.tail }) })
                (record c { tx_discarded = u64 (c.tx_discarded + sub64 sb.tail sb.head) }) 0 refl
                none_left last (omega (arith, credited, small))
              ∙ ap (freed_with c) (omega (arith, credited))
              ∙ sym (
                  destroy-eq (record sc { tx = some sb }) c (length (contents sb)) refl (used-eq v)
                    last small),
        )
  | inr drained ↦
      let empty : length (contents sb) ≡ 0 = ground (arith, length-contents sb, drained) in
      rw (there, drained) (omega (arith, empty), used-eq v ∙ empty, refl)
]
