-- ===== src/Bridge/Worker/Credit.antt =====
-- The credit that a stream gets for the bytes that Python has taken and released.
use aiopquic.Base.{
  ℕ, ◌+◌, ◌-◌, ◌≤◌, ◌≡◌, refl, arith, Bool, true, false, ◌||◌, Bool-cases, ◌⊎◌, inl, inr, some, u32,
  sub64, length, leb, if◌then◌else◌,
}
use aiopquic.Base.Circular.{window}
use aiopquic.Base.Pow2.{IsPow2-bounds}
use aiopquic.StreamBuf as Buf
use aiopquic.StreamBuf.{StreamBuf}
use aiopquic.StreamBuf.Valid.{IsValid, contents, length-contents}
use aiopquic.StreamCtx.{StreamCtx}
use aiopquic.StreamCtx.Life.{used-eq}
use aiopquic.Bridge.Worker.Commands.{fc_grant, grant_on}

free_lem : {sb : StreamBuf} → IsValid sb → Buf.free sb + length (contents sb) ≡ sb.capacity
unfolding Buf.free
free_lem {sb} v = omega (arith, v.room, IsPow2-bounds v.pow2, length-contents sb, used-eq v)

-- What a credit is to be: never more than the ring can take; without the switch what is free beside the bytes
-- that are not released, which is nothing just when there is no such room or the FIN is there; with
-- the switch all that is free; and nothing once the FIN is there.
abbrev pub IsCredit : (Bool → ℕ) → StreamBuf → ℕ → Bool → Type 0
IsCredit grant sb pending raw =
    (grant raw + length (contents sb) ≤ sb.capacity)
    × (((grant false ≡ 0)
          × ((sb.fin_pending || leb sb.capacity (length (contents sb) + pending)) ≡ true))
        ⊎ (grant false + length (contents sb) + pending ≡ sb.capacity))
    × ((sb.fin_pending ≡ true) ⊎ (grant true + length (contents sb) ≡ sb.capacity))
    × ((if sb.fin_pending then grant raw else 0) ≡ 0)

grant_on-IsCredit :
    (raw : Bool) (sb : StreamBuf) (pending : ℕ)
    → IsValid sb
    → IsCredit (λ b. grant_on b sb pending) sb pending raw
unfolding grant_on window Buf.free
grant_on-IsCredit raw sb pending v = elim (Bool-cases sb.fin_pending) [
  | inl fin ↦ rw fin (omega (arith, free_lem v), inl (refl, refl), inl refl, refl)
  | inr more ↦ elim (Bool-cases (leb (Buf.free sb) pending)) [
    | inl unread ↦
        let none_free : leb sb.capacity (length (contents sb) + pending) ≡ true =
          ground (arith, unread, free_lem v) in
        rw (more, unread)
          (by_switch raw 0 (omega arith), inl (refl, none_free), inr (free_lem v), refl)
    | inr read ↦
        let room : Buf.free sb ≤ sb.capacity = omega (arith, free_lem v) in
        let left : u32 (sub64 (Buf.free sb) pending) ≡ Buf.free sb - pending =
          ground (arith, read, room, IsPow2-bounds v.pow2) in
        let whole : Buf.free sb - pending + length (contents sb) + pending ≡ sb.capacity =
          ground (arith, read, free_lem v) in
        rw (more, read, left)
          (by_switch raw (Buf.free sb - pending) (omega arith), inr whole, inr (free_lem v), refl)
  ]
]
  where
    by_switch :
        (raw : Bool) (grant : ℕ)
        → grant ≤ Buf.free sb
        → (if raw then Buf.free sb else grant) + length (contents sb) ≤ sb.capacity
    by_switch true grant few = omega (arith, free_lem v)
    by_switch false grant few = omega (arith, few, free_lem v)

-- The credit for a stream whose ring is there and valid: with the bytes in the ring it is never more than
-- the ring's capacity; without the switch it is, with those bytes and the ones that Python has not
-- released, just the capacity, or nothing, which it is only where those leave no room or the FIN
-- arrived; with the switch and before the FIN it is, with the bytes in the ring, just the capacity;
-- and it is nothing once the FIN arrived.
pub fc_grant-IsCredit :
    (raw : Bool) (sc : StreamCtx) (sb : StreamBuf)
    → sc.rx ≡ some sb
    → IsValid sb
    → IsCredit (λ b. fc_grant b sc) sb sc.bytes_pending_release raw
unfolding fc_grant
fc_grant-IsCredit raw sc sb there v = rw there (grant_on-IsCredit raw sb sc.bytes_pending_release v)
