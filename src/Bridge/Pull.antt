-- ===== src/Bridge/Pull.antt =====
-- src/aiopquic/_binding/c/callback.h, the pull of a stream's bytes by the QUIC stack, and the same in
-- src/aiopquic/_binding/c/h3wt_callback.h for the streams of a WebTransport session. The sender writes to
-- the ring meanwhile: what it does between the load of the FIN and that of the tail, and between that and
-- the copy, is an argument.
pub mod Bytes
pub mod Fin
use aiopquic.Base.{
  ℕ, ◌+◌, Bool, true, false, not, ◌&&◌, Option, none, some, List, [], ◌∷◌, u32, u64, ltb, ◌==◌,
  if◌then◌else◌,
}
use aiopquic.StreamBuf as Buf
use aiopquic.StreamBuf.{StreamBuf}
use aiopquic.StreamCtx.{StreamCtx, Counters, tx_sendable, tx_drain_take, tx_data_bytes_pulled_add}

-- What the sender does with the ring: it writes bytes, of which the ring takes what fits, or the FIN.
pub data Write : Type 0 where
  write : List ℕ → Write
  finish : Write

abbrev pub written : List Write → StreamBuf → StreamBuf
written [] sb = sb
written (write bytes ∷ ws) sb = written ws (Buf.push sb bytes).1
written (finish ∷ ws) sb = written ws (Buf.set_fin sb)

-- What the stack is told: how many bytes it gets, whether they end the stream, and whether there are more.
pub record Offer : Type 0 where
  pub to_send : ℕ
  pub is_fin : Bool
  pub is_still_active : Bool

abbrev pub no_data : Offer
no_data = record { to_send = 0; is_fin = false; is_still_active = false }

-- `sb` is the ring when its tail is loaded.
unfoldable pub offer : StreamCtx → StreamBuf → Bool → ℕ → Offer
offer sc sb fin_after want =
    let avail = Buf.used sb in
    let sendable = tx_sendable sc sb avail in
    let to_send = if ltb sendable want then sendable else want in
    record {
      to_send = to_send;
      is_fin = fin_after && not sc.tx_reset_pending && (to_send == avail);
      is_still_active = ltb to_send sendable;
    }

-- The copy, where the stack gives a buffer.
unfoldable pub copy_out : Bool → ℕ → StreamBuf → Counters → List ℕ × StreamBuf × Counters
copy_out given to_send sb c =
    if given && ltb 0 to_send
    then (let (n, out, sb') = Buf.pop sb to_send in (out, sb', tx_data_bytes_pulled_add c to_send))
    else ([], sb, c)

-- The drain signal: whether its event goes out. `queued` is whether there is memory for it.
unfoldable pub fire_drain : Bool → ℕ → StreamCtx → Bool × StreamCtx
fire_drain queued now sc =
    let (armed, sc') = tx_drain_take sc in
    if not armed
    then (false, sc')
    else if queued
    then (
      true,
      record sc' { cnt_drain_fires = u64 (sc'.cnt_drain_fires + 1); last_drain_fire_ns = now },
    )
    else (
      false,
      record sc' { cnt_drain_dropped = u64 (sc'.cnt_drain_dropped + 1); tx_drain_pending = true },
    )

-- What a pull does: what the stack is told, the bytes that it gets, and whether the drain event goes out.
pub record Pulled : Type 0 where
  pub told : Offer
  pub bytes : List ℕ
  pub fired : Bool
  pub sc : StreamCtx
  pub counters : Counters

-- What the stack and the sender do meanwhile.
pub record Meanwhile : Type 0 where
  pub before_tail : List Write
  pub before_copy : List Write
  pub given : Bool
  pub queued : Bool
  pub now : ℕ

unfoldable pub pull : Meanwhile → ℕ → StreamCtx → StreamBuf → Counters → Pulled
pull m length sc sb c =
    let fin_after = sb.fin_pending in
    let seen = written m.before_tail sb in
    let told = offer sc seen fin_after (u32 length) in
    let (bytes, sb', c') = copy_out m.given told.to_send (written m.before_copy seen) c in
    let (fired, sc') = fire_drain m.queued m.now (record sc { tx = some sb' }) in
    record { told = told; bytes = bytes; fired = fired; sc = sc'; counters = c' }

unfoldable pub prepare_to_send : Meanwhile → ℕ → StreamCtx → Counters → Pulled
prepare_to_send m length sc c = elim sc.tx [
  | none ↦ record { told = no_data; bytes = []; fired = false; sc = sc; counters = c }
  | some sb ↦ pull m length sc sb c
]

-- A stream of a session, none without a link to one: then no data is provided.
unfoldable pub provide_data : Meanwhile → ℕ → Option StreamCtx → Counters → Option Pulled
provide_data m length none c = none
provide_data m length (some sc) c = some (prepare_to_send m length sc c)
