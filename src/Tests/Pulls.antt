-- ===== src/Tests/Pulls.antt =====
-- Pulls of a stream at concrete inputs.
use aiopquic.Base.{
  ◌+◌, ◌≤◌, ◌≡◌, refl, arith, true, false, some, ◌||◌, [], ◌∷◌, ◌++◌, length, u32, ◌==◌,
}
use aiopquic.Base.Circular.{window}
use aiopquic.StreamBuf as Buf
use aiopquic.StreamBuf.{StreamBuf}
use aiopquic.StreamBuf.Valid.{IsValid, contents}
use aiopquic.StreamCtx.{StreamCtx, tx_sendable}
use aiopquic.Bridge.Pull.{write, written, Meanwhile, offer, pull}
use aiopquic.Bridge.Pull.Bytes.{added, writes, left, pull_lem}
use aiopquic.Bridge.Pull.Fin.{pull_fin, pull_last, pull_idle, pull_reset}
use aiopquic.Tests.Streams.{eight, eight-IsValid, stream, counters}

-- The sender writes two bytes before the tail is read and one before the copy.
abbrev busy : Meanwhile
busy = record {
  before_tail = write (1 ∷ 2 ∷ []) ∷ [];
  before_copy = write (3 ∷ []) ∷ [];
  given = true;
  queued = true;
  now = 900;
}

abbrev calm : Meanwhile
calm = record busy { before_tail = []; before_copy = [] }

abbrev no_reset : StreamCtx
no_reset = record stream { tx_reset_pending = false; tx_drain_pending = true }

abbrev finished : StreamBuf
finished = record eight { fin_pending = true }

finished-IsValid : IsValid finished
finished-IsValid = record {
  pow2 = eight-IsValid.pow2;
  masked = refl;
  storage = refl;
  order = omega arith;
  room = omega arith;
  word = omega arith;
}

pull_lem_example :
    let p = pull busy 4 no_reset eight counters in
    let sb' = left busy 4 no_reset eight counters in
    (p.sc.tx ≡ some sb')
    × (p.bytes ++ contents sb' ≡ contents eight ++ writes busy eight)
    × ((busy.given || (p.told.to_send == 0)) ≡ true → length p.bytes ≡ p.told.to_send)
    × (length p.bytes ≤ p.told.to_send)
    × (p.told.to_send ≤ u32 4)
    × (sb'.head ≡ eight.head + length p.bytes)
    × ((p.fired || p.sc.tx_drain_pending) ≡ no_reset.tx_drain_pending)
    × IsValid sb'
pull_lem_example =
    pull_lem busy 4 no_reset counters eight-IsValid (omega arith, tt) (omega arith, tt)
      (omega arith)

ends_now : (pull calm 4 no_reset finished counters).told.is_fin ≡ true
unfolding pull offer tx_sendable Buf.used
ends_now = refl

pull_fin_example :
    (finished.fin_pending ≡ true)
    × (no_reset.tx_reset_pending ≡ false)
    × ((pull calm 4 no_reset finished counters).bytes ≡ contents finished)
    × (contents (left calm 4 no_reset finished counters) ≡ [])
pull_fin_example =
    pull_fin calm 4 no_reset counters finished-IsValid (tt, tt, omega arith) refl refl ends_now

all_wanted : length (contents finished) ≤ u32 4
unfolding window
all_wanted = omega arith

pull_last_example : (pull calm 4 no_reset finished counters).told.is_fin ≡ true
pull_last_example =
    pull_last calm 4 no_reset counters finished-IsValid (tt, tt, omega arith) refl refl refl
      all_wanted

all_idle : (pull busy 8 no_reset eight counters).told.is_still_active ≡ false
unfolding pull offer tx_sendable Buf.used Buf.push Buf.push_at
all_idle = refl

pull_idle_example :
    contents (left busy 8 no_reset eight counters)
    ≡ added busy.before_copy (written busy.before_tail eight)
pull_idle_example =
    pull_idle busy 8 no_reset counters eight-IsValid
      ((omega arith, tt), (omega arith, tt), omega arith) refl refl all_idle

pull_reset_example :
    ((left busy 4 stream eight counters).head ≤ stream.tx_reliable_size)
    × ((pull busy 4 stream eight counters).told.is_fin ≡ false)
pull_reset_example =
    pull_reset busy 4 stream counters eight-IsValid
      ((omega arith, tt), (omega arith, tt), omega arith) refl (omega arith) (omega arith)
