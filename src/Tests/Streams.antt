-- ===== src/Tests/Streams.antt =====
-- The stream context at concrete inputs: a send ring of eight bytes that holds three.
use aiopquic.Base.{
  ℕ, ◌+◌, ◌≤◌, ◌<◌, ◌^◌, ◌≡◌, refl, arith, true, false, List, [], ◌∷◌, length, Option, none, some,
  replicate,
}
use aiopquic.StreamBuf.{StreamBuf}
use aiopquic.StreamBuf.Valid.{IsValid, contents}
use aiopquic.StreamCtx.{StreamCtx, Counters, send_data}
use aiopquic.StreamCtx.Send.{send_data_lem, verdict, then_bytes, then_fin, then_armed}
use aiopquic.Base.Circular.{window}

abbrev pub eight : StreamBuf
eight = record {
  buf = replicate 8 5;
  capacity = 8;
  mask = 7;
  tail = 9;
  head = 6;
  fin_pending = false;
  hash_enabled = false;
  push_hash = 0;
  pop_hash = 0;
}

pub eight-IsValid : IsValid eight
eight-IsValid = record {
  pow2 = (3, omega arith, refl);
  masked = refl;
  storage = refl;
  order = omega arith;
  room = omega arith;
  word = omega arith;
}

abbrev pub stream : StreamCtx
stream = record {
  tx = some eight;
  rx = none;
  rx_consumed = 0;
  bytes_pending_release = 0;
  rx_credit_limit = 0;
  last_fc_push_consumed = 0;
  tx_drain_pending = false;
  rx_event_pending = false;
  pending_destroy = false;
  tx_reset_pending = true;
  tx_reliable_size = 8;
  cnt_drain_arms = 0;
  cnt_drain_fires = 0;
  cnt_drain_dropped = 0;
  last_drain_arm_ns = 0;
  last_drain_fire_ns = 0;
  refcount = 1;
}

abbrev pub counters : Counters
counters = record {
  sc_created = 4;
  sc_destroyed = 2;
  tx_pushed = 50;
  tx_pulled = 30;
  tx_discarded = 10;
  rx_bytes_pushed = 0;
  rx_bytes_popped = 0;
  chunks_alive = 0;
}

abbrev message : List ℕ
message = 1 ∷ 2 ∷ []

abbrev no_ring : ℕ → Option StreamBuf
no_ring capacity = none

send_data_lem_example :
    let (result, sc') = send_data no_ring 77 stream message 8 true in
    (sb' : StreamBuf) × (result ≡ verdict eight 2)
    × (sc'.tx ≡ some sb')
    × (contents sb' ≡ then_bytes result (contents eight) message)
    × (sb'.fin_pending ≡ then_fin result false true)
    × (sc'.tx_drain_pending ≡ then_armed result false)
    × IsValid sb'
send_data_lem_example =
    send_data_lem no_ring 77 8 true stream message refl eight-IsValid (omega arith) (omega arith)

few : 10 + length (contents eight) ≤ 20
unfolding window
few = omega arith

few_bytes : 10 + length (contents eight) < 2 ^ 64
few_bytes = omega (arith, few)
