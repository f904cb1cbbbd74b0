-- ===== src/Bridge/Rules.antt =====
-- src/aiopquic/_binding/c/callback.h, the rules on streams and datagrams that the worker applies: which
-- direction a stream has here, and the limits that the transport parameters grant. The tests on stream
-- ids are macros of picoquic, and its answers on a connection are arguments.
use aiopquic.Base.{
  ℕ, ◌≡◌, refl, arith, Bool, true, false, not, ◌||◌, Option, none, some, List, [], ◌∷◌, bit_and,
  ltb, ◌==◌, if◌then◌else◌, min,
}

-- The walk along picoquic's connections, which are those that it lists.
unfoldable pub cnx_is_alive : List ℕ → ℕ → Bool
cnx_is_alive [] cnx = false
cnx_is_alive (cur ∷ cnxs) cnx =
    let more = cnx_is_alive cnxs cnx in if cur == cnx then true else more

abbrev pub same : Bool → Bool → Bool
same true b = b
same false b = not b

-- PICOQUIC_IS_CLIENT_STREAM_ID and PICOQUIC_IS_BIDIR_STREAM_ID.
module _ (is_client_stream_id is_bidir_stream_id : ℕ → Bool) where
  unfoldable pub stream_is_local : Bool → ℕ → Bool
  stream_is_local is_client stream_id = same (is_client_stream_id stream_id) is_client

  unfoldable pub stream_can_send : Bool → ℕ → Bool
  stream_can_send is_client stream_id =
      is_bidir_stream_id stream_id || stream_is_local is_client stream_id

  unfoldable pub stream_can_receive : Bool → ℕ → Bool
  stream_can_receive is_client stream_id =
      is_bidir_stream_id stream_id || not (stream_is_local is_client stream_id)

  -- Where one end can send, the other end can receive, and the other way round; a stream has a direction
  -- at each end.
  pub directions :
      (is_client : Bool) (stream_id : ℕ)
      → (stream_can_send is_client stream_id ≡ stream_can_receive (not is_client) stream_id)
        × (stream_can_receive is_client stream_id ≡ stream_can_send (not is_client) stream_id)
        × ((stream_can_send is_client stream_id || stream_can_receive is_client stream_id) ≡ true)
  unfolding stream_can_send stream_can_receive stream_is_local
  directions is_client stream_id =
      by_bits (is_bidir_stream_id stream_id) (is_client_stream_id stream_id) is_client
    where
      by_bits :
          (bidir by_client c : Bool)
          → ((bidir || same by_client c) ≡ (bidir || not (same by_client (not c))))
            × ((bidir || not (same by_client c)) ≡ (bidir || same by_client (not c)))
            × (((bidir || same by_client c) || (bidir || not (same by_client c))) ≡ true)
      by_bits true by_client c = (refl, refl, refl)
      by_bits false true true = (refl, refl, refl)
      by_bits false true false = (refl, refl, refl)
      by_bits false false true = (refl, refl, refl)
      by_bits false false false = (refl, refl, refl)

-- The transport parameters of `picoquic_tp_t` that are read here.
pub record TransportParameters : Type 0 where
  pub max_datagram_frame_size : ℕ
  pub initial_max_stream_data_uni : ℕ
  pub initial_max_stream_data_bidi_local : ℕ
  pub initial_max_stream_data_bidi_remote : ℕ

abbrev pub ceiling_of : ℕ → ℕ → ℕ
ceiling_of local remote =
    let cap = if ltb remote local then remote else local in
    if cap == 0 then 0 else if ltb 1200 cap then 1200 else cap

-- The parameters of both ends, none where there are none; no connection has none.
unfoldable pub datagram_payload_ceiling :
    Option TransportParameters → Option TransportParameters → ℕ
datagram_payload_ceiling (some lt) (some rt) =
    ceiling_of lt.max_datagram_frame_size rt.max_datagram_frame_size
datagram_payload_ceiling (some lt) none = 0
datagram_payload_ceiling none rt = 0

-- The ceiling is the least of both limits and 1200.
pub datagram_payload_ceiling_lem :
    (lt rt : TransportParameters)
    → datagram_payload_ceiling (some lt) (some rt)
      ≡ min (min lt.max_datagram_frame_size rt.max_datagram_frame_size) 1200
unfolding datagram_payload_ceiling
datagram_payload_ceiling_lem lt rt = ground arith

unfoldable pub initial_rx_window : Option TransportParameters → Bool → ℕ → ℕ
initial_rx_window none is_client stream_id = 0
initial_rx_window (some tp) is_client stream_id =
    if not (bit_and stream_id 2 == 0)
    then tp.initial_max_stream_data_uni
    else if bit_and stream_id 1 == (if is_client then 0 else 1)
    then tp.initial_max_stream_data_bidi_local
    else tp.initial_max_stream_data_bidi_remote
