-- ===== src/SpscRing/Events.antt =====
-- src/aiopquic/_binding/c/spsc_ring.h, `spsc_event_type_t`: the events that the two rings carry. The
-- constructors are named as in the source, in lower case and without `SPSC_EVT_`.
use aiopquic.Base.{
  ℕ, ◌≡◌, refl, ap, sym, ◌∙◌, ◌==◌, if◌then◌else◌, Option, none, some, List, [], ◌∷◌,
}

pub data EventType : Type 0 where
  stream_data stream_fin stream_reset stop_sending close app_close ready : EventType
  almost_ready datagram datagram_acked datagram_lost path_available path_suspended : EventType
  path_deleted pacing_changed stream_tx_drained datagram_tx_drained : EventType
  tx_event_ring_drained wt_stream_destroy stream_destroy cnx_stack cnx_snapshot : EventType
  tx_close tx_stream_reset tx_stop_sending tx_mark_active tx_connect tx_wt_open : EventType
  tx_wt_create_stream tx_wt_close tx_wt_drain tx_wt_reset_stream tx_wt_deregister : EventType
  tx_wt_stop_sending tx_open_flow_control tx_set_app_flow_control : EventType
  tx_wt_session_cleanup tx_mark_datagram_ready tx_cnx_refresh : EventType
  tx_mark_wt_datagram_ready tx_set_stream_priority tx_wt_set_stream_priority : EventType
  tx_wt_fin tx_dgram_ring_release tx_set_datagram_priority : EventType
  tx_wt_set_datagram_priority tx_set_max_connections wt_session_ready : EventType
  wt_session_refused wt_session_closed wt_session_draining wt_stream_data : EventType
  wt_stream_fin wt_stream_reset wt_stop_sending wt_datagram wt_new_stream : EventType
  wt_stream_created wt_new_session wt_stream_link_release wt_cnx_closed : EventType

-- The value of the enumerator.
unfoldable pub event_code : EventType → ℕ
event_code stream_data = 0
event_code stream_fin = 1
event_code stream_reset = 2
event_code stop_sending = 3
event_code close = 4
event_code app_close = 5
event_code ready = 6
event_code almost_ready = 7
event_code datagram = 8
event_code datagram_acked = 9
event_code datagram_lost = 10
event_code path_available = 11
event_code path_suspended = 12
event_code path_deleted = 13
event_code pacing_changed = 14
event_code stream_tx_drained = 15
event_code datagram_tx_drained = 19
event_code tx_event_ring_drained = 16
event_code wt_stream_destroy = 18
event_code stream_destroy = 17
event_code cnx_stack = 20
event_code cnx_snapshot = 21
event_code tx_close = 131
event_code tx_stream_reset = 132
event_code tx_stop_sending = 133
event_code tx_mark_active = 134
event_code tx_connect = 135
event_code tx_wt_open = 136
event_code tx_wt_create_stream = 137
event_code tx_wt_close = 138
event_code tx_wt_drain = 139
event_code tx_wt_reset_stream = 140
event_code tx_wt_deregister = 141
event_code tx_wt_stop_sending = 142
event_code tx_open_flow_control = 143
event_code tx_set_app_flow_control = 144
event_code tx_wt_session_cleanup = 145
event_code tx_mark_datagram_ready = 146
event_code tx_cnx_refresh = 147
event_code tx_mark_wt_datagram_ready = 148
event_code tx_set_stream_priority = 149
event_code tx_wt_set_stream_priority = 150
event_code tx_wt_fin = 151
event_code tx_dgram_ring_release = 152
event_code tx_set_datagram_priority = 153
event_code tx_wt_set_datagram_priority = 154
event_code tx_set_max_connections = 155
event_code wt_session_ready = 64
event_code wt_session_refused = 65
event_code wt_session_closed = 66
event_code wt_session_draining = 67
event_code wt_stream_data = 68
event_code wt_stream_fin = 69
event_code wt_stream_reset = 70
event_code wt_stop_sending = 71
event_code wt_datagram = 72
event_code wt_new_stream = 73
event_code wt_stream_created = 74
event_code wt_new_session = 75
event_code wt_stream_link_release = 76
event_code wt_cnx_closed = 77

every_event : List EventType
every_event =
    stream_data ∷ stream_fin ∷ stream_reset ∷ stop_sending ∷ close ∷ app_close ∷ ready
    ∷ almost_ready ∷ datagram ∷ datagram_acked ∷ datagram_lost ∷ path_available ∷ path_suspended
    ∷ path_deleted ∷ pacing_changed ∷ stream_tx_drained ∷ datagram_tx_drained
    ∷ tx_event_ring_drained ∷ wt_stream_destroy ∷ stream_destroy ∷ cnx_stack ∷ cnx_snapshot
    ∷ tx_close ∷ tx_stream_reset ∷ tx_stop_sending ∷ tx_mark_active ∷ tx_connect ∷ tx_wt_open
    ∷ tx_wt_create_stream ∷ tx_wt_close ∷ tx_wt_drain ∷ tx_wt_reset_stream ∷ tx_wt_deregister
    ∷ tx_wt_stop_sending ∷ tx_open_flow_control ∷ tx_set_app_flow_control ∷ tx_wt_session_cleanup
    ∷ tx_mark_datagram_ready ∷ tx_cnx_refresh ∷ tx_mark_wt_datagram_ready ∷ tx_set_stream_priority
    ∷ tx_wt_set_stream_priority ∷ tx_wt_fin ∷ tx_dgram_ring_release ∷ tx_set_datagram_priority
    ∷ tx_wt_set_datagram_priority ∷ tx_set_max_connections ∷ wt_session_ready ∷ wt_session_refused
    ∷ wt_session_closed ∷ wt_session_draining ∷ wt_stream_data ∷ wt_stream_fin ∷ wt_stream_reset
    ∷ wt_stop_sending ∷ wt_datagram ∷ wt_new_stream ∷ wt_stream_created ∷ wt_new_session
    ∷ wt_stream_link_release ∷ wt_cnx_closed ∷ []

find_event : List EventType → ℕ → Option EventType
find_event [] n = none
find_event (e ∷ es) n = if event_code e == n then some e else find_event es n

find_event-code : (e : EventType) → find_event every_event (event_code e) ≡ some e
unfolding find_event every_event event_code
find_event-code stream_data = refl
find_event-code stream_fin = refl
find_event-code stream_reset = refl
find_event-code stop_sending = refl
find_event-code close = refl
find_event-code app_close = refl
find_event-code ready = refl
find_event-code almost_ready = refl
find_event-code datagram = refl
find_event-code datagram_acked = refl
find_event-code datagram_lost = refl
find_event-code path_available = refl
find_event-code path_suspended = refl
find_event-code path_deleted = refl
find_event-code pacing_changed = refl
find_event-code stream_tx_drained = refl
find_event-code datagram_tx_drained = refl
find_event-code tx_event_ring_drained = refl
find_event-code wt_stream_destroy = refl
find_event-code stream_destroy = refl
find_event-code cnx_stack = refl
find_event-code cnx_snapshot = refl
find_event-code tx_close = refl
find_event-code tx_stream_reset = refl
find_event-code tx_stop_sending = refl
find_event-code tx_mark_active = refl
find_event-code tx_connect = refl
find_event-code tx_wt_open = refl
find_event-code tx_wt_create_stream = refl
find_event-code tx_wt_close = refl
find_event-code tx_wt_drain = refl
find_event-code tx_wt_reset_stream = refl
find_event-code tx_wt_deregister = refl
find_event-code tx_wt_stop_sending = refl
find_event-code tx_open_flow_control = refl
find_event-code tx_set_app_flow_control = refl
find_event-code tx_wt_session_cleanup = refl
find_event-code tx_mark_datagram_ready = refl
find_event-code tx_cnx_refresh = refl
find_event-code tx_mark_wt_datagram_ready = refl
find_event-code tx_set_stream_priority = refl
find_event-code tx_wt_set_stream_priority = refl
find_event-code tx_wt_fin = refl
find_event-code tx_dgram_ring_release = refl
find_event-code tx_set_datagram_priority = refl
find_event-code tx_wt_set_datagram_priority = refl
find_event-code tx_set_max_connections = refl
find_event-code wt_session_ready = refl
find_event-code wt_session_refused = refl
find_event-code wt_session_closed = refl
find_event-code wt_session_draining = refl
find_event-code wt_stream_data = refl
find_event-code wt_stream_fin = refl
find_event-code wt_stream_reset = refl
find_event-code wt_stop_sending = refl
find_event-code wt_datagram = refl
find_event-code wt_new_stream = refl
find_event-code wt_stream_created = refl
find_event-code wt_new_session = refl
find_event-code wt_stream_link_release = refl
find_event-code wt_cnx_closed = refl

-- No two events share a code, so the `event_type` of an entry names one event at most.
pub event_code-injective : (a b : EventType) → event_code a ≡ event_code b → a ≡ b
event_code-injective a b h =
    let e : some a ≡ some b =
      sym (find_event-code a) ∙ ap (find_event every_event) h ∙ find_event-code b in
    cc
