-- ===== src/Lib.antt =====
-- A model of the C core of aiopquic, an asyncio QUIC transport over picoquic: the lock-free rings
-- by which the Python threads and the network worker thread exchange stream bytes, datagrams and
-- events. The sources are the headers under src/aiopquic/_binding/c/.
--
-- The parts and the files that model them:
-- * src/aiopquic/_binding/c/stream_buf.h, the byte ring of a stream: StreamBuf. The sender pushes
--   bytes, the worker pops them when the stack asks. `push` and `pop` are aiopquic_stream_buf_push
--   and aiopquic_stream_buf_pop; StreamBuf.Race has the two threads as a step relation.
-- * src/aiopquic/_binding/c/datagram_buf.h, the record ring of a connection's datagrams: DgramBuf,
--   whose records are a 4-byte length and a payload. `push_record`, `peek_len` and `pop_into` are
--   the functions of these names; `addref` and `unref` count its references. It takes the rounding
--   of its capacity from the byte ring. DgramTable is the table from connections to record rings of
--   the same file, with open addressing and tombstones: `put`, `get`, `remove_ring`, `destroy`.
-- * src/aiopquic/_binding/c/spsc_ring.h, the event ring between worker and Python: SpscRing. Its
--   entries carry a payload that the ring owns or a borrowed pointer. SpscRing.Events has the event
--   codes, SpscRing.Memory the heap of payloads, and SpscRing.Overflow the list that takes entries
--   while the ring is full, with `push_or_overflow`, `refill` and `destroy`.
-- * src/aiopquic/_binding/c/stream_ctx.h, what the two threads share of a stream: StreamCtx, with its
--   two byte rings, the drain and event flags, the reference count, and the process-wide counters.
--   `send_data`, `tx_abandon`, `tx_sendable` and `destroy` are the functions of these names.
-- * src/aiopquic/_binding/c/callback.h, the bridge between the network thread and asyncio: Bridge, of
--   which Alpn has the protocol names (`set_alpn_list`, `alpn_select_cb`), Reasons the close reasons
--   lent to the QUIC stack (`hold`, `drop_reason`), Wake the wake-up of asyncio (`notify_rx`,
--   `clear_rx`), Sleep that of the network thread (`tx_wake_needed`, `time_check`), Resets the resets
--   held for a connection (`defer_reset`, `deferred_resets_drop_cnx`), Rules the directions of
--   streams and the limits of the transport parameters, Pull the answer to the stack's requests for a
--   stream's bytes (`prepare_to_send`, with what the sender writes meanwhile), Receive the bytes
--   that the stack delivers (`receive_on`), Datagrams the requests for a datagram (`prepare_datagram`),
--   and Drain the signal of the TX event ring (`arm_drain_pending`, `maybe_fire_drained`). Wake.Steps,
--   Sleep.Steps and Drain.Steps have the two threads as step relations, one atomic access a step.
--   Worker has what the network thread does to streams: Worker.Commands the commands of the TX event
--   ring that concern one (`handle_entry` is a turn of the loop in aiopquic_loop_cb), and Worker.Run the
--   pass over the held resets after a send (`run_deferred_resets`); picoquic and h3zero are a parameter
--   there, a record of their answers and calls; Worker.Asyncio has the pushes of those commands
--   (`tx_push_sc`), and Worker.Asyncio.Life any order of the calls of both threads; Worker.WtResets
--   has the commands of h3wt_callback.h that reset a WebTransport stream or stop its peer
--   (`tx_wt_reset_stream`, `tx_wt_stop_sending`), which hold resets in the same list. Releases has the
--   references of datagram rings that asyncio gives up (`dgram_ring_release`, `release_flush`) while
--   the worker takes entries of the TX event ring.
-- * src/aiopquic/_binding/c/h3wt_callback.h, WebTransport over HTTP/3: Wt, of which Codes has the codes of
--   stream resets (`wt_code_to_h3`, `wt_code_from_h3`), and Session a session with its flags, its handlers
--   (those of the events in aiopquic_wt_path_callback are `on_connect_accepted` and the like, those of the
--   commands in aiopquic_wt_handle_tx `tx_wt_close` and the like) and Session.Run any sequence
--   of them. Streams has the links of its streams (`ensure_link`) and the bytes that arrive on them
--   (`link_receive`), Protocols the choice of its protocol (`select_protocol`). The events are those of
--   SpscRing, and the bytes go the way of Bridge.Receive and Bridge.Pull.
-- Base has what they share: machine words as natural numbers with `% 2 ^ w` written out, lists with
-- native indices, masks of powers of two, and copies into a circular array.
--
-- A C function that changes a struct returns the new record beside its result. The calls of malloc
-- and calloc that make a ring are parameters, which give a block or fail; payloads stand on a heap of
-- blocks with fresh addresses, and a free of what is not allocated is a fault, `none`. Positions are
-- 64-bit counters that only go up; the theorems hold before one of them reaches 2^64. A loop over
-- bytes or entries is a recursion on a list or a count; fuel is 32 for the bits of a word, and one more
-- than the bytes of a list of protocols, and one more round of a flush than there are releases owed,
-- which is enough.
-- Loads and stores of two threads are sequentially consistent, which acquire and release give a
-- producer and a consumer that share just two counters, and which the fences and exchanges of the
-- wake-up protocols are there for. The wake descriptor is the kernel's: a parameter with the law that
-- it is readable after a write. The walks along the table of rings are bounded by the number of its
-- slots, and a walk that comes back to its start, where the code would loop for ever, is a fault.
--
-- Not modelled: the diagnostic counters of single call sites; the handlers of the QUIC stack's events in
-- src/aiopquic/_binding/c/callback.h and src/aiopquic/_binding/c/h3wt_callback.h beyond those of a
-- stream's bytes, of datagrams and of a WebTransport session, which are mostly calls of libraries
-- outside the repository; of the loop callback the commands that connect, close or ask for a snapshot,
-- which are such calls too; the opening and the destruction of a WebTransport session; litmus.h and
-- test_access.h, which only tests use; the Cython and Python layers, which are not C. The answers of picoquic, picowt and h3zero
-- are arguments of the definitions that use them.
pub mod Base
pub mod StreamBuf
pub mod DgramBuf
pub mod DgramTable
pub mod Bridge
pub mod Wt
pub mod SpscRing
pub mod StreamCtx
pub mod Tests
