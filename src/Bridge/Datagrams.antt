-- ===== src/Bridge/Datagrams.antt =====
-- src/aiopquic/_binding/c/callback.h, the pull of a connection's datagrams by the QUIC stack, and the same in
-- src/aiopquic/_binding/c/h3wt_callback.h for those of a WebTransport session. Whether the stack gives a
-- buffer and whether there is memory for an event are arguments.
pub mod Records
use aiopquic.Base.{
  ℕ, ◌+◌, Bool, true, false, not, Option, none, some, List, u32, u64, ltb, leb, ◌==◌, if◌then◌else◌,
}
use aiopquic.DgramBuf.{DgramBuf, rec_hdr, peek_len, pop_into, used, drain_take}

-- What a request comes to: the size that the stack is told, whether it asks again, the datagram that it
-- gets, and whether the drain event goes out.
pub record Served : Type 0 where
  pub size : ℕ
  pub is_active : Bool
  pub datagram : Option (List ℕ)
  pub fired : Bool
  pub ring : DgramBuf

unfoldable pub fire_dgram_drain : Bool → DgramBuf → Bool × DgramBuf
fire_dgram_drain queued db =
    let (armed, db') = drain_take db in
    if not armed
    then (false, db')
    else if queued
    then (true, db')
    else (false, record db' { drain_pending = true })

unfoldable pub send_record : Bool → Bool → ℕ → DgramBuf → Served
send_record false queued size db = record {
  size = size;
  is_active = ltb (u32 (rec_hdr + size)) (used db);
  datagram = none;
  fired = false;
  ring = db;
}
send_record true queued size db =
    let (out, db') = pop_into db size in
    let (fired, db'') = fire_dgram_drain queued db' in
    record {
      size = size;
      is_active = ltb (u32 (rec_hdr + size)) (used db);
      datagram = some out;
      fired = fired;
      ring = db'';
    }

abbrev pub nothing : Bool → DgramBuf → Served
nothing is_active db = record {
  size = 0;
  is_active = is_active;
  datagram = none;
  fired = false;
  ring = db;
}

-- `space` is the room in the packet.
unfoldable pub prepare_datagram : Bool → Bool → ℕ → DgramBuf → Served
prepare_datagram given queued space db =
    let size = peek_len db in
    if size == 0
    then nothing false db
    else if leb size (u32 space)
    then send_record given queued size db
    else nothing true (record db { head_deferred = u64 (db.head_deferred + 1) })

-- For the ring of a session, where a record that is too large is turned away first.
unfoldable pub provide_datagram : Bool → Bool → ℕ → DgramBuf → Served
provide_datagram given queued space db =
    let size = peek_len db in
    if size == 0
    then nothing false db
    else if ltb (u32 space) size
    then nothing true (record db { head_deferred = u64 (db.head_deferred + 1) })
    else send_record given queued size db
