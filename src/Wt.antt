-- ===== src/Wt.antt =====
-- src/aiopquic/_binding/c/h3wt_callback.h, WebTransport over HTTP/3: the parts that are not calls of the
-- HTTP/3 stack.
pub mod Codes
pub mod Session
pub mod Streams
pub mod Protocols
