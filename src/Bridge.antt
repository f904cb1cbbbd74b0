-- ===== src/Bridge.antt =====
-- src/aiopquic/_binding/c/callback.h, the bridge between the network thread and asyncio: the parts of
-- the context that the worker's callbacks and the asyncio side share.
pub mod Alpn
pub mod Reasons
pub mod Wake
pub mod Sleep
pub mod Resets
pub mod Rules
pub mod Drain
pub mod Datagrams
pub mod Pull
pub mod Receive
pub mod Worker
pub mod Releases
