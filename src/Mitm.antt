-- ===== src/Mitm.antt =====
-- src/mitm: the connections to origins under another SNI. The handshakes are rustls's: whether a
-- connection attempt succeeds is part of the event that it completes.
pub mod Race
pub mod Streaming
