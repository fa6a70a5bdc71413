-- ===== src/Proxy.antt =====
-- src/proxy/handler.rs: the requests that the proxy reads and writes, and what it does with them.
pub mod Request
pub mod Rewrite
pub mod Response
pub mod Decision
pub mod Fallback
