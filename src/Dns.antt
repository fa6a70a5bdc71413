-- ===== src/Dns.antt =====
-- src/dns: the addresses and their filter, the DNS wire format, the choice of DoH servers, and the
-- pool of connections to them.
pub mod Prober
pub mod Working
pub mod Stream
pub mod Queries
pub mod Exchange
pub mod Resolver
pub mod Ip
pub mod Base64
pub mod Message
pub mod Pool
pub mod Endpoints
