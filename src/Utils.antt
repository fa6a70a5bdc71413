-- ===== src/Utils.antt =====
-- src/utils: the evictable cache, and the containers that it shares with the DoH connection pool.
pub mod Containers
pub mod Evictable
