-- ===== src/Cache.antt =====
-- src/cache/: the resources that the proxy keeps in files, with an index of what it kept.
pub mod Cacheable
pub mod Files
pub mod Store
pub mod Cleanup
pub mod Sizes
pub mod Paths
pub mod Effect
pub mod RoundTrip
pub mod Expiry
pub mod Removal
pub mod Clear
pub mod Budget
pub mod WellFormed
pub mod Calls
pub mod Victims
pub mod Evict
pub mod Limit
