-- ===== src/Tests.antt =====
-- Concrete runs of the theorems.
mod Matching
mod Caching
mod Proxying
mod Naming
mod Storing
mod Resolving
mod Spoofing
