-- ===== src/Config.antt =====
-- src/core/config.rs
pub mod Intercept
pub mod Sections
pub mod Defaults
pub mod Load
