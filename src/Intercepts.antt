-- ===== src/Intercepts.antt =====
-- src/intercepts: path patterns, the request matcher and mirror health.
pub mod Pattern
pub mod Matcher
pub mod Defaults
pub mod Mirrors
