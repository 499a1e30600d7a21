-- ===== src/Retention.antt =====
-- agent/crates/tinytop-store/src/retention_ladder.rs: the retention settings, their validation,
-- the legacy aliases and the conversion to the maintenance configuration. An absolute path is one
-- of Unix; what serde decodes is taken as decoded.
pub mod Defs
pub mod Validity
pub mod Growth
pub mod Legacy
pub mod Config
mod Tests
