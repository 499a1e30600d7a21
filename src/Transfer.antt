-- ===== src/Transfer.antt =====
-- Export and import of settings: agent/crates/tinytop-store/src/settings_transfer.rs.
pub mod Json
pub mod Defs
pub mod Plan
pub mod Reads
pub mod Planned
pub mod Envelope
pub mod Laws
pub mod Counts
pub mod Deletes
pub mod RoundTrip
mod Tests
