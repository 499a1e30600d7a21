-- ===== src/Disk.antt =====
-- Disk pressure: agent/crates/tinytop-store/src/disk.rs.
pub mod Defs
pub mod Markers
mod Mounts
mod Tests
