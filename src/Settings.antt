-- ===== src/Settings.antt =====
-- The settings of the dashboard daemon.
pub mod Thermal
pub mod Otel
pub mod Dashboard
pub mod Changes
pub mod Defaults
mod Tests
