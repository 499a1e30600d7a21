-- ===== src/Tiers.antt =====
-- agent/crates/tinytop-store/src/ladder.rs: the four tiers of the history, the times of their
-- buckets, and the fold of finer buckets into a coarser one.
pub mod Defs
pub mod Time
mod Reduce
mod Fold
pub mod TwoLevel
mod Tests
