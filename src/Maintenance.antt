-- ===== src/Maintenance.antt =====
-- The maintenance tick: agent/crates/tinytop-store/src/maintenance.rs.
pub mod Defs
pub mod Promote
pub mod Prune
pub mod Tick
pub mod Refold
mod Keeps
pub mod Frames
mod PruneFrames
mod PromoteKeeps
mod PromoteSteps
mod Remaining
mod PromoteEnds
mod RefoldKeeps
mod MayGo
mod KeptL2
mod Authority
mod KeptL4
mod Tests
