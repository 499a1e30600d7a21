-- ===== src/Gate.antt =====
-- The writer gate of agent/crates/tinytop-store/src/lib.rs (`WriterGate`, `WriterGateLock`,
-- `WriterGateGuard`): a fair asynchronous mutex. Each poll and each drop runs under the inner
-- mutex, so it is one step; wakers are numbers, and `will_wake` is their equality.
pub mod Defs
pub mod System
pub mod Drain
pub mod Safety
pub mod Order
mod Tests
