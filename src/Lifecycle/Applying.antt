-- ===== src/Lifecycle/Applying.antt =====
-- service.go: how a source transaction reaches the target and its position the store, and what a crash
-- in between leaves.
pub mod Effects
pub mod Fence
pub mod Events
pub mod Kept
pub mod Progress
pub mod Once
pub mod Acknowledged
pub mod Recovery
pub mod Replays
pub mod Spooled
pub mod Draining
pub mod Drained
pub mod Rounds
mod Tests
