-- ===== src/Store.antt =====
-- backend/internal/repository/memory/memory.go: the in-memory repository.
pub mod Defs
pub mod Control
pub mod Jobs
pub mod Spool
pub mod Positions
pub mod DeadLetters
mod Tests
