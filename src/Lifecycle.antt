-- ===== src/Lifecycle.antt =====
-- backend/internal/migration: the life of a migration task, from state_machine.go and service.go.
pub mod Transitions
pub mod Service
pub mod Positions
pub mod Jobs
pub mod Workers
pub mod Control
pub mod Rollback
pub mod Staging
pub mod Applying
mod Tests
