-- ===== src/CdcRuntime.antt =====
-- backend/internal/cdc/runtime/runtime.go: the loop that every native CDC reader feeds.
pub mod Defs
pub mod Ordering
pub mod Ending
mod Tests
