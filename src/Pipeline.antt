-- ===== src/Pipeline.antt =====
-- backend/internal/pipeline/full.go: the size of the batches that a full copy reads, and its two threads.
pub mod Batching
pub mod Running
mod Tests
