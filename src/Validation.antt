-- ===== src/Validation.antt =====
-- backend/internal/validation/checksum.go: the checksums that compare the source of a task with its target.
pub mod Values
pub mod Scanning
pub mod Checksums
pub mod Cells
pub mod Paging
pub mod Sums
pub mod Ordered
mod Tests
