-- ===== src/OrderedMerge.antt =====
-- backend/internal/cdc/orderedmerge/merge.go: the merge of ordered transaction streams.
pub mod Defs
pub mod Sorting
pub mod Grouping
pub mod Collecting
pub mod Merging
mod Tests
