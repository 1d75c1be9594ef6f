-- ===== src/DiskCache.antt =====
-- The disk cache's index, of src/DiskCacheIndex.c.
pub mod Types
pub mod Index
mod Tests
