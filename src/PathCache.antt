-- ===== src/PathCache.antt =====
-- The path and listing caches of src/PathCache.c.
pub mod Kernel
pub mod Paths
pub mod Types
pub mod Insert
pub mod Lookup
pub mod Invalidate
pub mod Publish
pub mod Valid
pub mod Steps
pub mod Tests
