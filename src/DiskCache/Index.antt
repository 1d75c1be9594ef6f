-- ===== src/DiskCache/Index.antt =====
-- The operations of src/DiskCacheIndex.c.
pub mod Chain
pub mod Clock
pub mod Pins
pub mod Plan
pub mod Admission
