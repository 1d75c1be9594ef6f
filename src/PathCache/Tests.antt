-- ===== src/PathCache/Tests.antt =====
-- The caches over a concrete kernel, and each theorem at an input where its hypotheses hold.
pub mod Ascii
pub mod Inputs
mod Examples
