-- ===== src/ChangeFeed.antt =====
-- The change-feed follower of src/ChangeFeed.c, on top of the caches of src/PathCache.c.
pub mod State
pub mod Apply
pub mod Poll
pub mod Backoff
pub mod Shrinks
pub mod Forgotten
pub mod Live
mod Tests
