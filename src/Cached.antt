-- ===== src/Cached.antt =====
-- app/db/cached: the cache in front of the database accessor.
pub mod Cache
pub mod Key
pub mod Accessor
pub mod EpochWatch
pub mod Entry
pub mod Methods
mod Examples
