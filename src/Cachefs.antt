-- ===== src/Cachefs.antt =====
-- The file system of cachedfs/main.c over the memcached client.
pub mod Layout
pub mod Keys
pub mod Counters
pub mod Entries
pub mod Startup
pub mod Listing
pub mod Removal
pub mod Refinement
pub mod Content
pub mod Attributes
pub mod Lifecycle
