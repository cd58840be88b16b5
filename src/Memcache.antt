-- ===== src/Memcache.antt =====
-- The client of cachedfs/memcache.c: `cache_get`, `cache_msg` and `cache_set`. The socket and the
-- server behind it are a parameter (Memcache/Server).
pub mod Server
pub mod Client
pub mod Replies
pub mod Laws
pub mod Dictionary
