-- ===== src/Cachefs/Startup.antt =====
-- `init_check` and `hello_init` of cachedfs/main.c, behind the connection that `cache_init` makes.
pub mod Laws
use fuse_using_memcached.Prelude.{ℕ, ◌+◌, ◌==◌, if◌then◌else◌, Bytes, codes}
use fuse_using_memcached.Machine.Word.{neg}
use fuse_using_memcached.Machine.Buffer.{Buffer, block, load_int, store_int}
use fuse_using_memcached.Machine.Cmd.{Cmd, pure, ◌>>=◌}
use fuse_using_memcached.Memcache.Server.{Memcached}
use fuse_using_memcached.Memcache.Client.{cache_get, cache_set, cache_msg}
use fuse_using_memcached.Cachefs.Layout.{total_bytes_at, block_size_at, max_bucket_size}
use fuse_using_memcached.Cachefs.Keys.{root}
use fuse_using_memcached.Cachefs.Entries.{hello_mkdir}

abbrev pub stats_key : Bytes
stats_key = codes "stats"

abbrev pub stats_block : (junk : ℕ → ℕ) → Buffer
stats_block junk =
    store_int block_size_at max_bucket_size
      (store_int total_bytes_at 0 (store_int 0 12 (block 12 junk)))

module _ (m : Memcached) (junk : ℕ → ℕ → ℕ) where
  unfoldable pub init_check : Cmd m.State ℕ
  init_check = do
    got ← cache_get m (junk 0) stats_key (block 128 (junk 1))
    pure (
        if got.0 == neg 1
        then 0
        else if load_int block_size_at got.1 == max_bucket_size
        then 1
        else 0)

  -- The first start, or a start with another bucket size: everything is flushed.
  unfoldable pub format_store : Cmd m.State (Unit {0})
  format_store = do
    flushed ← cache_msg m (codes "flush_all\n") (block 32 (junk 2))
    ans ← cache_set m (junk 3) stats_key (stats_block (junk 4)) 12
    made ← hello_mkdir m (λ n. junk (5 + n)) root
    pure tt

  unfoldable pub hello_init : Cmd m.State (Unit {0})
  unfolding init_check format_store
  hello_init = do usable ← init_check; if usable == 0 then format_store else pure tt
