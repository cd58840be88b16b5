-- ===== src/Cachefs/Counters.antt =====
-- The counters of a header: `increaseChildrensNum`, `decreaseChildrensNum`, `increaseXattrNum` and
-- `decreaseXattrNum` of cachedfs/main.c. `junk n` is what the n-th block held that a call takes,
-- before the call wrote it; so in every module of Cachefs.
pub mod Laws
use fuse_using_memcached.Prelude.{ℕ, ◌==◌, if◌then◌else◌, Bytes}
use fuse_using_memcached.Machine.Word.{neg, int_add, int_sub}
use fuse_using_memcached.Machine.Buffer.{block, load_int, store_int}
use fuse_using_memcached.Machine.Cmd.{Cmd, pure, ◌>>=◌}
use fuse_using_memcached.Memcache.Server.{Memcached}
use fuse_using_memcached.Memcache.Client.{cache_get, cache_set}
use fuse_using_memcached.Cachefs.Layout.{num_buckets_at, xattr_num_at}

module _ (m : Memcached) (junk : ℕ → ℕ → ℕ) where
  -- The field at `at` becomes `next` of itself, and the header is written back.
  change_counter : (at : ℕ) (next : ℕ → ℕ) → Bytes → Cmd m.State ℕ
  change_counter at next path = do
    got ← cache_get m (junk 0) path (block 1280 (junk 1))
    let cur = next (load_int at got.1)
    if got.0 == neg 1
        then pure (neg 1)
        else do stored ← cache_set m (junk 2) path (store_int at cur got.1) 24; pure cur

  unfoldable pub increase_childrens_num : Bytes → Cmd m.State ℕ
  unfolding change_counter
  increase_childrens_num = change_counter num_buckets_at (λ n. int_add n 1)

  unfoldable pub decrease_childrens_num : Bytes → Cmd m.State ℕ
  unfolding change_counter
  decrease_childrens_num = change_counter num_buckets_at (λ n. int_sub n 1)

  unfoldable pub increase_xattr_num : Bytes → Cmd m.State ℕ
  unfolding change_counter
  increase_xattr_num = change_counter xattr_num_at (λ n. int_add n 1)

  unfoldable pub decrease_xattr_num : Bytes → Cmd m.State ℕ
  unfolding change_counter
  decrease_xattr_num = change_counter xattr_num_at (λ n. int_sub n 1)
