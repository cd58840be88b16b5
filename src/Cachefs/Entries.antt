-- ===== src/Cachefs/Entries.antt =====
-- Entries of directories: `addToParent`, `hello_mkdir`, `hello_create`, `hello_getattr` and
-- `hello_access` of cachedfs/main.c.
pub mod Laws
pub mod Status
use Prim.Native.Nat.{bit_or}
use fuse_using_memcached.Prelude.{
  ℕ, ◌+◌, [], ◌∷◌, ◌++◌, Bool, ◌&&◌, leb, ◌==◌, if◌then◌else◌, Option, none, some, Bytes, same,
  length,
}
use fuse_using_memcached.Machine.Word.{neg, is_negative, sign_extend}
use fuse_using_memcached.Machine.Buffer.{Buffer, block, store, load_int, store_int}
use fuse_using_memcached.Machine.Cmd.{Cmd, pure, require, lift, ◌>>=◌, ◌>>◌}
use fuse_using_memcached.Memcache.Server.{Memcached}
use fuse_using_memcached.Memcache.Client.{cache_get, cache_set}
use fuse_using_memcached.Cachefs.Layout.{
  is_dir_at, data_len_at, num_buckets_at, parent_index_at, xattr_num_at, enoent, efault,
}
use fuse_using_memcached.Cachefs.Keys.{root, child_key, parent_of}
use fuse_using_memcached.Cachefs.Counters.{increase_childrens_num}

-- The fields of `struct stat` that the program sets; the others are zero. The size is an `off_t`, of
-- 64 bits.
pub record Stat : Type 0 where
  pub st_mode : ℕ
  pub st_nlink : ℕ
  pub st_size : ℕ

abbrev s_ifdir : ℕ
s_ifdir = 0o040000

abbrev s_ifreg : ℕ
s_ifreg = 0o100000

-- What `hello_getattr` makes of the block that it read, also where nothing was read into it.
unfoldable pub stat_of : Buffer → Stat
stat_of mabuf =
    if load_int is_dir_at mabuf == 0
    then record {
      st_mode = bit_or s_ifreg 0o444;
      st_nlink = 1;
      st_size = sign_extend (load_int data_len_at mabuf);
    }
    else record { st_mode = bit_or s_ifdir 0o755; st_nlink = 2; st_size = 0 }

-- The block of `hello_mkdir`: `xattr_num` is not set.
abbrev pub dir_block : (junk : ℕ → ℕ) → ℕ → Buffer
dir_block junk parent_index = store_int parent_index_at parent_index (
    store_int data_len_at 0
      (store_int num_buckets_at 0 (store_int is_dir_at 1 (store_int 0 24 (block 24 junk)))))

-- The block of `hello_create`.
abbrev pub file_block : (junk : ℕ → ℕ) → ℕ → Buffer
file_block junk parent_index = store_int xattr_num_at 0 (
    store_int parent_index_at parent_index (
      store_int num_buckets_at 0
        (store_int data_len_at 0 (store_int is_dir_at 0 (store_int 0 24 (block 24 junk))))))

-- The block of `addToParent`: the path with its zero byte behind the size.
abbrev pub path_block : (junk : ℕ → ℕ) → Bytes → Buffer
path_block junk path = store 4 (path ++ (0 ∷ [])) (store_int 0 (4 + length path) (block 332 junk))

module _ (m : Memcached) (junk : ℕ → ℕ → ℕ) where
  unfoldable pub hello_getattr : Bytes → Cmd m.State (ℕ × Stat)
  unfolding stat_of
  hello_getattr path = do
    got ← cache_get m (junk 0) path (block 1280 (junk 1))
    pure (if got.0 == neg 1 then neg enoent else 0, stat_of got.1)

  unfoldable pub hello_access : Bytes → Cmd m.State ℕ
  hello_access path = do
    got ← cache_get m (junk 0) path (block 1280 (junk 1))
    pure (if got.0 == neg 1 then neg enoent else 0)

  -- A new last child of `parent`, whatever `curNum` is.
  unfoldable pub add_child : Bytes → Bytes → Cmd m.State ℕ
  add_child parent path = do
    cur_num ← increase_childrens_num m junk parent
    require (leb (length (child_key cur_num parent) + 1) 264 && leb (4 + length path + 1) 332)
    stored ←
        cache_set m (junk 3) (child_key cur_num parent) (path_block (junk 4) path) (4 + length path)
    pure cur_num

  unfoldable pub add_to_parent : Bytes → Cmd m.State ℕ
  unfolding add_child
  add_to_parent path =
      if same path root then pure 0 else (do parent ← lift (parent_of path); add_child parent path)

  unfoldable pub hello_mkdir : Bytes → Cmd m.State ℕ
  hello_mkdir path = do
    parent_index ← add_to_parent path
    if is_negative parent_index
        then pure (neg efault)
        else do stored ← cache_set m (junk 5) path (dir_block (junk 6) parent_index) 24; pure 0

  -- `none` where control reaches the end of the function with no `return`.
  unfoldable pub hello_create : Bytes → Cmd m.State (Option ℕ)
  hello_create path = do
    parent_index ← add_to_parent path
    if is_negative parent_index then pure none else do
      stored ← cache_set m (junk 5) path (file_block (junk 6) parent_index) 24
      pure (some 0)
