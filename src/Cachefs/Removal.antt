-- ===== src/Cachefs/Removal.antt =====
-- `hello_rmdir` and `hello_unlink` of cachedfs/main.c.
pub mod Entry
pub mod Laws
pub mod Cleanup
pub mod Directory
pub mod File
use fuse_using_memcached.Prelude.{
  ℕ, zero, suc, ◌+◌, ◌-◌, ◌++◌, ◌&&◌, leb, ◌==◌, if◌then◌else◌, Bytes, codes, same, length,
}
use fuse_using_memcached.Machine.Word.{neg, is_negative, int_add, int_ltb}
use fuse_using_memcached.Machine.Buffer.{Buffer, block, load, load_int, store_int, c_string}
use fuse_using_memcached.Machine.Cmd.{Cmd, pure, require, lift, ◌>>=◌, ◌>>◌}
use fuse_using_memcached.Memcache.Server.{Memcached}
use fuse_using_memcached.Memcache.Client.{cache_get, cache_set, cache_msg}
use fuse_using_memcached.Cachefs.Layout.{
  num_buckets_at, parent_index_at, xattr_num_at, eperm, enoent, enotdir, enotempty,
}
use fuse_using_memcached.Cachefs.Keys.{root, child_key, data_key, xattr_key, parent_of}
use fuse_using_memcached.Cachefs.Counters.{decrease_childrens_num}

module _ (m : Memcached) (junk : ℕ → ℕ → ℕ) where
  -- `delete`, in an array of 264 bytes, and the answer, in one of `size` bytes.
  unfoldable pub delete_key : (n size : ℕ) → Bytes → Cmd m.State (Unit {0})
  delete_key n size key = do
    require (leb (length key + 10) 264)
    answer ← cache_msg m (codes "delete " ++ (key ++ codes "\r\n")) (block size (junk n))
    pure tt

  -- The last child's entry, in `last`, goes to the place `index`; its header is told so.
  unfoldable pub move_last : Bytes → ℕ → Buffer → Cmd m.State (Unit {0})
  move_last key_to_change index last = do
    let elem_len = load_int 0 last
    stored ← cache_set m (junk 9) key_to_change last elem_len
    require (leb 4 elem_len && leb (elem_len - 4 + 1) 260)
    let key_buf = c_string (load 4 (elem_len - 4) last)
    got ← cache_get m (junk 10) key_buf (block 1280 (junk 11))
    let temp_buf = store_int parent_index_at index got.1
    moved ← cache_set m (junk 12) key_buf temp_buf (load_int 0 temp_buf)
    pure tt

  -- The part that the two functions share, from the read of the parent to the two deletions.
  unfoldable pub remove_entry : Bytes → Bytes → Buffer → Cmd m.State (Unit {0})
  unfolding move_last delete_key
  remove_entry path parent current_element = do
    parent_element ← cache_get m (junk 2) parent (block 1280 (junk 3))
    let parent_cur_num = load_int parent_index_at current_element
    require (leb (length (child_key parent_cur_num parent) + 1) 250)
    left ← decrease_childrens_num m (λ n. junk (4 + n)) parent
    let parent_max_index = int_add left 1
    require (leb (length (child_key parent_max_index parent) + 1) 250)
    last ← cache_get m (junk 7) (child_key parent_max_index parent) (block 1280 (junk 8))
    move_last (child_key parent_cur_num parent) parent_cur_num last.1
    delete_key 13 128 (child_key parent_max_index parent)
    delete_key 14 128 path

  unfoldable pub remove_dir : Bytes → Bytes → Cmd m.State ℕ
  unfolding remove_entry
  remove_dir path parent = do
    current_element ← cache_get m (junk 0) path (block 1280 (junk 1))
    if current_element.0 == neg 1
        then pure (neg enotdir)
        else if int_ltb 0 (load_int num_buckets_at current_element.1)
        then pure (neg enotempty)
        else (do remove_entry path parent current_element.1; pure 0)

  unfoldable pub hello_rmdir : Bytes → Cmd m.State ℕ
  unfolding remove_dir
  hello_rmdir path =
      if same path root
      then pure (neg eperm)
      else (do parent ← lift (parent_of path); remove_dir path parent)

  -- `for(i = i; rounds > 0; i++)`: deletes the entries `key_of i path`
  unfoldable pub delete_all : (ℕ → Bytes → Bytes) → ℕ → ℕ → Bytes → Cmd m.State (Unit {0})
  unfolding delete_key
  delete_all key_of zero i path = pure tt
  delete_all key_of (suc rounds) i path = do
    delete_key (15 + i) 1280 (key_of i path)
    delete_all key_of rounds (suc i) path

  unfoldable pub remove_file : Bytes → Bytes → Cmd m.State ℕ
  unfolding remove_entry delete_all
  remove_file path parent = do
    current_element ← cache_get m (junk 0) path (block 1280 (junk 1))
    let bucks_num = load_int num_buckets_at current_element.1
    let xattrs_num = load_int xattr_num_at current_element.1
    if current_element.0 == neg 1 then pure (neg enoent) else do
      remove_entry path parent current_element.1
      delete_all xattr_key (if is_negative xattrs_num then 0 else xattrs_num) 1 path
      delete_all data_key (if is_negative bucks_num then 0 else bucks_num) 1 path
      pure 0

  unfoldable pub hello_unlink : Bytes → Cmd m.State ℕ
  unfolding remove_file
  hello_unlink path =
      if same path root
      then pure (neg eperm)
      else (do parent ← lift (parent_of path); remove_file path parent)
