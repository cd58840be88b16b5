-- ===== src/Cachefs/Attributes.antt =====
-- The extended attributes of cachedfs/main.c: `hello_setxattr`, `hello_getxattr`, `hello_listxattr`
-- and `hello_removexattr`.
pub mod Stored
pub mod Written
pub mod Listed
pub mod Adding
pub mod Finding
pub mod Moved
pub mod Places
pub mod Removing
pub mod NamesLoop
pub mod MovingLast
pub mod Names
use fuse_using_memcached.Prelude.{
  ℕ, zero, suc, ◌+◌, ◌*◌, [], ◌∷◌, ◌++◌, ltb, leb, ◌==◌, if◌then◌else◌, Option, none, some, Bytes,
  codes, same, length, min,
}
use fuse_using_memcached.Machine.Word.{neg, is_negative, int_add, int_sub}
use fuse_using_memcached.Machine.Buffer.{Buffer, block, store, load, load_int, store_int, c_string}
use fuse_using_memcached.Machine.Cmd.{Cmd, pure, require, lift, ◌>>=◌, ◌>>◌}
use fuse_using_memcached.Memcache.Server.{Memcached}
use fuse_using_memcached.Memcache.Client.{cache_get, cache_set, cache_msg}
use fuse_using_memcached.Cachefs.Layout.{
  is_dir_at, data_len_at, parent_index_at, xattr_num_at, max_bucket_size,
}
use fuse_using_memcached.Cachefs.Keys.{xattr_key}

-- The block of an attribute: the header, the name's length, the name, the value's length, which
-- takes the place of the name's zero byte, and the value.
abbrev pub xattr_block : (junk : ℕ → ℕ) → ℕ → Bytes → Bytes → Buffer
xattr_block junk index name value =
    let size = length value in
    let len = 4 + 2 * 4 + 20 + length name + size in
    store (24 + 2 * 4 + length name) value (
      store_int (24 + 4 + length name) size (
        store (4 + 20 + 4) (name ++ (0 ∷ [])) (
          store_int 24 (length name) (
            store_int parent_index_at index (
              store_int is_dir_at 2
                (store_int data_len_at size (store_int 0 len (block len junk))))))))

-- The name in an attribute's block, copied to an array of 250 bytes.
unfoldable pub cur_name : Buffer → Option Bytes
cur_name data' =
    let cur_len = load_int 24 data' in
    if ltb cur_len 250 then some (c_string (load 28 cur_len data')) else none

-- The value in an attribute's block, as much of it as `size` allows.
unfoldable pub xattr_value : Buffer → Bytes → ℕ → Option (ℕ × Bytes)
xattr_value data' name size =
    let data_len = load_int (28 + length name) data' in
    let count = if is_negative data_len then size else min size data_len in
    if leb (32 + length name + count) 66000
    then some (data_len, load (32 + length name) count data')
    else none

module _ (m : Memcached) (junk : ℕ → ℕ → ℕ) where
  unfoldable pub hello_setxattr : Bytes → Bytes → Bytes → Cmd m.State ℕ
  hello_setxattr path name value = do
    got ← cache_get m (junk 0) path (block max_bucket_size (junk 1))
    let new_i = int_add (load_int xattr_num_at got.1) 1
    let counted = store_int xattr_num_at new_i got.1
    stored ← cache_set m (junk 2) path counted (load_int 0 counted)
    require (leb (length (xattr_key new_i path) + 1) 250)
    let data' = xattr_block (junk 3) new_i name value
    added ← cache_set m (junk 4) (xattr_key new_i path) data' data'.size
    pure 0

  -- The attribute `i` in a block of 66000 bytes; what the call returns is not looked at.
  unfoldable pub get_xattr : ℕ → Bytes → Cmd m.State Buffer
  get_xattr i path = do
    require (leb (length (xattr_key i path) + 1) 250)
    got ← cache_get m (junk (2 * i)) (xattr_key i path) (block 66000 (junk (2 * i + 1)))
    pure got.1

  -- The first attribute from `i` on, of `rounds`, that is called `name`, and its number.
  unfoldable pub find_xattr : (rounds i : ℕ) → Bytes → Bytes → Cmd m.State (Option (ℕ × Buffer))
  unfolding get_xattr cur_name
  find_xattr zero i path name = pure none
  find_xattr (suc rounds) i path name = do
    data' ← get_xattr i path
    cur ← lift (cur_name data')
    if same name cur then pure (some (i, data')) else find_xattr rounds (i + 1) path name

  -- Gives the result and what stands in `value`, an array of `size` bytes.
  unfoldable pub hello_getxattr : Bytes → Bytes → ℕ → Cmd m.State (ℕ × Bytes)
  unfolding find_xattr
  hello_getxattr path name size = do
    got ← cache_get m (junk 0) path (block max_bucket_size (junk 1))
    let new_i = load_int xattr_num_at got.1
    found ← find_xattr (if is_negative new_i then 0 else new_i) 1 path name
    elim found [ none ↦ pure (neg 1, []) | some f ↦ lift (xattr_value f.1 name size) ]

  -- Gives the result and the caller's array `list`, filled from `pos` on.
  unfoldable pub list_loop : (rounds i pos new_i : ℕ) → Bytes → Buffer → Cmd m.State (ℕ × Buffer)
  unfolding get_xattr cur_name
  list_loop zero i pos new_i path list = pure (pos, list)
  list_loop (suc rounds) i pos new_i path list = do
    data' ← get_xattr i path
    cur ← lift (cur_name data')
    let cur_len = load_int 24 data'
    if ltb list.size (pos + cur_len + 1)
        then pure (new_i, list)
        else list_loop rounds (i + 1) (pos + cur_len + 1) new_i path
            (store pos (cur ++ (0 ∷ [])) list)

  unfoldable pub hello_listxattr : Bytes → Buffer → Cmd m.State (ℕ × Buffer)
  unfolding list_loop
  hello_listxattr path list = do
    got ← cache_get m (junk 0) path (block max_bucket_size (junk 1))
    let new_i = load_int xattr_num_at got.1
    if list.size == 0
        then pure (new_i, list)
        else list_loop (if is_negative new_i then 0 else new_i) 1 0 new_i path list

  -- The last attribute takes the place `removing_i`, and its own entry is deleted.
  unfoldable pub move_last_xattr : (removing_i new_i : ℕ) → Bytes → Cmd m.State (Unit {0})
  move_last_xattr removing_i new_i path = do
    require (leb (length (xattr_key new_i path) + 1) 250)
    got ← cache_get m (junk 2) (xattr_key new_i path) (block 66000 (junk 3))
    let last_data = store_int parent_index_at removing_i got.1
    stored ← cache_set m (junk 4) (xattr_key removing_i path) last_data (load_int 0 last_data)
    require (leb (length (xattr_key new_i path) + 10) 264)
    answer ←
        cache_msg m (codes "delete " ++ (xattr_key new_i path ++ codes "\r\n"))
          (block 1024 (junk 5))
    pure tt

module _ (m : Memcached) (junk : ℕ → ℕ → ℕ) where
  unfoldable pub hello_removexattr : Bytes → Bytes → Cmd m.State ℕ
  unfolding find_xattr move_last_xattr
  hello_removexattr path name = do
    got ← cache_get m (junk 0) path (block max_bucket_size (junk 2))
    let new_i = load_int xattr_num_at got.1
    let counted = store_int xattr_num_at (int_sub new_i 1) got.1
    found ←
        find_xattr m (λ n. junk (2 * n + 1)) (if is_negative new_i then 0 else new_i) 1 path name
    elim found [
      | none ↦ pure (neg 1)
      | some f ↦ (do
        stored ← cache_set m (junk 4) path counted (load_int 0 counted)
        moved ← move_last_xattr m (λ n. junk (2 * n + 2)) f.0 new_i path
        pure 0)
    ]
