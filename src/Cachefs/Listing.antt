-- ===== src/Cachefs/Listing.antt =====
-- `hello_readdir` of cachedfs/main.c. What it hands to the callback `filler` is its output.
pub mod Laws
pub mod Tokens
pub mod Growth
pub mod Populated
pub mod Added
use fuse_using_memcached.Prelude.{
  ℕ, zero, suc, ◌+◌, ◌-◌, ◌*◌, [], ◌∷◌, ◌++◌, Bool, ◌&&◌, ltb, leb, ◌==◌, if◌then◌else◌, List,
  Option, none, some, Bytes, codes, length,
}
use fuse_using_memcached.Machine.Word.{neg, is_negative, int_sub}
use fuse_using_memcached.Machine.Buffer.{Buffer, block, load, load_int, c_string}
use fuse_using_memcached.Machine.Cmd.{Cmd, pure, require, lift, ◌>>=◌, ◌>>◌}
use fuse_using_memcached.Memcache.Server.{Memcached}
use fuse_using_memcached.Memcache.Client.{cache_get}
use fuse_using_memcached.Cachefs.Layout.{num_buckets_at, enoent}
use fuse_using_memcached.Cachefs.Keys.{child_key}

-- `while(buffer[startIndex] != '/') startIndex--;`
unfoldable pub last_slash : ℕ → Buffer → Option ℕ
last_slash zero b = if b.at 0 == b'/' then some 0 else none
last_slash (suc i) b = if b.at (suc i) == b'/' then some (suc i) else last_slash i b

-- The last part of the path in a child's entry, copied to an array of 264 bytes.
unfoldable pub name_from : Buffer → ℕ → ℕ → Option Bytes
name_from buffer last_index slash =
    let count = last_index - slash in
    if leb (count + 1) 264 then some (c_string (load (suc slash) count buffer)) else none

unfoldable pub token_at : Buffer → ℕ → Option Bytes
unfolding name_from last_slash
token_at buffer last_index =
    if ltb last_index buffer.size
    then elim (last_slash last_index buffer) [
      | none ↦ none
      | some slash ↦ name_from buffer last_index slash
    ]
    else none

unfoldable pub last_token : Buffer → Option Bytes
unfolding token_at
last_token buffer = token_at buffer (int_sub (load_int 0 buffer) 1)

module _ (m : Memcached) (junk : ℕ → ℕ → ℕ) where
  unfoldable pub child_name : ℕ → Bytes → Cmd m.State Bytes
  unfolding last_token
  child_name i path = do
    require (leb (length (child_key i path) + 1) 250)
    got ← cache_get m (junk (2 + 2 * i)) (child_key i path) (block 1280 (junk (3 + 2 * i)))
    lift (last_token got.1)

  -- `for(i = i; rounds > 0; i++)`
  unfoldable pub child_names : ℕ → ℕ → Bytes → Cmd m.State (List Bytes)
  unfolding child_name
  child_names zero i path = pure []
  child_names (suc rounds) i path = do
    name ← child_name i path
    rest ← child_names rounds (suc i) path
    pure (name ∷ rest)

  unfoldable pub hello_readdir : Bytes → Cmd m.State (ℕ × List Bytes)
  unfolding child_names
  hello_readdir path = do
    got ← cache_get m (junk 0) path (block 1280 (junk 1))
    let cur = load_int num_buckets_at got.1
    if got.0 == neg 1 then pure (neg enoent, []) else do
      names ← child_names (if is_negative cur then 0 else cur) 1 path
      pure (0, codes "." ∷ codes ".." ∷ names)
