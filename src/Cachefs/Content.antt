-- ===== src/Cachefs/Content.antt =====
-- `hello_read` and `hello_write` of cachedfs/main.c. An `off_t` is its 64-bit pattern.
pub mod Files
pub mod Spliced
pub mod Overwriting
pub mod Written
pub mod Splicing
pub mod Writing
pub mod Whole
pub mod Reading
pub mod Roundtrip
use fuse_using_memcached.Prelude.{
  ℕ, zero, suc, ◌+◌, ◌-◌, ◌*◌, ◌/◌, ◌%◌, ◌^◌, [], ◌∷◌, ◌++◌, not, ◌||◌, ltb, leb, ◌==◌,
  if◌then◌else◌, Bytes, length, take, drop, min,
}
use fuse_using_memcached.Machine.Word.{is_negative, int_add, int_sub, int_ltb}
use fuse_using_memcached.Machine.Buffer.{Buffer, block, store, load, load_int, store_int}
use fuse_using_memcached.Machine.Cmd.{Cmd, pure, undefined, require, ◌>>=◌, ◌>>◌}
use fuse_using_memcached.Memcache.Server.{Memcached}
use fuse_using_memcached.Memcache.Client.{cache_get, cache_set}
use fuse_using_memcached.Cachefs.Layout.{
  data_len_at, num_buckets_at, max_bucket_size, space_for_structs,
}
use fuse_using_memcached.Cachefs.Keys.{data_key}

-- How many bytes the round at `offset` copies from a bucket with `bucket_data_len` bytes.
unfoldable pub read_amount : (size offset bucket_data_len : ℕ) → ℕ
read_amount size offset bucket_data_len =
    let start = offset % max_bucket_size in min (min size (max_bucket_size - start)) bucket_data_len

module _ (m : Memcached) (junk : ℕ → ℕ → ℕ) where
  -- A bucket's block, for the key in an array of 250 bytes. What the call returns is not looked at.
  unfoldable pub get_bucket : ℕ → Bytes → Cmd m.State Buffer
  get_bucket i path = do
    require (leb (length (data_key i path) + 1) 250)
    got ←
        cache_get m (junk (2 * i)) (data_key i path)
          (block (space_for_structs + max_bucket_size) (junk (2 * i + 1)))
    pure got.1

  -- `while(size > 0)` of `hello_read`; gives what it adds to `buf`. A negative length would be
  -- copied as a huge one. Out of fuel, the loop does not end.
  unfoldable pub read_loop : (fuel size offset first_bucket_index : ℕ) → Bytes → Cmd m.State Bytes
  unfolding get_bucket read_amount
  read_loop zero size offset i path = if size == 0 then pure [] else undefined
  read_loop (suc fuel) size offset i path = if size == 0 then pure [] else do
    data' ← get_bucket i path
    let bucket_data_len = int_sub (load_int 0 data') 4
    require (not (is_negative bucket_data_len))
    let amount = read_amount size offset bucket_data_len
    rest ← read_loop fuel (size - amount) (offset + amount) (i + 1) path
    pure (load (4 + offset % max_bucket_size) amount data' ++ rest)

  -- Gives the result and what stands in `buf`.
  unfoldable pub hello_read : (fuel : ℕ) → Bytes → (size offset : ℕ) → Cmd m.State (ℕ × Bytes)
  unfolding read_loop
  hello_read fuel path size offset = if leb (2 ^ 63) offset then pure (0, []) else do
    headers ← cache_get m (junk 0) path (block 1280 (junk 1))
    let cur_length = load_int data_len_at headers.1
    let size' = if ltb cur_length ((offset + size) % 2 ^ 64) then cur_length - offset else size
    if is_negative cur_length || leb cur_length offset then pure (0, []) else do
      out ← read_loop fuel size' offset (offset / max_bucket_size + 1) path
      pure (size' % 2 ^ 32, out)

  -- A new bucket: the next bytes of `buf` from its start, whatever the offset is.
  unfoldable pub write_new : ℕ → Bytes → Bytes → Cmd m.State (Unit {0})
  write_new i path bytes = do
    require (leb (length (data_key i path) + 1) 250)
    let data' = store 4 bytes (
        store_int 0 (4 + length bytes)
          (block (space_for_structs + max_bucket_size) (junk (3 * i + 2))))
    stored ← cache_set m (junk (3 * i + 3)) (data_key i path) data' (length bytes + 4)
    pure tt

  -- A bucket that exists, overwritten from `start` on; gives its old and its new length.
  unfoldable pub write_old : ℕ → Bytes → ℕ → Bytes → Cmd m.State (ℕ × ℕ)
  write_old i path start bytes = do
    require (leb (length (data_key i path) + 1) 250)
    got ←
        cache_get m (junk (3 * i + 2)) (data_key i path)
          (block (space_for_structs + max_bucket_size) (junk (3 * i + 3)))
    let old_len = int_sub (load_int 0 got.1) 4
    let end = start + length bytes
    let new_len = if int_ltb end old_len then old_len else end
    let data' = store_int 0 (int_add new_len 4) (store (4 + start) bytes got.1)
    stored ← cache_set m (junk (3 * i + 4)) (data_key i path) data' (int_add new_len 4)
    pure (old_len, new_len)

  -- `while(size > 0)` of `hello_write`, over the bytes left and the block `headers`.
  unfoldable pub write_loop :
      (fuel : ℕ) → Bytes → (offset first_bucket_index : ℕ) → Bytes → Buffer → Cmd m.State Buffer
  unfolding write_new write_old
  write_loop zero bytes offset i path headers =
      if length bytes == 0 then pure headers else undefined
  write_loop (suc fuel) bytes offset i path headers =
      if length bytes == 0
      then pure headers
      else (if int_ltb (load_int num_buckets_at headers) i
          then (do
            let amount = min (length bytes) max_bucket_size
            let counted =
                store_int num_buckets_at (int_add (load_int num_buckets_at headers) 1) headers
            let longer = int_add (int_add (load_int data_len_at headers) amount) 4
            written ← write_new i path (take amount bytes)
            write_loop fuel (drop amount bytes) (offset + amount) (i + 1) path
                (store_int data_len_at longer counted))
          else (do
            let start = offset % max_bucket_size
            let amount = min (length bytes) (max_bucket_size - start)
            lens ← write_old i path start (take amount bytes)
            let longer = int_add (load_int data_len_at headers) (int_sub lens.1 lens.0)
            write_loop fuel (drop amount bytes) (offset + amount) (i + 1) path
                (store_int data_len_at longer headers)))

  -- The loop and what follows it, for a header whose length is at least the offset. Each round
  -- writes a byte at least, so the fuel is the number of bytes.
  unfoldable pub write_at : Bytes → Bytes → ℕ → Buffer → Cmd m.State ℕ
  unfolding write_loop
  write_at path bytes offset headers = do
    headers' ← write_loop (length bytes) bytes offset (1 + offset / max_bucket_size) path headers
    stored ← cache_set m (junk 0) path headers' 24
    pure (length bytes % 2 ^ 32)

abbrev pub zeros : ℕ → Bytes
zeros zero = []
zeros (suc n) = 0 ∷ zeros n

module _ (m : Memcached) where
  -- `hello_write` with a bound on the depth of its calls of itself: behind the end, it first writes
  -- zeros from the end to the offset. A length of 2 ^ 31 bytes or more, which is a negative `int`,
  -- is outside the model. The header of the outer call is the one read before the inner call.
  unfoldable pub write_deep : (depth : ℕ) (junk : ℕ → ℕ → ℕ) → Bytes → Bytes → ℕ → Cmd m.State ℕ
  unfolding write_at
  write_deep zero junk path bytes offset = undefined
  write_deep (suc depth) junk path bytes offset = do
    headers ← cache_get m (junk 0) path (block 1280 (junk 1))
    let cur_length = load_int data_len_at headers.1
    require (not (is_negative cur_length))
    if ltb cur_length offset
        then (do
          gap ←
              write_deep depth (λ n. junk (2 * n + 3)) path (zeros (offset - cur_length)) cur_length
          write_at m (λ n. junk (2 * n + 2)) path bytes offset
              (store_int data_len_at (offset % 2 ^ 32) headers.1))
        else write_at m (λ n. junk (2 * n + 2)) path bytes offset headers.1

  unfoldable pub hello_write : (junk : ℕ → ℕ → ℕ) → Bytes → Bytes → ℕ → Cmd m.State ℕ
  unfolding write_deep
  hello_write = write_deep 2
