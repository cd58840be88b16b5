-- ===== src/Cachefs/Content/Roundtrip.antt =====
-- `hello_read` behind `hello_write`.
use fuse_using_memcached.Prelude.{
  ◌+◌, ◌*◌, ◌^◌, ◌≤◌, ◌<◌, ◌≡◌, refl, ℕ, some, Bytes, length, take, drop, arith, [], splice,
  length-splice, splice-empty,
}
use fuse_using_memcached.Memcache.Server.{Memcached}
use fuse_using_memcached.Cachefs.Layout.{Header}
use fuse_using_memcached.Cachefs.Content.{hello_read, hello_write}
use fuse_using_memcached.Cachefs.Content.Files.{IsFile}
use fuse_using_memcached.Cachefs.Content.Written.{lengthened}
use fuse_using_memcached.Cachefs.Content.Whole.{hello_write_lem}
use fuse_using_memcached.Cachefs.Content.Reading.{hello_read-slice}

module _ (m : Memcached) (junk junk' : ℕ → ℕ → ℕ) (s : m.State) (path bytes : Bytes) (h : Header)
    (fuel size offset : ℕ) where
  -- For bytes written from a place within a file's bytes on, or at their end, and a range of at least one byte of
  -- what the file then holds: `hello_write` returns the number of bytes written, and `hello_read` of the range
  -- then returns its size, gives exactly the range of the old bytes with the new ones in their place, and does not
  -- change the store. The memory that either call finds in its blocks plays no part. Rounds of the reading loop:
  -- at most the size. The bounds: fewer than 2 ^ 28 bytes in all, and a header's length that is no less than the
  -- bytes that there were and stays below 2 ^ 31.
  pub hello_read-splice :
      (old : Bytes) (at : ℕ)
      → IsFile m s path h old
      → at ≤ length old
      → length old ≤ h.data_len
      → length old + length bytes < 2 ^ 28
      → h.data_len + 5 * length bytes < 2 ^ 31
      → size ≤ fuel
      → 0 < size
      → offset + size ≤ length (splice at bytes old)
      → (s' : m.State) × (hello_write m junk path bytes at s ≡ some (length bytes, s'))
        × (hello_read m junk' fuel path size offset s'
            ≡ some ((size, take size (drop offset (splice at bytes old))), s'))
  hello_read-splice old at file inside covered few long enough some_bytes within =
      let (s', run, made, others) =
        hello_write_lem m junk path file.path_ok s h old bytes at file inside covered few long in
      let new = splice at bytes old in
      let size_is = length-splice at bytes old inside in
      (
        s',
        run,
        hello_read-slice m junk' path new (lengthened old new h) s' made (omega arith) fuel size
            offset enough some_bytes within (omega arith) (omega arith),
      )

  -- A new file.
  pub hello_read-hello_write :
      IsFile m s path h []
      → h.data_len ≡ 0
      → length bytes < 2 ^ 28
      → size ≤ fuel
      → 0 < size
      → offset + size ≤ length bytes
      → (s' : m.State) × (hello_write m junk path bytes 0 s ≡ some (length bytes, s'))
        × (hello_read m junk' fuel path size offset s'
            ≡ some ((size, take size (drop offset bytes)), s'))
  hello_read-hello_write file zero_length small enough some_bytes inside =
      let e = splice-empty 0 bytes [] refl refl in
      rw e at (
        hello_read-splice [] 0 file (omega arith) (omega arith) (omega arith) (omega arith) enough
          some_bytes (rw e inside))
