-- ===== src/Cachefs/Content/Writing.antt =====
-- The new bucket that `hello_write` makes.
use fuse_using_memcached.Prelude.{
  ℕ, ◌+◌, ◌*◌, ◌^◌, ◌≤◌, ◌<◌, ◌≡◌, ap, ◌∙◌, ◌++◌, some, Bytes, length, arith, le→leb,
}
use fuse_using_memcached.Machine.Word.{int_bytes}
use fuse_using_memcached.Machine.Buffer.{Buffer, block, store, load, store_int}
use fuse_using_memcached.Machine.Buffer.Laws.{load-append, load-store}
use fuse_using_memcached.Memcache.Server.{Memcached}
use fuse_using_memcached.Memcache.Laws.{cache_set-put}
use fuse_using_memcached.Cachefs.Layout.{cell}
use fuse_using_memcached.Cachefs.Keys.{data_key}
use fuse_using_memcached.Cachefs.Keys.Laws.{IsPath, data_key-IsKey, length-data_key}
use fuse_using_memcached.Cachefs.Content.{write_new}

load-data_block :
    (bytes : Bytes) (blk : Buffer)
    → load 0 (length bytes + 4) (store 4 bytes (store_int 0 (4 + length bytes) blk)) ≡ cell bytes
unfolding load
load-data_block bytes blk =
    let b = store 4 bytes (store_int 0 (4 + length bytes) blk) in
    let e : length bytes + 4 ≡ 4 + length bytes = omega arith in
    ap (λ n. load 0 n b) e
    ∙ load-append 0 4 (length bytes) b
    ∙ ap (λ t. int_bytes (4 + length bytes) ++ t)
        (load-store 4 bytes (store_int 0 (4 + length bytes) blk))

module _ (m : Memcached) (junk : ℕ → ℕ → ℕ) (path : Bytes) (ok : IsPath path) where
  open m use {view, put, view-put}

  pub write_new-put :
      (i : ℕ) (bytes : Bytes) (s : m.State)
      → i < 2 ^ 31
      → length bytes ≤ 1024
      → write_new m junk i path bytes s ≡ some (tt, put (data_key i path) (cell bytes) s)
  unfolding write_new
  write_new-put i bytes s small short =
      let blk = block 1224 (junk (3 * i + 2)) in
      rw (
        le→leb (length (data_key i path) + 1) 250 (omega (arith, length-data_key i small ok)),
        cache_set-put m (junk (3 * i + 3)) (data_key i path)
            (store 4 bytes (store_int 0 (4 + length bytes) blk)) (length bytes + 4) s
            (data_key-IsKey i small ok) (omega arith) (omega arith),
        load-data_block bytes blk,
      )
