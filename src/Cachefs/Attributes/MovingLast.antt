-- ===== src/Cachefs/Attributes/MovingLast.antt =====
-- How `hello_removexattr` of cachedfs/main.c gives the last attribute another number.
use fuse_using_memcached.Prelude.{ℕ, ◌+◌, ◌^◌, ◌<◌, ◌≡◌, refl, some, Bytes, length, arith, le→leb}
use fuse_using_memcached.Machine.Buffer.{block, store, store_int}
use fuse_using_memcached.Memcache.Server.{Memcached}
use fuse_using_memcached.Memcache.Laws.{cache_get-hit, cache_set-put, cache_msg-delete}
use fuse_using_memcached.Cachefs.Keys.{xattr_key}
use fuse_using_memcached.Cachefs.Keys.Laws.{IsPath, xattr_key-IsKey, length-xattr_key}
use fuse_using_memcached.Cachefs.Attributes.{move_last_xattr}
use fuse_using_memcached.Cachefs.Attributes.Stored.{
  Xattr, IsXattr, xattr_cell, xattr_size, length-xattr_cell, xattr_cell-IsValue,
}
use fuse_using_memcached.Cachefs.Attributes.Listed.{HasXattr}
use fuse_using_memcached.Cachefs.Attributes.Moved.{load_int-moved, load-moved}

module _ (m : Memcached) (junk : ℕ → ℕ → ℕ) (path : Bytes) where
  open m use {view, put, delete, view-put, view-delete}

  pub move_last_xattr-put :
      (i n : ℕ) (x : Xattr) (s : m.State) (hx : HasXattr m s path n x)
      → IsPath path
      → i < 2 ^ 31
      → n < 2 ^ 31
      → IsXattr x
      → move_last_xattr m junk i n path s
        ≡ some (
          tt,
          delete (xattr_key n path) (put (xattr_key i path) (xattr_cell hx.mid hx.pad i x) s),
        )
  unfolding move_last_xattr
  move_last_xattr-put i n x s hx path_ok small few ok =
      let fits = ok.fits in
      let key = xattr_key-IsKey i small path_ok in
      let last_key = xattr_key-IsKey n few path_ok in
      let room = length-xattr_key n few path_ok in
      let size = length-xattr_cell hx.mid hx.pad n x hx.mid_length hx.pad_length ok in
      let b = block 66000 (junk 3) in
      let (reply, deleted) =
        cache_msg-delete m (xattr_key n path) (block 1024 (junk 5))
          (put (xattr_key i path) (xattr_cell hx.mid hx.pad i x) s) last_key in
      rw
        (
          le→leb (length (xattr_key n path) + 1) 250 (omega arith),
          cache_get-hit m (junk 2) (xattr_key n path) (xattr_cell hx.mid hx.pad n x) b s last_key
              (xattr_cell-IsValue hx.mid hx.pad n x hx.mid_length hx.pad_length ok) hx.stored
              (omega arith),
          load_int-moved hx.mid hx.pad x hx.mid_length hx.pad_length ok b n i,
          cache_set-put m (junk 4) (xattr_key i path)
              (store_int 16 i (store 0 (xattr_cell hx.mid hx.pad n x) b)) (xattr_size x) s key
              (omega arith) (omega arith),
          load-moved hx.mid hx.pad x hx.mid_length hx.pad_length ok b n i,
          le→leb (length (xattr_key n path) + 10) 264 (omega arith),
          deleted,
        )
        refl
