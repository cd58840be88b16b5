-- ===== src/Cachefs/Counters/Laws.antt =====
-- What a change of a counter does to the store, where the header is there and where it is not.
use fuse_using_memcached.Prelude.{ℕ, ◌≡◌, refl, some, none, Bytes, arith}
use fuse_using_memcached.Machine.Word.{neg, int_add, int_sub, int_of-int_bytes}
use fuse_using_memcached.Machine.Buffer.{Buffer, block, store, load, load_int, store_int}
use fuse_using_memcached.Memcache.Server.{Memcached, IsKey}
use fuse_using_memcached.Memcache.Client.{cache_get}
use fuse_using_memcached.Memcache.Replies.{IsValue}
use fuse_using_memcached.Memcache.Laws.{cache_get-hit, cache_get-miss, cache_set-put}
use fuse_using_memcached.Cachefs.Layout.{Header, IsHeader, header_cell}
use fuse_using_memcached.Cachefs.Counters.{increase_childrens_num, decrease_childrens_num}

pub header_cell-IsValue : (h : Header) → IsValue (header_cell h)
header_cell-IsValue h = record { whole = omega arith; sized = refl; fits = omega arith }

-- The fields of a header that was read into a block.
module _ (h : Header) (b : Buffer) (fields : IsHeader h) where
  pub load-is_dir : load_int 4 (store 0 (header_cell h) b) ≡ h.is_dir
  load-is_dir = int_of-int_bytes h.is_dir fields.is_dir

  pub load-data_len : load_int 8 (store 0 (header_cell h) b) ≡ h.data_len
  load-data_len = int_of-int_bytes h.data_len fields.data_len

  pub load-num_buckets : load_int 12 (store 0 (header_cell h) b) ≡ h.num_buckets
  load-num_buckets = int_of-int_bytes h.num_buckets fields.num_buckets

  pub load-parent_index : load_int 16 (store 0 (header_cell h) b) ≡ h.parent_index
  load-parent_index = int_of-int_bytes h.parent_index fields.parent_index

  pub load-xattr_num : load_int 20 (store 0 (header_cell h) b) ≡ h.xattr_num
  load-xattr_num = int_of-int_bytes h.xattr_num fields.xattr_num

module _ (h : Header) (b : Buffer) (n : ℕ) where
  pub store-num_buckets :
      load 0 24 (store_int 12 n (store 0 (header_cell h) b))
      ≡ header_cell (record h { num_buckets = n })
  unfolding load
  store-num_buckets = refl

  pub store-xattr_num :
      load 0 24 (store_int 20 n (store 0 (header_cell h) b))
      ≡ header_cell (record h { xattr_num = n })
  unfolding load
  store-xattr_num = refl

  pub store-parent_index :
      load 0 24 (store_int 16 n (store 0 (header_cell h) b))
      ≡ header_cell (record h { parent_index = n })
  unfolding load
  store-parent_index = refl

module _ (m : Memcached) (junk : ℕ → ℕ → ℕ) (path : Bytes) (s : m.State) (key : IsKey path) where
  open m use {view, put}

  module _ (h : Header) (fields : IsHeader h) (here : view s path ≡ some (header_cell h)) where
    -- The read of a header by `cache_get` into a block of 1280 bytes.
    pub get_header :
        (n k : ℕ)
        → cache_get m (junk n) path (block 1280 (junk k)) s
          ≡ some ((0, store 0 (header_cell h) (block 1280 (junk k))), s)
    get_header n k =
        cache_get-hit m (junk n) path (header_cell h) (block 1280 (junk k)) s key
          (header_cell-IsValue h) here (omega arith)

    -- One more child: the new number is returned and stays in the header.
    pub increase_childrens_num-put :
        increase_childrens_num m junk path s
        ≡ some (
          int_add h.num_buckets 1,
          put path (header_cell (record h { num_buckets = int_add h.num_buckets 1 })) s,
        )
    unfolding increase_childrens_num
    increase_childrens_num-put =
        let b = store 0 (header_cell h) (block 1280 (junk 1)) in
        let n = int_add h.num_buckets 1 in
        rw (
          get_header 0 1,
          load-num_buckets h (block 1280 (junk 1)) fields,
          cache_set-put m (junk 2) path (store_int 12 n b) 24 s key (omega arith) (omega arith),
          store-num_buckets h (block 1280 (junk 1)) n,
        )

    -- One child less.
    pub decrease_childrens_num-put :
        decrease_childrens_num m junk path s
        ≡ some (
          int_sub h.num_buckets 1,
          put path (header_cell (record h { num_buckets = int_sub h.num_buckets 1 })) s,
        )
    unfolding decrease_childrens_num
    decrease_childrens_num-put =
        let b = store 0 (header_cell h) (block 1280 (junk 1)) in
        let n = int_sub h.num_buckets 1 in
        rw (
          get_header 0 1,
          load-num_buckets h (block 1280 (junk 1)) fields,
          cache_set-put m (junk 2) path (store_int 12 n b) 24 s key (omega arith) (omega arith),
          store-num_buckets h (block 1280 (junk 1)) n,
        )

  module _ (gone : view s path ≡ none) where
    pub get_missing :
        (n k : ℕ)
        → cache_get m (junk n) path (block 1280 (junk k)) s ≡ some ((neg 1, block 1280 (junk k)), s)
    get_missing n k = cache_get-miss m (junk n) path (block 1280 (junk k)) s key gone

    pub increase_childrens_num-missing : increase_childrens_num m junk path s ≡ some (neg 1, s)
    unfolding increase_childrens_num
    increase_childrens_num-missing = rw (get_missing 0 1)
