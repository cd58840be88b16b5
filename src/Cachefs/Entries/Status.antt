-- ===== src/Cachefs/Entries/Status.antt =====
-- What `hello_getattr` and `hello_access` of cachedfs/main.c say of a path.
use fuse_using_memcached.Prelude.{
  ℕ, ◌^◌, ◌<◌, ◌≡◌, refl, lt→leb_false, none, if◌then◌else◌, ◌==◌, some, Bytes,
}
use fuse_using_memcached.Machine.Word.{neg, sign_extend}
use fuse_using_memcached.Machine.Buffer.{block}
use fuse_using_memcached.Memcache.Server.{Memcached}
use fuse_using_memcached.Cachefs.Layout.{Header, IsHeader, header_cell, enoent}
use fuse_using_memcached.Cachefs.Keys.Laws.{IsPath, IsPath-IsKey}
use fuse_using_memcached.Cachefs.Counters.Laws.{get_header, get_missing, load-is_dir, load-data_len}
use fuse_using_memcached.Cachefs.Entries.{Stat, stat_of, hello_getattr, hello_access}

abbrev pub file_stat : (size : ℕ) → Stat
file_stat size = record { st_mode = 0o100444; st_nlink = 1; st_size = size }

pub sign_extend_small : (w : ℕ) → w < 2 ^ 31 → sign_extend w ≡ w
sign_extend_small w small = rw (lt→leb_false (2 ^ 31) w small) refl

abbrev pub dir_stat : Stat
dir_stat = record { st_mode = 0o040755; st_nlink = 2; st_size = 0 }

module _ (m : Memcached) (junk : ℕ → ℕ → ℕ) (s : m.State) (path : Bytes) (ok : IsPath path) where
  open m use {view}

  module _ (h : Header) (fields : IsHeader h) (here : view s path ≡ some (header_cell h)) where
    -- A path with a header as main value can be accessed, and `hello_getattr` shows a read-only file
    -- with the header's length, which is negative from 2 ^ 31 on, or a directory, as `is_dir` says.
    -- The store does not change.
    pub hello_getattr-header :
        (hello_access m junk path s ≡ some (0, s))
        × (hello_getattr m junk path s
            ≡ some ((0, if h.is_dir == 0 then file_stat (sign_extend h.data_len) else dir_stat), s))
    unfolding hello_getattr hello_access stat_of
    hello_getattr-header =
        let blk = block 1280 (junk 1) in
        let got = get_header m junk path s (IsPath-IsKey ok) h fields here 0 1 in
        (rw got refl, rw (got, load-is_dir h blk fields, load-data_len h blk fields) refl)

  -- For a path with no main value `hello_access` and `hello_getattr` return -ENOENT, and the store does
  -- not change.
  pub hello_getattr-missing :
      view s path ≡ none
      → (hello_access m junk path s ≡ some (neg enoent, s))
        × ((stat : Stat) × (hello_getattr m junk path s ≡ some ((neg enoent, stat), s)))
  unfolding hello_getattr hello_access
  hello_getattr-missing gone =
      let missing = get_missing m junk path s (IsPath-IsKey ok) gone 0 1 in
      (rw missing refl, (stat_of (block 1280 (junk 1)), rw missing refl))
