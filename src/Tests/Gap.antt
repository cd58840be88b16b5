-- ===== src/Tests/Gap.antt =====
-- A write of "cd" at offset 3 of an empty file, and a read of 5 bytes from its start.
use fuse_using_memcached.Prelude.{ℕ, ◌≡◌, refl, [], ◌∷◌, Option, none, some, Bytes, codes}
use fuse_using_memcached.Machine.Decimal.{sprintf_d, decimal}
use fuse_using_memcached.Machine.Cmd.{Cmd, pure, ◌>>=◌}
use fuse_using_memcached.Memcache.Client.{
  cache_get, cache_set, read_value, find_newline, copy_value,
}
use fuse_using_memcached.Memcache.Dictionary.{Entries, store_entry, dictionary, serve_request}
use fuse_using_memcached.Cachefs.Layout.{header_cell}
use fuse_using_memcached.Cachefs.Keys.{child_key, data_key}
use fuse_using_memcached.Cachefs.Content.{hello_read, hello_write}

abbrev junk : ℕ → ℕ → ℕ
junk n i = 7

abbrev empty_file : Entries
empty_file =
    store_entry (codes "/a")
      (header_cell
        (record { is_dir = 0; data_len = 0; num_buckets = 0; parent_index = 1; xattr_num = 0 }))
      (λ j. none)

gap : Cmd Entries Bytes
unfolding hello_write hello_read
gap = do
  w ← hello_write dictionary junk (codes "/a") (codes "cd") 3
  r ← hello_read dictionary junk 10 (codes "/a") 5 0
  pure r.1

gap_bytes : Option Bytes
unfolding gap
gap_bytes = elim (gap empty_file) [ none ↦ none | some r ↦ some r.0 ]

gap_lem : gap_bytes ≡ some (b'c' ∷ b'd' ∷ 7 ∷ 7 ∷ 7 ∷ [])
unfolding gap_bytes cache_get cache_set serve_request sprintf_d read_value decimal find_newline
    copy_value child_key data_key
gap_lem = refl
