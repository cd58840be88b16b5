-- ===== src/Tests/Lifecycle.antt =====
-- A file made and written in an empty root directory.
use fuse_using_memcached.Prelude.{
  ℕ, ◌≤◌, ◌≡◌, refl, [], ◌∷◌, none, some, codes, same, length, arith,
}
use fuse_using_memcached.Memcache.Dictionary.{Entries, store_entry, dictionary}
use fuse_using_memcached.Cachefs.Layout.{Header, header_cell}
use fuse_using_memcached.Cachefs.Keys.{root}
use fuse_using_memcached.Cachefs.Entries.{hello_create, hello_getattr}
use fuse_using_memcached.Cachefs.Entries.Status.{file_stat}
use fuse_using_memcached.Cachefs.Listing.{hello_readdir}
use fuse_using_memcached.Cachefs.Listing.Tokens.{IsFileName, join, stem}
use fuse_using_memcached.Cachefs.Listing.Laws.{IsDirectory}
use fuse_using_memcached.Cachefs.Content.{hello_read, hello_write}
use fuse_using_memcached.Cachefs.Lifecycle.{hello_create-hello_write}

abbrev junk : ℕ → ℕ → ℕ
junk n i = 7

abbrev bare_header : Header
bare_header = record { is_dir = 1; data_len = 0; num_buckets = 0; parent_index = 0; xattr_num = 0 }

abbrev bare : Entries
bare = store_entry root (header_cell bare_header) (λ j. none)

bare-IsDirectory : IsDirectory dictionary bare root bare_header []
unfolding same
bare-IsDirectory = record {
  path_ok = record { rooted = refl; short = omega arith; plain = ((omega arith, omega arith), tt) };
  fields = record {
    is_dir = omega arith;
    data_len = omega arith;
    num_buckets = omega arith;
    parent_index = omega arith;
    xattr_num = omega arith;
  };
  main = refl;
  counted = refl;
  few = omega arith;
  entries = λ i h. absurd (omega arith);
  named = tt;
  short = tt;
}

f-IsFileName : IsFileName (codes "f")
f-IsFileName = record {
  filled = omega arith;
  plain = (((omega arith, omega arith), omega arith), tt);
}

f_short : length (join root (codes "f")) ≤ 238
unfolding join stem same
f_short = omega arith

hello_create-hello_write_example :
    (s₁ : Entries) × (s₂ : Entries) × (hello_create dictionary junk (join root (codes "f")) bare
      ≡ some (some 0, s₁))
    × (hello_write dictionary junk (join root (codes "f")) (codes "hello") 0 s₁ ≡ some (5, s₂))
    × (hello_readdir dictionary junk root s₂
        ≡ some ((0, codes "." ∷ codes ".." ∷ codes "f" ∷ []), s₂))
    × (hello_read dictionary junk 3 (join root (codes "f")) 3 1 s₂ ≡ some ((3, codes "ell"), s₂))
    × (hello_getattr dictionary junk (join root (codes "f")) s₂ ≡ some ((0, file_stat 9), s₂))
hello_create-hello_write_example =
    hello_create-hello_write dictionary junk junk junk bare root (codes "f") (codes "hello")
      bare_header [] bare-IsDirectory f-IsFileName f_short (omega arith) (omega arith) 3 3 1
      (omega arith) (omega arith) (omega arith)
