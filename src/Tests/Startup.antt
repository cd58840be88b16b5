-- ===== src/Tests/Startup.antt =====
-- The first start on an empty store.
use fuse_using_memcached.Prelude.{ℕ, ◌≡◌, refl, [], some, none, Bytes, same, arith, if◌then◌else◌}
use fuse_using_memcached.Machine.Word.{int_of}
use fuse_using_memcached.Memcache.Dictionary.{Entries, dictionary}
use fuse_using_memcached.Cachefs.Layout.{header_cell}
use fuse_using_memcached.Cachefs.Keys.{root}
use fuse_using_memcached.Cachefs.Listing.Laws.{IsDirectory}
use fuse_using_memcached.Cachefs.Startup.{stats_key, hello_init}
use fuse_using_memcached.Cachefs.Startup.Laws.{root_header, stats_cell, hello_init-IsDirectory}

abbrev sevens : ℕ → ℕ → ℕ
sevens n i = 7

abbrev nothing : Entries
nothing j = none

hello_init-IsDirectory_example :
    (s' : Entries) × (hello_init dictionary sevens nothing ≡ some (tt, s'))
    × IsDirectory dictionary s' root (root_header (int_of 7 7 7 7)) []
    × ((k : Bytes)
        → s' k ≡ (
            if same root k
            then some (header_cell (root_header (int_of 7 7 7 7)))
            else (if same stats_key k then some (stats_cell 1024) else none)))
    × (hello_init dictionary sevens s' ≡ some (tt, s'))
hello_init-IsDirectory_example =
    hello_init-IsDirectory dictionary sevens sevens nothing (λ n i. omega arith) refl
