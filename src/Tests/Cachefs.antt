-- ===== src/Tests/Cachefs.antt =====
-- The file system on the dictionary server: runs, and the theorems at small stores.
use fuse_using_memcached.Prelude.{
  splice, ℕ, zero, suc, ◌+◌, ◌*◌, ◌<◌, ◌≡◌, refl, List, [], ◌∷◌, Option, none, some, Bytes, codes,
  same, arith, length, get_or, ◌≤◌, false, if◌then◌else◌, ◌==◌,
}
use fuse_using_memcached.Machine.Word.{neg}
use fuse_using_memcached.Machine.Decimal.{sprintf_d, decimal}
use fuse_using_memcached.Machine.Buffer.{Buffer, block, store, load, c_string}
use fuse_using_memcached.Machine.Cmd.{Cmd, pure, ◌>>=◌}
use fuse_using_memcached.Memcache.Server.{IsKey}
use fuse_using_memcached.Memcache.Client.{
  cache_get, cache_set, cache_msg, set_result, read_value, find_newline, copy_value,
}
use fuse_using_memcached.Memcache.Replies.{IsValue}
use fuse_using_memcached.Memcache.Laws.{cache_get-cache_set, set_result-cases}
use fuse_using_memcached.Memcache.Dictionary.{Entries, store_entry, dictionary, serve_request}
use fuse_using_memcached.Cachefs.Layout.{Header, IsHeader, header_cell, cell, efault, enoent}
use fuse_using_memcached.Cachefs.Keys.{child_key, data_key, xattr_key, root, parent_of}
use fuse_using_memcached.Cachefs.Keys.Laws.{IsPath}
use fuse_using_memcached.Cachefs.Keys.Distinct.{data_of, key_of-injective}
use fuse_using_memcached.Cachefs.Entries.{
  hello_mkdir, hello_create, add_to_parent, Stat, hello_getattr, hello_access,
}
use fuse_using_memcached.Cachefs.Entries.Status.{
  file_stat, dir_stat, hello_getattr-header, hello_getattr-missing,
}
use fuse_using_memcached.Cachefs.Counters.{increase_childrens_num, decrease_childrens_num}
use fuse_using_memcached.Cachefs.Entries.Laws.{new_file, new_dir_cell, missing_parent}
use fuse_using_memcached.Cachefs.Startup.{hello_init}
use fuse_using_memcached.Cachefs.Listing.{hello_readdir}
use fuse_using_memcached.Cachefs.Listing.Tokens.{IsFileName, join, stem}
use fuse_using_memcached.Cachefs.Listing.Laws.{IsDirectory, hello_readdir-names}
use fuse_using_memcached.Cachefs.Listing.Growth.{hello_create-IsDirectory, hello_mkdir-IsDirectory}
use fuse_using_memcached.Cachefs.Removal.{hello_rmdir, hello_unlink}
use fuse_using_memcached.Cachefs.Content.{hello_read, hello_write}
use fuse_using_memcached.Cachefs.Content.Files.{IsFile, with_lengths, part}
use fuse_using_memcached.Cachefs.Content.Whole.{hello_write-splice}
use fuse_using_memcached.Cachefs.Content.Roundtrip.{hello_read-splice}
use fuse_using_memcached.Cachefs.Attributes.{
  hello_setxattr, hello_getxattr, hello_removexattr, xattr_value,
}

abbrev junk : ℕ → ℕ → ℕ
junk n i = 7

abbrev empty : Entries
empty j = none

-- A directory, a file with five bytes and an attribute, made, read and removed again.
scenario : Cmd Entries (List (ℕ × Bytes))
unfolding hello_init hello_mkdir hello_create hello_write hello_read hello_setxattr hello_getxattr
    hello_removexattr hello_readdir hello_unlink hello_rmdir
scenario = do
  i ← hello_init dictionary junk
  a ← hello_mkdir dictionary junk (codes "/a")
  f ← hello_create dictionary junk (codes "/a/f")
  w ← hello_write dictionary junk (codes "/a/f") (codes "hello") 0
  r ← hello_read dictionary junk 10 (codes "/a/f") 5 0
  x ← hello_setxattr dictionary junk (codes "/a/f") (codes "user.k") (codes "val")
  g ← hello_getxattr dictionary junk (codes "/a/f") (codes "user.k") 10
  y ← hello_removexattr dictionary junk (codes "/a/f") (codes "user.k")
  l ← hello_readdir dictionary junk (codes "/a")
  u ← hello_unlink dictionary junk (codes "/a/f")
  l2 ← hello_readdir dictionary junk (codes "/a")
  d ← hello_rmdir dictionary junk (codes "/a")
  l3 ← hello_readdir dictionary junk (codes "/")
  pure ((a, []) ∷ (w, []) ∷ r ∷ (x, []) ∷ g ∷ (y, []) ∷ (l.0, []) ∷ (u, []) ∷ (d, []) ∷ [])

results : Option (List (ℕ × Bytes))
unfolding scenario
results = elim (scenario empty) [ none ↦ none | some r ↦ some r.0 ]

results-scenario :
    results
    ≡ some (
        (0, [])
        ∷ (5, [])
        ∷ (5, codes "hello")
        ∷ (0, [])
        ∷ (3, codes "val")
        ∷ (0, [])
        ∷ (0, [])
        ∷ (0, [])
        ∷ (0, [])
        ∷ [])
unfolding results cache_get cache_set cache_msg serve_request sprintf_d read_value decimal
    add_to_parent parent_of increase_childrens_num find_newline copy_value child_key data_key
    xattr_key c_string xattr_value decrease_childrens_num
results-scenario = refl

-- A root directory with the child "a".
abbrev home_header : Header
home_header = record { is_dir = 1; data_len = 0; num_buckets = 1; parent_index = 0; xattr_num = 0 }

abbrev home : Entries
home =
    store_entry (codes "1/") (cell (codes "/a")) (store_entry root (header_cell home_header) empty)

abbrev names : List Bytes
names = codes "a" ∷ []

root-IsPath : IsPath root
root-IsPath = record {
  rooted = refl;
  short = omega arith;
  plain = ((omega arith, omega arith), tt);
}

home-IsHeader : IsHeader home_header
home-IsHeader = record {
  is_dir = omega arith;
  data_len = omega arith;
  num_buckets = omega arith;
  parent_index = omega arith;
  xattr_num = omega arith;
}

a-IsFileName : IsFileName (codes "a")
a-IsFileName = record {
  filled = omega arith;
  plain = (((omega arith, omega arith), omega arith), tt);
}

b-IsFileName : IsFileName (codes "b")
b-IsFileName = record {
  filled = omega arith;
  plain = (((omega arith, omega arith), omega arith), tt);
}

home_entries :
    (i : ℕ)
    → i < length names
    → home (child_key (suc i) root) ≡ some (cell (join root (get_or names i [])))
unfolding child_key sprintf_d decimal join stem same
home_entries zero h = refl
home_entries (suc i) h = absurd (omega arith)

join_short : length (join root (codes "a")) ≤ 238
unfolding join stem same
join_short = omega arith

join_short_b : length (join root (codes "b")) ≤ 238
unfolding join stem same
join_short_b = omega arith

home-IsDirectory : IsDirectory dictionary home root home_header names
unfolding same
home-IsDirectory = record {
  path_ok = root-IsPath;
  fields = home-IsHeader;
  main = refl;
  counted = refl;
  few = omega arith;
  entries = home_entries;
  named = (a-IsFileName, tt);
  short = (join_short, tt);
}

hello_readdir-names_example :
    hello_readdir dictionary junk root home
    ≡ some ((0, codes "." ∷ codes ".." ∷ codes "a" ∷ []), home)
hello_readdir-names_example =
    hello_readdir-names dictionary junk home root home_header names home-IsDirectory

hello_create-IsDirectory_example :
    (s' : Entries) × (hello_create dictionary junk (join root (codes "b")) home ≡ some (some 0, s'))
    × IsDirectory dictionary s' root
        (record home_header { num_buckets = 1 + 1 })
        (codes "a" ∷ codes "b" ∷ [])
    × (s' (join root (codes "b")) ≡ some (header_cell (new_file 2)))
hello_create-IsDirectory_example =
    hello_create-IsDirectory dictionary junk home root (codes "b") home_header names
      home-IsDirectory b-IsFileName join_short_b (omega arith)

hello_mkdir-IsDirectory_example :
    (s' : Entries) × (hello_mkdir dictionary junk (join root (codes "b")) home ≡ some (0, s'))
    × IsDirectory dictionary s' root
        (record home_header { num_buckets = 1 + 1 })
        (codes "a" ∷ codes "b" ∷ [])
    × (s' (join root (codes "b")) ≡ some (new_dir_cell (load 20 4 (block 24 (junk 6))) 2))
hello_mkdir-IsDirectory_example =
    hello_mkdir-IsDirectory dictionary junk home root (codes "b") home_header names home-IsDirectory
      b-IsFileName join_short_b (omega arith)

ab-IsPath : IsPath (codes "/a")
ab-IsPath = record {
  rooted = refl;
  short = omega arith;
  plain = ((omega arith, omega arith), ((omega arith, omega arith), tt));
}

up_example : parent_of (codes "/a") ≡ some root
unfolding parent_of
up_example = refl

below_example : same (codes "/a") root ≡ false
unfolding same
below_example = refl

missing_parent_example :
    (hello_mkdir dictionary junk (codes "/a") empty
      ≡ some (neg efault, store_entry (child_key (neg 1) root) (cell (codes "/a")) empty))
    × (hello_create dictionary junk (codes "/a") empty
        ≡ some (none, store_entry (child_key (neg 1) root) (cell (codes "/a")) empty))
missing_parent_example =
    missing_parent dictionary junk empty ab-IsPath root-IsPath up_example below_example refl

key_of-injective_example : data_of 1 root ≡ data_of 1 root
key_of-injective_example =
    key_of-injective (data_of 1 root) (data_of 1 root) (omega arith, root-IsPath)
      (omega arith, root-IsPath) refl

a-IsKey : IsKey (codes "a")
a-IsKey = record {
  filled = omega arith;
  short = omega arith;
  plain = ((omega arith, omega arith), tt);
}

-- Two bytes behind their size.
abbrev small_block : Buffer
small_block = store 0 (cell (codes "xy")) (block 10 (junk 0))

small-IsValue : IsValue (load 0 6 small_block)
unfolding load
small-IsValue = record { whole = omega arith; sized = refl; fits = omega arith }

cache_get-cache_set_example :
    (s' : Entries) × (cache_set dictionary (junk 0) (codes "a") small_block 6 empty ≡ some (0, s'))
    × (cache_get dictionary (junk 0) (codes "a") (block 10 (junk 1)) s'
        ≡ some ((0, store 0 (load 0 6 small_block) (block 10 (junk 1))), s'))
    × ((j : Bytes) → s' j ≡ (if same (codes "a") j then some (load 0 6 small_block) else empty j))
cache_get-cache_set_example =
    cache_get-cache_set dictionary (junk 0) (junk 0) (codes "a") small_block (block 10 (junk 1)) 6
      empty a-IsKey small-IsValue (omega arith) (omega arith)

set_result-cases_example :
    (set_result (junk 0) (codes "NOT_STORED\r\n") ≡ (if 7 == 0 then neg 1 else 0))
    × (set_result (junk 0) (codes "ERROR\r\n") ≡ (if 7 == 0 then neg 1 else 0))
    × (set_result (junk 0) (codes "SERVER_ERROR") ≡ 0)
set_result-cases_example =
    set_result-cases (junk 0) b'S' (codes "ERVER_ERROR") (λ e. absurd (omega arith))
      (λ e. absurd (omega arith))

-- An empty file with the path "/a", and five bytes written to it.
abbrev empty_header : Header
empty_header = record { is_dir = 0; data_len = 0; num_buckets = 0; parent_index = 1; xattr_num = 0 }

abbrev empty_file : Entries
empty_file = store_entry (codes "/a") (header_cell empty_header) empty

empty-IsFile : IsFile dictionary empty_file (codes "/a") empty_header []
unfolding same
empty-IsFile = record {
  path_ok = ab-IsPath;
  fields = record {
    is_dir = omega arith;
    data_len = omega arith;
    num_buckets = omega arith;
    parent_index = omega arith;
    xattr_num = omega arith;
  };
  main = refl;
  counted = refl;
  buckets = λ i h. absurd (omega arith);
}

-- The file "/a" with five bytes in its only bucket.
abbrev full_header : Header
full_header = with_lengths 5 1 empty_header

abbrev full_file : Entries
full_file =
    store_entry (codes "&1/a") (cell (codes "hello"))
      (store_entry (codes "/a") (header_cell full_header) empty)

full_buckets :
    (i : ℕ)
    → 1024 * i < 5
    → full_file (data_key (suc i) (codes "/a")) ≡ some (cell (part i (codes "hello")))
unfolding data_key child_key sprintf_d decimal same
full_buckets zero h = refl
full_buckets (suc i) h = absurd (omega arith)

full-IsFile : IsFile dictionary full_file (codes "/a") full_header (codes "hello")
unfolding same
full-IsFile = record {
  path_ok = ab-IsPath;
  fields = record {
    is_dir = omega arith;
    data_len = omega arith;
    num_buckets = omega arith;
    parent_index = omega arith;
    xattr_num = omega arith;
  };
  main = refl;
  counted = refl;
  buckets = full_buckets;
}

-- Three bytes over the last two and behind them.
hello_write-splice_example :
    (s' : Entries) × (hello_write dictionary junk (codes "/a") (codes "LLO") 3 full_file
      ≡ some (3, s'))
    × IsFile dictionary s' (codes "/a") (with_lengths 6 1 full_header) (codes "helLLO")
    × (s' root ≡ full_file root)
unfolding splice
hello_write-splice_example =
    hello_write-splice dictionary junk (codes "/a") ab-IsPath full_file full_header (codes "hello")
      (codes "LLO") root 3 full-IsFile (omega arith) (omega arith) (omega arith) (omega arith)
      root-IsPath below_example

hello_read-splice_example :
    (s' : Entries) × (hello_write dictionary junk (codes "/a") (codes "LLO") 3 full_file
      ≡ some (3, s'))
    × (hello_read dictionary junk 3 (codes "/a") 3 2 s' ≡ some ((3, codes "lLL"), s'))
unfolding splice
hello_read-splice_example =
    hello_read-splice dictionary junk junk full_file (codes "/a") (codes "LLO") full_header 3 3 2
      (codes "hello") 3 full-IsFile (omega arith) (omega arith) (omega arith) (omega arith)
      (omega arith) (omega arith) (omega arith)

hello_getattr-header_example :
    (hello_access dictionary junk (codes "/a") full_file ≡ some (0, full_file))
    × (hello_getattr dictionary junk (codes "/a") full_file
        ≡ some ((0, if 0 == 0 then file_stat 5 else dir_stat), full_file))
hello_getattr-header_example =
    hello_getattr-header dictionary junk full_file (codes "/a") ab-IsPath full_header
      full-IsFile.fields full-IsFile.main

hello_getattr-missing_example :
    (hello_access dictionary junk (codes "/a") empty ≡ some (neg enoent, empty))
    × ((stat : Stat) × (hello_getattr dictionary junk (codes "/a") empty
          ≡ some ((neg enoent, stat), empty)))
hello_getattr-missing_example =
    hello_getattr-missing dictionary junk empty (codes "/a") ab-IsPath refl
