-- ===== src/Tests/Removal.antt =====
-- Two files below the root, of which the first is removed.
use fuse_using_memcached.Prelude.{
  ℕ, zero, suc, ◌≤◌, ◌<◌, ◌≡◌, refl, ap, [], ◌∷◌, ◌++◌, List, some, none, Bytes, codes, same,
  length, get_or, arith,
}
use fuse_using_memcached.Machine.Decimal.{sprintf_d, decimal}
use fuse_using_memcached.Machine.Word.{neg}
use fuse_using_memcached.Memcache.Dictionary.{Entries, store_entry, dictionary}
use fuse_using_memcached.Cachefs.Layout.{
  Header, IsHeader, header_cell, cell, enotdir, enotempty, enoent,
}
use fuse_using_memcached.Cachefs.Keys.{root, child_key}
use fuse_using_memcached.Cachefs.Keys.Laws.{IsPath}
use fuse_using_memcached.Cachefs.Entries.Laws.{new_file}
use fuse_using_memcached.Cachefs.Listing.{hello_readdir}
use fuse_using_memcached.Cachefs.Listing.Tokens.{IsFileName, join, stem}
use fuse_using_memcached.Cachefs.Listing.Populated.{HasIndex, IsPopulated}
use fuse_using_memcached.Cachefs.Removal.{hello_rmdir, hello_unlink}
use fuse_using_memcached.Cachefs.Removal.Directory.{
  hello_rmdir-IsPopulated, hello_rmdir-not_empty, hello_rmdir-missing,
}
use fuse_using_memcached.Cachefs.Removal.File.{IsDeleted, hello_unlink-IsPopulated}
use fuse_using_memcached.Cachefs.Refinement.{Command, create, unlink, Allowed, after, run}
use fuse_using_memcached.Cachefs.Refinement.Names.{contains}
use fuse_using_memcached.Cachefs.Refinement.Laws.{Stands, run-refines}

abbrev junk : ℕ → ℕ → ℕ
junk n i = 7

abbrev nothing : Entries
nothing j = none

abbrev home_header : Header
home_header = record { is_dir = 1; data_len = 0; num_buckets = 2; parent_index = 0; xattr_num = 0 }

abbrev home : Entries
home = store_entry (codes "/a") (header_cell (new_file 1)) (
    store_entry (codes "/b") (header_cell (new_file 2)) (
      store_entry (codes "1/") (cell (codes "/a")) (
        store_entry (codes "2/") (cell (codes "/b"))
          (store_entry root (header_cell home_header) nothing))))

abbrev front : List Bytes
front = codes "a" ∷ []

abbrev names : List Bytes
names = codes "a" ∷ codes "b" ∷ []

root-IsPath : IsPath root
root-IsPath = record {
  rooted = refl;
  short = omega arith;
  plain = ((omega arith, omega arith), tt);
}

home-IsHeader : IsHeader home_header
home-IsHeader = record {
  is_dir = omega arith;
  data_len = omega arith;
  num_buckets = omega arith;
  parent_index = omega arith;
  xattr_num = omega arith;
}

letter-IsFileName : (c : ℕ) → b'a' ≤ c → c ≤ b'z' → IsFileName (c ∷ [])
letter-IsFileName c low high = record {
  filled = omega arith;
  plain = (((omega arith, omega arith), omega arith), tt);
}

letter_short : (c : ℕ) → length (join root (c ∷ [])) ≤ 238
unfolding join stem same
letter_short c = omega arith

entries :
    (i : ℕ)
    → i < length names
    → home (child_key (suc i) root) ≡ some (cell (join root (get_or names i [])))
unfolding child_key sprintf_d decimal join stem same
entries zero h = refl
entries (suc zero) h = refl
entries (suc (suc i)) h = absurd (omega arith)

distinct :
    (i j : ℕ) → i < length names → j < length names → get_or names i [] ≡ get_or names j [] → i ≡ j
distinct zero zero a b e = refl
distinct zero (suc zero) a b e = absurd (omega (arith, ap (λ l. get_or l 0 0) e))
distinct (suc zero) zero a b e = absurd (omega (arith, ap (λ l. get_or l 0 0) e))
distinct (suc zero) (suc zero) a b e = refl
distinct (suc (suc i)) j a b e = absurd (omega arith)
distinct i (suc (suc j)) a b e = absurd (omega arith)

file-IsHeader : (i : ℕ) → i < 2 → IsHeader (new_file (suc i))
file-IsHeader i h = record {
  is_dir = omega arith;
  data_len = omega arith;
  num_buckets = omega arith;
  parent_index = omega arith;
  xattr_num = omega arith;
}

file_main :
    (i : ℕ) → i < 2 → home (join root (get_or names i [])) ≡ some (header_cell (new_file (suc i)))
unfolding join stem same
file_main zero h = refl
file_main (suc zero) h = refl
file_main (suc (suc i)) h = absurd (omega arith)

children :
    (i : ℕ) → i < length names → HasIndex dictionary home (join root (get_or names i [])) (suc i)
children i h = record {
  header = new_file (suc i);
  fields = file-IsHeader i (omega arith);
  placed = refl;
  buckets = omega arith;
  xattrs = omega arith;
  main = file_main i (omega arith);
}

home-IsPopulated : IsPopulated dictionary home root home_header (front ++ (codes "b" ∷ []))
unfolding same
home-IsPopulated = record {
  directory = record {
    path_ok = root-IsPath;
    fields = home-IsHeader;
    main = refl;
    counted = refl;
    few = omega arith;
    entries = entries;
    named = (
      letter-IsFileName b'a' (omega arith) (omega arith),
      (letter-IsFileName b'b' (omega arith) (omega arith), tt),
    );
    short = (letter_short b'a', (letter_short b'b', tt));
  };
  distinct = distinct;
  children = children;
}

hello_rmdir-IsPopulated_example :
    (s' : Entries) × (hello_rmdir dictionary junk (join root (codes "a")) home ≡ some (0, s'))
    × IsPopulated dictionary s' root (record home_header { num_buckets = 1 }) (codes "b" ∷ [])
    × (s' (join root (codes "a")) ≡ none)
unfolding children
hello_rmdir-IsPopulated_example =
    hello_rmdir-IsPopulated dictionary junk home root (codes "b") front home_header home-IsPopulated
      0 (omega arith) (children 0 (omega arith)) refl

hello_unlink-IsPopulated_example :
    (s' : Entries) × (hello_unlink dictionary junk (join root (codes "a")) home ≡ some (0, s'))
    × IsPopulated dictionary s' root (record home_header { num_buckets = 1 }) (codes "b" ∷ [])
    × IsDeleted dictionary s' (join root (codes "a")) 0 0
unfolding children
hello_unlink-IsPopulated_example =
    hello_unlink-IsPopulated dictionary junk home root (codes "b") front home_header
      home-IsPopulated 0 (omega arith) (children 0 (omega arith))

hello_rmdir-missing_example :
    (hello_rmdir dictionary junk (join root (codes "c")) nothing ≡ some (neg enotdir, nothing))
    × (hello_unlink dictionary junk (join root (codes "c")) nothing ≡ some (neg enoent, nothing))
hello_rmdir-missing_example =
    hello_rmdir-missing dictionary junk nothing root (codes "c") root-IsPath
      (letter-IsFileName b'c' (omega arith) (omega arith)) (letter_short b'c') refl

-- A directory with two entries.
abbrev full : Entries
full = store_entry (codes "/d") (header_cell home_header) nothing

full_main : full (join root (codes "d")) ≡ some (header_cell home_header)
unfolding join stem same
full_main = refl

hello_rmdir-not_empty_example :
    hello_rmdir dictionary junk (join root (codes "d")) full ≡ some (neg enotempty, full)
hello_rmdir-not_empty_example =
    hello_rmdir-not_empty dictionary junk full root (codes "d") root-IsPath
      (letter-IsFileName b'd' (omega arith) (omega arith)) (letter_short b'd') home_header
      home-IsHeader full_main (omega arith) (omega arith)

abbrev commands : List Command
commands = create (codes "c") ∷ unlink (codes "a") ∷ []

home-Stands : Stands dictionary junk root home (contains names) 2
home-Stands = record {
  header = home_header;
  names = names;
  populated = home-IsPopulated;
  same_names = λ x. refl;
  few = omega arith;
}

commands-Allowed : Allowed root commands (contains names)
unfolding contains same
commands-Allowed =
    (letter-IsFileName b'c' (omega arith) (omega arith), letter_short b'c', refl, (refl, tt))

run-refines_example :
    (s' : Entries) × (run dictionary junk root commands home ≡ some (some 0 ∷ some 0 ∷ [], s'))
    × Stands dictionary junk root s' (after commands (contains names)) 4
    × ((listed : List Bytes) × (hello_readdir dictionary junk root s'
          ≡ some ((0, codes "." ∷ codes ".." ∷ listed), s'))
        × ((x : Bytes) → contains listed x ≡ after commands (contains names) x))
run-refines_example =
    run-refines dictionary junk root commands home (contains names) 2 home-Stands commands-Allowed
      (omega arith)
