-- ===== src/Tests/Attributes.antt =====
-- A file with two extended attributes.
use fuse_using_memcached.Prelude.{
  ℕ, ◌≡◌, refl, [], ◌∷◌, ◌++◌, List, Option, some, none, Bytes, codes, same, arith,
}
use fuse_using_memcached.Machine.Decimal.{sprintf_d, decimal}
use fuse_using_memcached.Machine.Buffer.{Buffer, block, load}
use fuse_using_memcached.Memcache.Dictionary.{Entries, store_entry, dictionary}
use fuse_using_memcached.Cachefs.Layout.{Header, header_cell}
use fuse_using_memcached.Cachefs.Keys.{xattr_key}
use fuse_using_memcached.Cachefs.Keys.Laws.{IsPath}
use fuse_using_memcached.Cachefs.Attributes.{
  hello_setxattr, hello_getxattr, hello_listxattr, hello_removexattr,
}
use fuse_using_memcached.Cachefs.Attributes.Stored.{Xattr, IsXattr, xattr_cell}
use fuse_using_memcached.Cachefs.Attributes.Listed.{HasXattr, HasXattrs}
use fuse_using_memcached.Cachefs.Attributes.Adding.{hello_setxattr-append}
use fuse_using_memcached.Cachefs.Attributes.Finding.{find_first, hello_getxattr-lookup}
use fuse_using_memcached.Cachefs.Attributes.Removing.{hello_removexattr-set}
use fuse_using_memcached.Cachefs.Attributes.Names.{hello_listxattr-names_text}

abbrev junk : ℕ → ℕ → ℕ
junk n i = 7

abbrev zeros : Bytes
zeros = 0 ∷ 0 ∷ 0 ∷ 0 ∷ []

abbrev mid : Bytes
mid = zeros ++ (zeros ++ zeros)

abbrev color : Xattr
color = record { name = codes "c"; value = codes "red" }

abbrev weight : Xattr
weight = record { name = codes "w"; value = codes "7" }

abbrev front : List Xattr
front = color ∷ []

abbrev both : List Xattr
both = color ∷ weight ∷ []

abbrev path : Bytes
path = codes "/a"

abbrev header : Header
header = record { is_dir = 0; data_len = 0; num_buckets = 0; parent_index = 1; xattr_num = 2 }

abbrev stored : Entries
stored = store_entry path (header_cell header) (
    store_entry (xattr_key 1 path) (xattr_cell mid zeros 1 color)
      (store_entry (xattr_key 2 path) (xattr_cell mid zeros 2 weight) (λ j. none)))

path-IsPath : IsPath path
path-IsPath = record {
  rooted = refl;
  short = omega arith;
  plain = ((omega arith, omega arith), ((omega arith, omega arith), tt));
}

other-IsPath : IsPath (codes "/b")
other-IsPath = record {
  rooted = refl;
  short = omega arith;
  plain = ((omega arith, omega arith), ((omega arith, omega arith), tt));
}

color-IsXattr : IsXattr color
color-IsXattr = record { text = (omega arith, tt); short = omega arith; fits = omega arith }

weight-IsXattr : IsXattr weight
weight-IsXattr = record { text = (omega arith, tt); short = omega arith; fits = omega arith }

color-HasXattr : HasXattr dictionary stored path 1 color
unfolding xattr_key sprintf_d decimal same
color-HasXattr = record {
  mid = mid;
  pad = zeros;
  mid_length = refl;
  pad_length = refl;
  stored = refl;
}

weight-HasXattr : HasXattr dictionary stored path 2 weight
unfolding xattr_key sprintf_d decimal same
weight-HasXattr = record {
  mid = mid;
  pad = zeros;
  mid_length = refl;
  pad_length = refl;
  stored = refl;
}

stored-HasXattrs : HasXattrs dictionary stored path header both
unfolding same
stored-HasXattrs = record {
  path_ok = path-IsPath;
  fields = record {
    is_dir = omega arith;
    data_len = omega arith;
    num_buckets = omega arith;
    parent_index = omega arith;
    xattr_num = omega arith;
  };
  main = refl;
  counted = refl;
  few = omega arith;
  valid = (color-IsXattr, (weight-IsXattr, tt));
  held = (color-HasXattr, (weight-HasXattr, tt));
}

hello_setxattr-append_example :
    (t : Entries) × (hello_setxattr dictionary junk path (codes "c") (codes "red") stored
      ≡ some (0, t))
    × HasXattrs dictionary t path (record header { xattr_num = 3 }) (color ∷ weight ∷ color ∷ [])
    × (t (codes "/b") ≡ stored (codes "/b"))
unfolding same
hello_setxattr-append_example =
    hello_setxattr-append dictionary junk path header both stored stored-HasXattrs color
      color-IsXattr (omega arith) (codes "/b") other-IsPath refl

hello_getxattr-lookup_example :
    hello_getxattr dictionary junk path (codes "w") 8 stored ≡ some ((1, codes "7"), stored)
unfolding same
hello_getxattr-lookup_example =
    hello_getxattr-lookup dictionary junk path header both stored stored-HasXattrs (codes "w") 8

found :
    ◌≡◌ {A = Option (ℕ × Xattr)}
      (find_first 1 (codes "c") (front ++ (weight ∷ [])))
      (some (1, color))
unfolding same
found = refl

hello_removexattr-set_example :
    (t : Entries) × (hello_removexattr dictionary junk path (codes "c") stored ≡ some (0, t))
    × HasXattrs dictionary t path (record header { xattr_num = 1 }) (weight ∷ [])
    × (t (xattr_key 2 path) ≡ none)
    × (t (codes "/b") ≡ stored (codes "/b"))
unfolding same
hello_removexattr-set_example =
    hello_removexattr-set dictionary junk path (codes "c") header front weight stored
      stored-HasXattrs 0 color found (codes "/b") other-IsPath refl

hello_listxattr-names_text_example :
    (list' : Buffer) × (hello_listxattr dictionary junk path (block 8 (junk 0)) stored
      ≡ some ((4, list'), stored))
    × (load 0 4 list' ≡ codes "c" ++ (0 ∷ (codes "w" ++ (0 ∷ []))))
hello_listxattr-names_text_example =
    hello_listxattr-names_text dictionary junk path header both stored stored-HasXattrs
      (block 8 (junk 0))
