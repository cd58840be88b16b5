-- ===== src/Cachefs/Entries/Laws.antt =====
-- What `addToParent`, `hello_mkdir` and `hello_create` leave in the store.
use fuse_using_memcached.Prelude.{
  ℕ, ◌+◌, ◌^◌, ◌≤◌, ◌<◌, ◌≡◌, refl, ap, ◌∙◌, [], ◌∷◌, ◌++◌, false, some, none, Bytes, same, length,
  arith, le→leb, lt→leb_false, same_refl,
}
use fuse_using_memcached.Machine.Word.{neg, int_add, int_bytes}
use fuse_using_memcached.Machine.Decimal.{sprintf_d, decimal}
use fuse_using_memcached.Machine.Buffer.{block, load, store_int}
use fuse_using_memcached.Machine.Buffer.Laws.{load-append, load-store_prefix}
use fuse_using_memcached.Memcache.Server.{Memcached, IsKey}
use fuse_using_memcached.Memcache.Laws.{cache_set-put}
use fuse_using_memcached.Cachefs.Layout.{Header, IsHeader, header_cell, cell, efault}
use fuse_using_memcached.Cachefs.Keys.{root, child_key, parent_of}
use fuse_using_memcached.Cachefs.Keys.Laws.{
  IsPath, IsPath-IsKey, child_key-IsKey, length-child_key, ne_parent,
}
use fuse_using_memcached.Cachefs.Keys.Distinct.{child_key-path, path-child_key}
use fuse_using_memcached.Cachefs.Counters.Laws.{
  increase_childrens_num-put, increase_childrens_num-missing,
}
use fuse_using_memcached.Cachefs.Entries.{
  add_child, add_to_parent, hello_mkdir, hello_create, path_block, file_block, dir_block,
}

-- The entry of a child holds its size and its path.
load-path_block :
    (junk : ℕ → ℕ) (path : Bytes) → load 0 (4 + length path) (path_block junk path) ≡ cell path
unfolding load
load-path_block junk path =
    load-append 0 4 (length path) (path_block junk path)
    ∙ ap (λ t. int_bytes (4 + length path) ++ t)
        (load-store_prefix 4 path (0 ∷ []) (store_int 0 (4 + length path) (block 332 junk)))

-- The header of a new file, and the cell of a new directory, whose last field is not set.
abbrev pub new_file : ℕ → Header
new_file n = record { is_dir = 0; data_len = 0; num_buckets = 0; parent_index = n; xattr_num = 0 }

abbrev pub new_dir_cell : (xattr_num : Bytes) → ℕ → Bytes
new_dir_cell xattr_num n =
    int_bytes 24 ++ (int_bytes 1 ++ (int_bytes 0 ++ (int_bytes 0 ++ (int_bytes n ++ xattr_num))))

load-file_block : (junk : ℕ → ℕ) (n : ℕ) → load 0 24 (file_block junk n) ≡ header_cell (new_file n)
unfolding load
load-file_block junk n = refl

pub load-dir_block :
    (junk : ℕ → ℕ) (n : ℕ)
    → load 0 24 (dir_block junk n) ≡ new_dir_cell (load 20 4 (block 24 junk)) n
unfolding load
load-dir_block junk n = refl

module _ (m : Memcached) where
  open m use {view}

  -- In `s'` the entry `path` stands with the value `main`, and `parent` counts it as its child `n`.
  -- Nothing else has changed since `s`.
  pub record Linked (s s' : m.State) (path parent main : Bytes) (h : Header) : Type 0 where
    pub entry : view s' path ≡ some main
    pub counted : view s' parent ≡ some (header_cell (record h { num_buckets = h.num_buckets + 1 }))
    pub listed : view s' (child_key (h.num_buckets + 1) parent) ≡ some (cell path)
    pub others :
        (k : Bytes)
        → same path k ≡ false
        → same parent k ≡ false
        → same (child_key (h.num_buckets + 1) parent) k ≡ false
        → view s' k ≡ view s k

module _ (m : Memcached) (junk : ℕ → ℕ → ℕ) (s : m.State) {path parent : Bytes}
    (path_ok : IsPath path) (parent_ok : IsPath parent) (up : parent_of path ≡ some parent)
    (below : same path root ≡ false) (h : Header) (fields : IsHeader h)
    (here : m.view s parent ≡ some (header_cell h)) (room : h.num_buckets + 1 < 2 ^ 31) where
  open m use {view, put, view-put}

  -- The parent's header counts one more, and the child's entry stands under that number.
  abbrev pub with_child : m.State
  with_child =
      put (child_key (h.num_buckets + 1) parent) (cell path)
        (put parent (header_cell (record h { num_buckets = h.num_buckets + 1 })) s)

  add_child-put : add_child m junk parent path s ≡ some (h.num_buckets + 1, with_child)
  unfolding add_child
  add_child-put =
      let n = h.num_buckets + 1 in
      let next : int_add h.num_buckets 1 ≡ n = omega arith in
      let long = length-child_key n room parent_ok in
      let short = path_ok.short in
      let size : (path_block (junk 4) path).size ≡ 332 = refl in
      rw (
        increase_childrens_num-put m junk parent s (IsPath-IsKey parent_ok) h fields here,
        next,
        le→leb (length (child_key n parent) + 1) 264 (omega arith),
        le→leb (4 + length path + 1) 332 (omega arith),
        cache_set-put m (junk 3) (child_key n parent) (path_block (junk 4) path) (4 + length path)
            (put parent (header_cell (record h { num_buckets = n })) s)
            (child_key-IsKey n room parent_ok) (omega arith) (omega arith),
        load-path_block (junk 4) path,
      )

  add_to_parent-put : add_to_parent m junk path s ≡ some (h.num_buckets + 1, with_child)
  unfolding add_to_parent
  add_to_parent-put = rw (below, up) add_child-put

  Linked-put : (main : Bytes) → Linked m s (put path main with_child) path parent main h
  Linked-put main =
      let n = h.num_buckets + 1 in
      let key = child_key n parent in
      let apart = ne_parent path parent below up in
      record {
        entry = simp (view-put, same_refl);
        counted = simp (view-put, apart, child_key-path n room parent_ok parent_ok, same_refl);
        listed = simp (view-put, path-child_key n room parent_ok path_ok, same_refl);
        others = λ k e f g. simp (view-put, e, f, g);
      }

  -- `hello_create` makes an empty file below an existing directory: it returns 0, the file's header
  -- says which child it is, and the directory counts it and lists its path.
  pub hello_create-Linked :
      (s' : m.State) × (hello_create m junk path s ≡ some (some 0, s'))
      × Linked m s s' path parent (header_cell (new_file (h.num_buckets + 1))) h
  unfolding hello_create
  hello_create-Linked =
      let n = h.num_buckets + 1 in
      (
        put path (header_cell (new_file n)) with_child,
        rw (
          add_to_parent-put,
          lt→leb_false (2 ^ 31) n room,
          cache_set-put m (junk 5) path (file_block (junk 6) n) 24 with_child (IsPath-IsKey path_ok)
              (omega arith) (omega arith),
          load-file_block (junk 6) n,
        ),
        Linked-put (header_cell (new_file n)),
      )

  -- `hello_mkdir` makes an empty directory below an existing one in the same way, but the number of
  -- its attributes is what four bytes of a block of memory held before.
  pub hello_mkdir-Linked :
      (s' : m.State) × (hello_mkdir m junk path s ≡ some (0, s'))
      × Linked m s s' path parent
          (new_dir_cell (load 20 4 (block 24 (junk 6))) (h.num_buckets + 1))
          h
  unfolding hello_mkdir
  hello_mkdir-Linked =
      let n = h.num_buckets + 1 in
      let main = new_dir_cell (load 20 4 (block 24 (junk 6))) n in
      (
        put path main with_child,
        rw (
          add_to_parent-put,
          lt→leb_false (2 ^ 31) n room,
          cache_set-put m (junk 5) path (dir_block (junk 6) n) 24 with_child (IsPath-IsKey path_ok)
              (omega arith) (omega arith),
          load-dir_block (junk 6) n,
        ),
        Linked-put main,
      )

module _ (m : Memcached) (junk : ℕ → ℕ → ℕ) (s : m.State) {path parent : Bytes}
    (path_ok : IsPath path) (parent_ok : IsPath parent) (up : parent_of path ≡ some parent)
    (below : same path root ≡ false) (gone : m.view s parent ≡ none) where
  open m use {put}

  minus_one-IsKey : IsKey (child_key (neg 1) parent)
  unfolding child_key sprintf_d decimal
  minus_one-IsKey = record {
    filled = omega arith;
    short = omega (arith, parent_ok.short);
    plain = ((omega arith, omega arith), ((omega arith, omega arith), parent_ok.plain));
  }

  length-minus_one : length (child_key (neg 1) parent) ≤ 250
  length-minus_one = minus_one-IsKey.short

  add_to_parent-missing :
      add_to_parent m junk path s ≡ some (neg 1, put (child_key (neg 1) parent) (cell path) s)
  unfolding add_to_parent
  add_to_parent-missing =
      let short = path_ok.short in
      rw (
        below,
        up,
        increase_childrens_num-missing m junk parent s (IsPath-IsKey parent_ok) gone,
        le→leb (length (child_key (neg 1) parent) + 1) 264 (omega (arith, length-minus_one)),
        le→leb (4 + length path + 1) 332 (omega arith),
        cache_set-put m (junk 3) (child_key (neg 1) parent) (path_block (junk 4) path)
            (4 + length path) s minus_one-IsKey (omega arith) (omega arith),
        load-path_block (junk 4) path,
      )

  -- Below a directory that does not exist `hello_mkdir` returns -EFAULT and `hello_create` ends with
  -- no value, and neither makes the entry; yet both store the path as child -1 of the missing parent.
  pub missing_parent :
      (hello_mkdir m junk path s ≡ some (neg efault, put (child_key (neg 1) parent) (cell path) s))
      × (hello_create m junk path s ≡ some (none, put (child_key (neg 1) parent) (cell path) s))
  unfolding hello_mkdir hello_create
  missing_parent = (rw add_to_parent-missing, rw add_to_parent-missing)
