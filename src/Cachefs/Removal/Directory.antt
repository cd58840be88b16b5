-- ===== src/Cachefs/Removal/Directory.antt =====
-- `hello_rmdir` of cachedfs/main.c on a directory that is an entry of another one.
use fuse_using_memcached.Prelude.{
  ℕ, suc, ◌+◌, ◌^◌, ◌≤◌, ◌<◌, ◌≡◌, ◌%◌, refl, ap, ◌∙◌, subst, [], ◌∷◌, ◌++◌, none, some, Bytes,
  List, same_refl, length, get_or, set, arith, length-append, get_or-append_at, All-get_or, lt→ltb,
}
use fuse_using_memcached.Machine.Word.{neg}
use fuse_using_memcached.Machine.Buffer.{block, store}
use fuse_using_memcached.Memcache.Server.{Memcached}
use fuse_using_memcached.Cachefs.Layout.{
  Header, IsHeader, header_cell, cell, enotempty, enotdir, enoent,
}
use fuse_using_memcached.Cachefs.Keys.{child_key}
use fuse_using_memcached.Cachefs.Keys.Laws.{IsPath, IsPath-IsKey}
use fuse_using_memcached.Cachefs.Counters.Laws.{
  get_header, get_missing, load-num_buckets, load-parent_index,
}
use fuse_using_memcached.Cachefs.Listing.Tokens.{IsFileName, join}
use fuse_using_memcached.Cachefs.Listing.Growth.{parent_of-join, join-ne_root, join-IsPath}
use fuse_using_memcached.Cachefs.Listing.Populated.{
  HasIndex, IsPopulated, dir-ne_join, entry-IsPath,
}
use fuse_using_memcached.Cachefs.Removal.{
  remove_dir, remove_file, remove_entry, hello_rmdir, hello_unlink,
}
use fuse_using_memcached.Cachefs.Removal.Entry.{removed, remove_entry-removed}
use fuse_using_memcached.Cachefs.Removal.Laws.{left-IsPopulated, view-removed}

module _ (m : Memcached) (junk : ℕ → ℕ → ℕ) (s : m.State) (dir last : Bytes) (front : List Bytes)
    (h : Header) (p : IsPopulated m s dir h (front ++ (last ∷ []))) (k : ℕ)
    (k_in : k ≤ length front)
    (c : HasIndex m s (join dir (get_or (front ++ (last ∷ [])) k [])) (suc k)) where
  open m use {view}

  pub last_child : HasIndex m s (join dir last) (suc (length front))
  last_child =
      subst (λ n. HasIndex m s (join dir n) (suc (length front)))
        (get_or-append_at front last [] [])
        (p.children (length front) (omega (arith, length-append front (last ∷ []))))

  -- The store behind the two functions' common part.
  abbrev pub left : m.State
  left =
      removed m (join dir (get_or (front ++ (last ∷ [])) k [])) dir (join dir last) (suc k) h
        last_child.header s

  pub store-IsPopulated :
      IsPopulated m left dir (record h { num_buckets = length front }) (set front k last)
  store-IsPopulated =
      let l = last_child in
      left-IsPopulated m s dir last front h l.header p k k_in l.fields l.buckets l.xattrs

  -- Of the entry nothing is left.
  pub left-gone : view left (join dir (get_or (front ++ (last ∷ [])) k [])) ≡ none
  left-gone =
      let l = last_child in
      let path = join dir (get_or (front ++ (last ∷ [])) k []) in
      view-removed m path dir (join dir last) (suc k) h l.header s path ∙ rw (same_refl path) refl

  pub remove_entry-left :
      (blk : ℕ → ℕ)
      → remove_entry m junk
          (join dir (get_or (front ++ (last ∷ [])) k []))
          dir
          (store 0 (header_cell c.header) (block 1280 blk))
          s
        ≡ some (tt, left)
  remove_entry-left blk =
      let d = p.directory in
      let l = last_child in
      let size = length-append front (last ∷ []) in
      let few = d.few in
      let n : h.num_buckets ≡ suc (length front) = omega (arith, d.counted, size) in
      let last_at = get_or-append_at front last [] [] in
      remove_entry-removed m junk (join dir (get_or (front ++ (last ∷ [])) k [])) dir
        (join dir last) (suc k) (store 0 (header_cell c.header) (block 1280 blk)) h l.header s
        (entry-IsPath d k (omega (arith, size))) d.path_ok
        (subst (λ q. IsPath (join dir q)) last_at
          (entry-IsPath d (length front) (omega (arith, size))))
        d.fields l.fields (omega (arith, size))
        (load-parent_index c.header (block 1280 blk) c.fields ∙ c.placed) (omega (arith, n))
        (omega (arith, n, size))
        (dir-ne_join dir last (
          subst IsFileName last_at (
            All-get_or IsFileName (front ++ (last ∷ [])) (length front) [] d.named
              (omega (arith, size)))))
        d.main
        (ap (λ i. view s (child_key i dir)) n
          ∙ d.entries (length front) (omega (arith, size))
          ∙ ap (λ q. some (cell (join dir q))) last_at)
        l.main

  -- `hello_rmdir` of an empty directory among a directory's entries returns 0. The entry is gone, the
  -- last entry has its place and its number, and the other entries stay where they are.
  pub hello_rmdir-IsPopulated :
      c.header.num_buckets ≡ 0
      → (s' : m.State) × (hello_rmdir m junk (join dir (get_or (front ++ (last ∷ [])) k [])) s
          ≡ some (0, s'))
        × IsPopulated m s' dir (record h { num_buckets = length front }) (set front k last)
        × (view s' (join dir (get_or (front ++ (last ∷ [])) k [])) ≡ none)
  unfolding hello_rmdir remove_dir
  hello_rmdir-IsPopulated empty =
      let d = p.directory in
      let name = get_or (front ++ (last ∷ [])) k [] in
      let size = length-append front (last ∷ []) in
      let name_ok =
        All-get_or IsFileName (front ++ (last ∷ [])) k [] d.named (omega (arith, size)) in
      let short =
        All-get_or (λ n. length (join dir n) ≤ 238) (front ++ (last ∷ [])) k [] d.short
          (omega (arith, size)) in
      let path_ok = entry-IsPath d k (omega (arith, size)) in
      (
        left,
        rw
            (
              join-ne_root dir name d.path_ok name_ok short,
              parent_of-join dir name d.path_ok name_ok short,
              get_header m junk (join dir name) s (IsPath-IsKey path_ok) c.header c.fields c.main 0
                  1,
              load-num_buckets c.header (block 1280 (junk 1)) c.fields ∙ empty,
              remove_entry-left (junk 1),
            )
            refl,
        store-IsPopulated,
        left-gone,
      )

module _ (m : Memcached) (junk : ℕ → ℕ → ℕ) (s : m.State) (dir name : Bytes) (dir_ok : IsPath dir)
    (named : IsFileName name) (short : length (join dir name) ≤ 238) where
  open m use {view}

  -- `hello_rmdir` of a directory with entries returns -ENOTEMPTY and changes nothing.
  pub hello_rmdir-not_empty :
      (h : Header)
      → IsHeader h
      → view s (join dir name) ≡ some (header_cell h)
      → 0 < h.num_buckets
      → h.num_buckets < 2 ^ 31
      → hello_rmdir m junk (join dir name) s ≡ some (neg enotempty, s)
  unfolding hello_rmdir remove_dir
  hello_rmdir-not_empty h fields here some_child few =
      let path_ok = join-IsPath dir name dir_ok named short in
      rw
        (
          join-ne_root dir name dir_ok named short,
          parent_of-join dir name dir_ok named short,
          get_header m junk (join dir name) s (IsPath-IsKey path_ok) h fields here 0 1,
          load-num_buckets h (block 1280 (junk 1)) fields,
          lt→ltb ((0 + 2 ^ 31) % 2 ^ 32) ((h.num_buckets + 2 ^ 31) % 2 ^ 32) (omega arith),
        )
        refl

  -- Of a path that is not there, `hello_rmdir` returns -ENOTDIR, `hello_unlink` returns -ENOENT, and
  -- neither changes anything.
  pub hello_rmdir-missing :
      view s (join dir name) ≡ none
      → (hello_rmdir m junk (join dir name) s ≡ some (neg enotdir, s))
        × (hello_unlink m junk (join dir name) s ≡ some (neg enoent, s))
  unfolding hello_rmdir remove_dir hello_unlink remove_file
  hello_rmdir-missing gone =
      let path_ok = join-IsPath dir name dir_ok named short in
      (
        rw
            (
              join-ne_root dir name dir_ok named short,
              parent_of-join dir name dir_ok named short,
              get_missing m junk (join dir name) s (IsPath-IsKey path_ok) gone 0 1,
            )
            refl,
        rw
            (
              join-ne_root dir name dir_ok named short,
              parent_of-join dir name dir_ok named short,
              get_missing m junk (join dir name) s (IsPath-IsKey path_ok) gone 0 1,
            )
            refl,
      )
