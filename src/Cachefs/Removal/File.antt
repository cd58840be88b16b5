-- ===== src/Cachefs/Removal/File.antt =====
-- `hello_unlink` of cachedfs/main.c on an entry of a directory.
use fuse_using_memcached.Prelude.{
  ℕ, suc, ◌+◌, ◌^◌, ◌≤◌, ◌<◌, ◌≡◌, refl, ap, ◌∙◌, [], ◌∷◌, ◌++◌, none, some, Bytes, List, length,
  get_or, set, arith, length-append, All-get_or, lt→leb_false,
}
use fuse_using_memcached.Machine.Buffer.{block}
use fuse_using_memcached.Memcache.Server.{Memcached}
use fuse_using_memcached.Cachefs.Layout.{Header}
use fuse_using_memcached.Cachefs.Keys.{data_key, xattr_key}
use fuse_using_memcached.Cachefs.Keys.Laws.{IsPath, IsPath-IsKey, data_key-IsKey, xattr_key-IsKey}
use fuse_using_memcached.Cachefs.Keys.Distinct.{
  Name, IsName, key_of, kind, header_of, child_of, data_of, xattr_of, key_of-ne_kind,
}
use fuse_using_memcached.Cachefs.Counters.Laws.{get_header, load-num_buckets, load-xattr_num}
use fuse_using_memcached.Cachefs.Listing.Tokens.{IsFileName, join}
use fuse_using_memcached.Cachefs.Listing.Growth.{parent_of-join, join-ne_root}
use fuse_using_memcached.Cachefs.Listing.Populated.{
  HasIndex, IsPopulated, IsPopulated-agree, entry-IsPath,
}
use fuse_using_memcached.Cachefs.Removal.{remove_file, hello_unlink}
use fuse_using_memcached.Cachefs.Removal.Cleanup.{
  without, delete_all-without, view-without_other, view-without_named,
}
use fuse_using_memcached.Cachefs.Removal.Directory.{
  left, store-IsPopulated, left-gone, remove_entry-left,
}

-- Nothing is left of a file: no main value, and none of so many buckets and attributes.
pub record IsDeleted (m : Memcached) (s : m.State) (path : Bytes) (buckets xattrs : ℕ)
    : Type 0 where
  pub main : m.view s path ≡ none
  pub data_gone : (i : ℕ) → i < buckets → m.view s (data_key (suc i) path) ≡ none
  pub xattrs_gone : (i : ℕ) → i < xattrs → m.view s (xattr_key (suc i) path) ≡ none

module _ (m : Memcached) (path : Bytes) (ok : IsPath path) (buckets xattrs : ℕ)
    (few_buckets : buckets < 2 ^ 31) (few_xattrs : xattrs < 2 ^ 31) (s : m.State) where
  open m use {view}

  abbrev pub no_xattrs : m.State
  no_xattrs = without m xattr_key path xattrs 1 s

  abbrev pub cleared : m.State
  cleared = without m data_key path buckets 1 (without m xattr_key path xattrs 1 s)

  -- The loops name no key but those of the file's attributes and data.
  cleared-other : (n : Name) → IsName n → kind n < 2 → view cleared (key_of n) ≡ view s (key_of n)
  unfolding key_of
  cleared-other n good low =
      view-without_other m data_key path buckets 1 no_xattrs (key_of n) (λ j a b.
        key_of-ne_kind (data_of j path) n (omega arith, ok) good (λ e. absurd (omega arith)))
      ∙ view-without_other m xattr_key path xattrs 1 s (key_of n) (λ j a b.
        key_of-ne_kind (xattr_of j path) n (omega arith, ok) good (λ e. absurd (omega arith)))

  cleared-IsDeleted : view s path ≡ none → IsDeleted m cleared path buckets xattrs
  unfolding key_of
  cleared-IsDeleted gone = record {
    main = cleared-other (header_of path) ok (omega arith) ∙ gone;
    data_gone = λ i lt.
        ap (λ k. view cleared (data_key k path)) (let e : suc i ≡ 1 + i = omega arith in e)
        ∙ view-without_named m data_key path buckets 1 no_xattrs i lt;
    xattrs_gone = λ i lt.
        view-without_other m data_key path buckets 1 no_xattrs (xattr_key (suc i) path) (λ j a b.
          key_of-ne_kind (data_of j path) (xattr_of (suc i) path) (omega arith, ok)
            (omega arith, ok) (λ e. absurd (omega arith)))
        ∙ ap (λ k. view no_xattrs (xattr_key k path)) (let e : suc i ≡ 1 + i = omega arith in e)
        ∙ view-without_named m xattr_key path xattrs 1 s i lt;
  }

  cleared-IsPopulated :
      (dir : Bytes) (h : Header) (names : List Bytes)
      → IsPath dir
      → IsPopulated m s dir h names
      → IsPopulated m cleared dir h names
  unfolding key_of
  cleared-IsPopulated dir h names dir_ok =
      IsPopulated-agree m s cleared dir h names
        (λ k good. cleared-other (header_of k) good (omega arith))
        (λ i small. cleared-other (child_of i dir) (small, dir_ok) (omega arith))

module _ (m : Memcached) (junk : ℕ → ℕ → ℕ) (s : m.State) (dir last : Bytes) (front : List Bytes)
    (h : Header) (p : IsPopulated m s dir h (front ++ (last ∷ []))) (k : ℕ)
    (k_in : k ≤ length front)
    (c : HasIndex m s (join dir (get_or (front ++ (last ∷ [])) k [])) (suc k)) where
  -- `hello_unlink` of an entry of a directory returns 0. Nothing is left of the file, its buckets and
  -- its attributes; the last entry has its place and its number, and the other entries stay.
  pub hello_unlink-IsPopulated :
      (s' : m.State) × (hello_unlink m junk (join dir (get_or (front ++ (last ∷ [])) k [])) s
        ≡ some (0, s'))
      × IsPopulated m s' dir (record h { num_buckets = length front }) (set front k last)
      × IsDeleted m s'
          (join dir (get_or (front ++ (last ∷ [])) k []))
          c.header.num_buckets
          c.header.xattr_num
  unfolding hello_unlink remove_file
  hello_unlink-IsPopulated =
      let few_buckets = c.buckets in
      let few_xattrs = c.xattrs in
      let d = p.directory in
      let name = get_or (front ++ (last ∷ [])) k [] in
      let path = join dir name in
      let size = length-append front (last ∷ []) in
      let name_ok =
        All-get_or IsFileName (front ++ (last ∷ [])) k [] d.named (omega (arith, size)) in
      let short =
        All-get_or (λ n. length (join dir n) ≤ 238) (front ++ (last ∷ [])) k [] d.short
          (omega (arith, size)) in
      let path_ok = entry-IsPath d k (omega (arith, size)) in
      let s₁ = left m junk s dir last front h p k k_in c in
      let buckets = c.header.num_buckets in
      let xattrs = c.header.xattr_num in
      let s₂ = without m xattr_key path xattrs 1 s₁ in
      (
        cleared m path path_ok buckets xattrs few_buckets few_xattrs s₁,
        rw
            (
              join-ne_root dir name d.path_ok name_ok short,
              parent_of-join dir name d.path_ok name_ok short,
              get_header m junk path s (IsPath-IsKey path_ok) c.header c.fields c.main 0 1,
              load-num_buckets c.header (block 1280 (junk 1)) c.fields,
              load-xattr_num c.header (block 1280 (junk 1)) c.fields,
              remove_entry-left m junk s dir last front h p k k_in c (junk 1),
              lt→leb_false (2 ^ 31) xattrs few_xattrs,
              lt→leb_false (2 ^ 31) buckets few_buckets,
              delete_all-without m junk xattr_key path (λ i small. xattr_key-IsKey i small path_ok)
                  xattrs 1 s₁ (omega arith),
              delete_all-without m junk data_key path (λ i small. data_key-IsKey i small path_ok)
                  buckets 1 s₂ (omega arith),
            )
            refl,
        cleared-IsPopulated m path path_ok buckets xattrs few_buckets few_xattrs s₁ dir
            (record h { num_buckets = length front }) (set front k last) d.path_ok
            (store-IsPopulated m junk s dir last front h p k k_in c),
        cleared-IsDeleted m path path_ok buckets xattrs few_buckets few_xattrs s₁
            (left-gone m junk s dir last front h p k k_in c),
      )
