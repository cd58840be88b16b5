-- ===== src/Cachefs/Listing/Laws.antt =====
-- Directories: what `hello_readdir` lists, and what a new entry adds to it.
use fuse_using_memcached.Prelude.{
  ℕ, suc, ◌+◌, ◌*◌, ◌^◌, ◌≤◌, ◌<◌, ◌≡◌, refl, ap, ◌∙◌, [], ◌∷◌, List, some, Bytes, codes, length,
  get_or, All, arith, le→leb, lt→leb_false,
}
use fuse_using_memcached.Machine.Buffer.{block}
use fuse_using_memcached.Memcache.Server.{Memcached}
use fuse_using_memcached.Memcache.Laws.{cache_get-hit}
use fuse_using_memcached.Cachefs.Layout.{Header, IsHeader, header_cell, cell}
use fuse_using_memcached.Cachefs.Keys.{child_key}
use fuse_using_memcached.Cachefs.Keys.Laws.{IsPath, IsPath-IsKey, child_key-IsKey, length-child_key}
use fuse_using_memcached.Cachefs.Counters.Laws.{get_header, load-num_buckets}
use fuse_using_memcached.Cachefs.Listing.{child_name, child_names, hello_readdir}
use fuse_using_memcached.Cachefs.Listing.Tokens.{IsFileName, join, last_token-join, cell-IsValue}

module _ (m : Memcached) where
  open m use {view}

  -- The directory `dir` has the header `h`, and its entries hold the children `names` in order.
  pub record IsDirectory (s : m.State) (dir : Bytes) (h : Header) (names : List Bytes)
      : Type 0 where
    pub path_ok : IsPath dir
    pub fields : IsHeader h
    pub main : view s dir ≡ some (header_cell h)
    pub counted : h.num_buckets ≡ length names
    pub few : suc (length names) < 2 ^ 31
    pub entries :
        (i : ℕ)
        → i < length names
        → view s (child_key (suc i) dir) ≡ some (cell (join dir (get_or names i [])))
    pub named : All IsFileName names
    pub short : All (λ n. length (join dir n) ≤ 238) names

module _ (m : Memcached) (junk : ℕ → ℕ → ℕ) (s : m.State) (dir : Bytes) (dir_ok : IsPath dir) where
  open m use {view}

  child_name-join :
      (i : ℕ) (name : Bytes)
      → i < 2 ^ 31
      → IsFileName name
      → length (join dir name) ≤ 238
      → view s (child_key i dir) ≡ some (cell (join dir name))
      → child_name m junk i dir s ≡ some (name, s)
  unfolding child_name
  child_name-join i name small named short here =
      let n = 2 + 2 * i in
      let blk = block 1280 (junk (3 + 2 * i)) in
      rw (
        le→leb (length (child_key i dir) + 1) 250 (omega (arith, length-child_key i small dir_ok)),
        cache_get-hit m (junk n) (child_key i dir) (cell (join dir name)) blk s
            (child_key-IsKey i small dir_ok) (cell-IsValue (join dir name) (omega arith)) here
            (omega arith),
        last_token-join dir name named short blk refl,
      )

  child_names_of_entries :
      (names : List Bytes) (i : ℕ)
      → i + length names < 2 ^ 31
      → All IsFileName names
      → All (λ n. length (join dir n) ≤ 238) names
      → ((j : ℕ)
          → j < length names
          → view s (child_key (i + j) dir) ≡ some (cell (join dir (get_or names j []))))
      → child_names m junk (length names) i dir s ≡ some (names, s)
  unfolding child_names
  child_names_of_entries [] i small named short entries = refl
  child_names_of_entries (name ∷ names) i small (n, ns) (t, ts) entries =
      let e : i ≡ i + 0 = omega arith in
      rw (
        child_name-join i name (omega arith) n t
            (ap (λ j. view s (child_key j dir)) e ∙ entries 0 (omega arith)),
        child_names_of_entries names (suc i) (omega arith) ns ts (λ j lt.
            let f : suc i + j ≡ i + suc j = omega arith in
            ap (λ k. view s (child_key k dir)) f ∙ entries (suc j) (omega arith)),
      )

-- `hello_readdir` lists the two dots and the directory's names, each once and in order.
pub hello_readdir-names :
    (m : Memcached) (junk : ℕ → ℕ → ℕ) (s : m.State) (dir : Bytes) (h : Header) (names : List Bytes)
    → IsDirectory m s dir h names
    → hello_readdir m junk dir s ≡ some ((0, codes "." ∷ codes ".." ∷ names), s)
unfolding hello_readdir
hello_readdir-names m junk s dir h names d = rw (
  get_header m junk dir s (IsPath-IsKey d.path_ok) h d.fields d.main 0 1,
  load-num_buckets h (block 1280 (junk 1)) d.fields,
  d.counted,
  lt→leb_false (2 ^ 31) (length names) (omega (arith, d.few)),
  child_names_of_entries m junk s dir d.path_ok names 1 (omega (arith, d.few)) d.named d.short
      (λ i lt.
        let e : 1 + i ≡ suc i = omega arith in
        ap (λ k. m.view s (child_key k dir)) e ∙ d.entries i lt),
)
