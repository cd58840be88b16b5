-- ===== src/Cachefs/Listing/Populated.antt =====
-- A directory together with the main values of its entries, each of which knows its number.
use fuse_using_memcached.Prelude.{
  ℕ, suc, ◌^◌, ◌<◌, ◌≤◌, ◌≡◌, ◌≢◌, refl, ap, ◌∙◌, [], ◌∷◌, false, some, Bytes, List, same, length,
  get_or, drop, arith, append_cancel, All-get_or, Bool-cases, inl, inr, same_iff,
}
use fuse_using_memcached.Memcache.Server.{Memcached}
use fuse_using_memcached.Cachefs.Layout.{Header, IsHeader, header_cell}
use fuse_using_memcached.Cachefs.Keys.{root, child_key}
use fuse_using_memcached.Cachefs.Keys.Laws.{IsPath}
use fuse_using_memcached.Cachefs.Keys.Distinct.{same-ne}
use fuse_using_memcached.Cachefs.Listing.Tokens.{IsFileName, stem, join, length-join}
use fuse_using_memcached.Cachefs.Listing.Laws.{IsDirectory}
use fuse_using_memcached.Cachefs.Listing.Growth.{join-IsPath}

-- Two entries of a directory have the same path only if they have the same name.
pub join_cancel : (dir a b : Bytes) → join dir a ≡ join dir b → a ≡ b
unfolding join
join_cancel dir a b e = ap (drop 1) (append_cancel (stem dir) (b'/' ∷ a) (b'/' ∷ b) e)

pub join-ne : (dir a b : Bytes) → a ≢ b → same (join dir a) (join dir b) ≡ false
join-ne dir a b ne = same-ne (join dir a) (join dir b) (λ e. ne (join_cancel dir a b e))

dir-lt_join : (dir name : Bytes) → 0 < length name → length dir < length (join dir name)
unfolding stem
dir-lt_join dir name filled =
    let len = length-join dir name in
    elim (Bool-cases (same dir root)) [
      | inl e ↦ let short = ap length ((same_iff dir root).0 e) in omega arith
      | inr e ↦ let kept : stem dir ≡ dir = rw e refl in omega (arith, ap length kept)
    ]

-- An entry's path is not the directory's.
pub dir-ne_join : (dir name : Bytes) → IsFileName name → same dir (join dir name) ≡ false
dir-ne_join dir name n =
    same-ne dir (join dir name)
      (λ e. absurd (omega (arith, dir-lt_join dir name n.filled, ap length e)))

pub join-ne_dir : (dir name : Bytes) → IsFileName name → same (join dir name) dir ≡ false
join-ne_dir dir name n =
    same-ne (join dir name) dir
      (λ e. absurd (omega (arith, dir-lt_join dir name n.filled, ap length e)))

module _ (m : Memcached) where
  open m use {view}

  -- The entry `path` has a header that says that it is child `i`, with counts that are not negative.
  pub record HasIndex (s : m.State) (path : Bytes) (i : ℕ) : Type 0 where
    pub header : Header
    pub fields : IsHeader header
    pub placed : header.parent_index ≡ i
    pub buckets : header.num_buckets < 2 ^ 31
    pub xattrs : header.xattr_num < 2 ^ 31
    pub main : view s path ≡ some (header_cell header)

  pub record IsPopulated (s : m.State) (dir : Bytes) (h : Header) (names : List Bytes)
      : Type 0 where
    pub directory : IsDirectory m s dir h names
    pub distinct :
        (i j : ℕ)
        → i < length names
        → j < length names
        → get_or names i [] ≡ get_or names j []
        → i ≡ j
    pub children : (i : ℕ) → i < length names → HasIndex s (join dir (get_or names i [])) (suc i)

module _ {m : Memcached} {s : m.State} {dir : Bytes} {h : Header} {names : List Bytes}
    (d : IsDirectory m s dir h names) (i : ℕ) (lt : i < length names) where
  pub entry-IsPath : IsPath (join dir (get_or names i []))
  entry-IsPath =
      join-IsPath dir (get_or names i []) d.path_ok (All-get_or IsFileName names i [] d.named lt)
        (All-get_or (λ n. length (join dir n) ≤ 238) names i [] d.short lt)

-- Whether a directory is populated depends on the main values and on its own entries only.
pub IsPopulated-agree :
    (m : Memcached) (s t : m.State) (dir : Bytes) (h : Header) (names : List Bytes)
    → ((k : Bytes) → IsPath k → m.view t k ≡ m.view s k)
    → ((i : ℕ) → i < 2 ^ 31 → m.view t (child_key i dir) ≡ m.view s (child_key i dir))
    → IsPopulated m s dir h names
    → IsPopulated m t dir h names
IsPopulated-agree m s t dir h names main_same child_same p =
    let d = p.directory in
    record {
      directory = record {
        path_ok = d.path_ok;
        fields = d.fields;
        main = main_same dir d.path_ok ∙ d.main;
        counted = d.counted;
        few = d.few;
        entries = λ i lt. child_same (suc i) (omega (arith, d.few)) ∙ d.entries i lt;
        named = d.named;
        short = d.short;
      };
      distinct = p.distinct;
      children = λ i lt.
          let c = p.children i lt in
          record {
            header = c.header;
            fields = c.fields;
            placed = c.placed;
            buckets = c.buckets;
            xattrs = c.xattrs;
            main = main_same (join dir (get_or names i [])) (entry-IsPath d i lt) ∙ c.main;
          };
    }
