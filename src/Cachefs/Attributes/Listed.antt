-- ===== src/Cachefs/Attributes/Listed.antt =====
-- What it means that a path has a list of extended attributes in cachedfs/main.c.
use fuse_using_memcached.Prelude.{
  ℕ, suc, ◌+◌, ◌^◌, ◌≤◌, ◌<◌, ◌≡◌, ◌≢◌, ap, ◌∙◌, [], ◌∷◌, ◌++◌, false, some, Bytes, List, same,
  length, All, arith,
}
use fuse_using_memcached.Memcache.Server.{Memcached}
use fuse_using_memcached.Cachefs.Layout.{Header, IsHeader, header_cell}
use fuse_using_memcached.Cachefs.Keys.{xattr_key}
use fuse_using_memcached.Cachefs.Keys.Laws.{IsPath}
use fuse_using_memcached.Cachefs.Keys.Distinct.{
  Name, header_of, xattr_of, key_of, key_of-injective, key_of-ne_kind, same-ne,
}
use fuse_using_memcached.Cachefs.Attributes.Stored.{Xattr, IsXattr, xattr_cell}

abbrev number_of : Name → ℕ
number_of (xattr_of i p) = i
number_of _ = 0

-- The keys of a path's attributes differ from one another and from every path.
pub xattr_key-xattr_key :
    {i j : ℕ} {p : Bytes}
    → i < 2 ^ 31
    → j < 2 ^ 31
    → IsPath p
    → i ≢ j
    → same (xattr_key i p) (xattr_key j p) ≡ false
unfolding key_of
xattr_key-xattr_key {i} {j} {p} si sj hp ne =
    same-ne (xattr_key i p) (xattr_key j p)
      (λ e. ne (ap number_of (key_of-injective (xattr_of i p) (xattr_of j p) (si, hp) (sj, hp) e)))

pub xattr_key-path :
    {i : ℕ} {p q : Bytes} → i < 2 ^ 31 → IsPath p → IsPath q → same (xattr_key i p) q ≡ false
unfolding key_of
xattr_key-path {i} {p} {q} si hp hq =
    key_of-ne_kind (xattr_of i p) (header_of q) (si, hp) hq (λ e. absurd (omega arith))

pub path-xattr_key :
    {i : ℕ} {p q : Bytes} → i < 2 ^ 31 → IsPath p → IsPath q → same q (xattr_key i p) ≡ false
unfolding key_of
path-xattr_key {i} {p} {q} si hp hq =
    key_of-ne_kind (header_of q) (xattr_of i p) hq (si, hp) (λ e. absurd (omega arith))

pub recount-IsHeader :
    (h : Header) (n : ℕ) → IsHeader h → n < 2 ^ 31 → IsHeader (record h { xattr_num = n })
recount-IsHeader h n fields small = record {
  is_dir = fields.is_dir;
  data_len = fields.data_len;
  num_buckets = fields.num_buckets;
  parent_index = fields.parent_index;
  xattr_num = omega arith;
}

module _ (m : Memcached) where
  open m use {view}

  -- The attribute `i` of the path is stored.
  pub record HasXattr (s : m.State) (path : Bytes) (i : ℕ) (x : Xattr) : Type 0 where
    pub mid : Bytes
    pub pad : Bytes
    pub mid_length : length mid ≡ 12
    pub pad_length : length pad ≡ 4
    pub stored : view s (xattr_key i path) ≡ some (xattr_cell mid pad i x)

  -- The attributes from `i` on.
  abbrev pub Held : m.State → Bytes → ℕ → List Xattr → Type 0
  Held s path i [] = Unit
  Held s path i (x ∷ xs) = HasXattr s path i x × Held s path (suc i) xs

  -- The path has a header, and the attributes of the list, whose number the header says.
  pub record HasXattrs (s : m.State) (path : Bytes) (h : Header) (xs : List Xattr) : Type 0 where
    pub path_ok : IsPath path
    pub fields : IsHeader h
    pub main : view s path ≡ some (header_cell h)
    pub counted : h.xattr_num ≡ length xs
    pub few : length xs < 2 ^ 30
    pub valid : All IsXattr xs
    pub held : Held s path 1 xs

  pub HasXattr-agree :
      (s t : m.State) (path : Bytes) (i : ℕ) (x : Xattr)
      → view t (xattr_key i path) ≡ view s (xattr_key i path)
      → HasXattr s path i x
      → HasXattr t path i x
  HasXattr-agree s t path i x same_view hx = record {
    mid = hx.mid;
    pad = hx.pad;
    mid_length = hx.mid_length;
    pad_length = hx.pad_length;
    stored = same_view ∙ hx.stored;
  }

  pub Held-agree :
      (s t : m.State) (path : Bytes) (i : ℕ) (xs : List Xattr)
      → ((j : ℕ)
          → i ≤ j
          → j < i + length xs
          → view t (xattr_key j path) ≡ view s (xattr_key j path))
      → Held s path i xs
      → Held t path i xs
  Held-agree s t path i [] same_view h = tt
  Held-agree s t path i (x ∷ xs) same_view (hx, h) = (
    HasXattr-agree s t path i x (same_view i (omega arith) (omega arith)) hx,
    Held-agree s t path (suc i) xs (λ j lo hi. same_view j (omega arith) (omega arith)) h,
  )

  pub Held-append :
      (s : m.State) (path : Bytes) (i : ℕ) (xs ys : List Xattr)
      → Held s path i xs
      → Held s path (i + length xs) ys
      → Held s path i (xs ++ ys)
  Held-append s path i [] ys h k = let e : i + 0 ≡ i = omega arith in rw e at k
  Held-append s path i (x ∷ xs) ys (hx, h) k =
      let e : i + suc (length xs) ≡ suc i + length xs = omega arith in
      (hx, Held-append s path (suc i) xs ys h (rw e at k))
