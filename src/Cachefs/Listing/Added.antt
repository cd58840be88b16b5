-- ===== src/Cachefs/Listing/Added.antt =====
-- A new file in a populated directory.
use fuse_using_memcached.Prelude.{
  ℕ, suc, ◌+◌, ◌^◌, ◌<◌, ◌≤◌, ◌≡◌, ◌≢◌, ap, ◌∙◌, sym, subst, length-append, get_or-append_left,
  get_or-append_at, ltb, ltb→lt, [], ◌∷◌, ◌++◌, some, Bytes, List, length, get_or, arith,
  All-get_or, Bool-cases, inl, inr,
}
use fuse_using_memcached.Memcache.Server.{Memcached}
use fuse_using_memcached.Cachefs.Layout.{Header, header_cell}
use fuse_using_memcached.Cachefs.Keys.Distinct.{child_key-path}
use fuse_using_memcached.Cachefs.Listing.Tokens.{IsFileName, join}
use fuse_using_memcached.Cachefs.Entries.{hello_create}
use fuse_using_memcached.Cachefs.Entries.Laws.{Linked, new_file, hello_create-Linked}
use fuse_using_memcached.Cachefs.Listing.Growth.{
  join-IsPath, join-ne_root, parent_of-join, IsDirectory-Linked,
}
use fuse_using_memcached.Cachefs.Listing.Populated.{
  join-ne, dir-ne_join, HasIndex, IsPopulated, entry-IsPath,
}

module _ (m : Memcached) (junk : ℕ → ℕ → ℕ) (s : m.State) (dir name : Bytes) (h : Header)
    (names : List Bytes) (p : IsPopulated m s dir h names) (n : IsFileName name)
    (short : length (join dir name) ≤ 238) (room : suc (suc (length names)) < 2 ^ 31)
    (fresh : (i : ℕ) → i < length names → get_or names i [] ≢ name) where
  abbrev more : List Bytes
  more = names ++ (name ∷ [])

  size_lem : length (names ++ (name ∷ [])) ≡ length names + 1
  size_lem = length-append names (name ∷ [])

  new_at : (i : ℕ) → i ≡ length names → get_or (names ++ (name ∷ [])) i [] ≡ name
  new_at i e = ap (λ j. get_or more j []) e ∙ get_or-append_at names name [] []

  distinct_more :
      (i j : ℕ)
      → i < length (names ++ (name ∷ []))
      → j < length (names ++ (name ∷ []))
      → get_or (names ++ (name ∷ [])) i [] ≡ get_or (names ++ (name ∷ [])) j []
      → i ≡ j
  distinct_more i j i_in j_in e = elim (Bool-cases (ltb i (length names))) [
    | inl a ↦
        let i_old = get_or-append_left names (name ∷ []) i [] (ltb→lt i (length names) a) in
        elim (Bool-cases (ltb j (length names))) [
          | inl b ↦
              let j_old = get_or-append_left names (name ∷ []) j [] (ltb→lt j (length names) b) in
              p.distinct i j (ltb→lt i (length names) a) (ltb→lt j (length names) b)
                (sym i_old ∙ e ∙ j_old)
          | inr b ↦ absurd (
              fresh i (ltb→lt i (length names) a)
                (sym i_old ∙ e ∙ new_at j (ground (arith, size_lem))))
        ]
    | inr a ↦ elim (Bool-cases (ltb j (length names))) [
      | inl b ↦ absurd (
          fresh j (ltb→lt j (length names) b) (
            sym (get_or-append_left names (name ∷ []) j [] (ltb→lt j (length names) b))
            ∙ sym e
            ∙ new_at i (ground (arith, size_lem))))
      | inr b ↦ ground (arith, size_lem)
    ]
  ]

  module _ {s' : m.State}
      (l : Linked m s s' (join dir name) dir (header_cell (new_file (h.num_buckets + 1))) h) where
    old_child :
        (i : ℕ)
        → i < length names
        → HasIndex m s' (join dir (get_or (names ++ (name ∷ [])) i [])) (suc i)
    old_child i lt =
        let d = p.directory in
        let c = p.children i lt in
        subst (λ q. HasIndex m s' (join dir q) (suc i))
          (sym (get_or-append_left names (name ∷ []) i [] lt))
          (record {
            header = c.header;
            fields = c.fields;
            placed = c.placed;
            buckets = c.buckets;
            xattrs = c.xattrs;
            main =
                l.others (join dir (get_or names i []))
                  (join-ne dir name (get_or names i []) (λ e. fresh i lt (sym e)))
                  (dir-ne_join dir (get_or names i [])
                    (All-get_or IsFileName names i [] d.named lt))
                  (child_key-path (h.num_buckets + 1) (omega (arith, d.counted)) d.path_ok
                    (entry-IsPath d i lt))
                ∙ c.main;
          })

    new_child :
        (i : ℕ)
        → i ≡ length names
        → HasIndex m s' (join dir (get_or (names ++ (name ∷ [])) i [])) (suc i)
    new_child i e =
        let d = p.directory in
        subst (λ q. HasIndex m s' (join dir q) (suc i)) (sym (new_at i e))
          (record {
            header = new_file (h.num_buckets + 1);
            fields = record {
              is_dir = omega arith;
              data_len = omega arith;
              num_buckets = omega arith;
              parent_index = omega (arith, d.counted);
              xattr_num = omega arith;
            };
            placed = omega (arith, d.counted);
            buckets = omega arith;
            xattrs = omega arith;
            main = l.entry;
          })

  -- `hello_create` of a name that a directory does not have returns 0 and adds the name at the end.
  pub hello_create-IsPopulated :
      (s' : m.State) × (hello_create m junk (join dir name) s ≡ some (some 0, s'))
      × IsPopulated m s' dir (record h { num_buckets = h.num_buckets + 1 }) (names ++ (name ∷ []))
  hello_create-IsPopulated =
      let d = p.directory in
      let path_ok = join-IsPath dir name d.path_ok n short in
      let (s', run, l) =
        hello_create-Linked m junk s path_ok d.path_ok (parent_of-join dir name d.path_ok n short)
          (join-ne_root dir name d.path_ok n short) h d.fields d.main (omega (arith, d.counted)) in
      (
        s',
        run,
        record {
          directory = IsDirectory-Linked m d n short room l;
          distinct = distinct_more;
          children = λ i lt. elim (Bool-cases (ltb i (length names))) [
            | inl e ↦ old_child l i (ltb→lt i (length names) e)
            | inr e ↦ new_child l i (ground (arith, size_lem))
          ];
        },
      )
