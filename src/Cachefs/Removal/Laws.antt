-- ===== src/Cachefs/Removal/Laws.antt =====
-- A directory behind `hello_rmdir` or `hello_unlink` of one of its entries.
use fuse_using_memcached.Prelude.{
  ℕ, suc, ◌+◌, ◌-◌, ◌^◌, ◌≤◌, ◌<◌, ◌≡◌, ◌≢◌, refl, ap, ◌∙◌, sym, subst, [], ◌∷◌, ◌++◌, none, some,
  Bytes, List, same, same_refl, length, get_or, set, length-set, get_or-set, get_or-set_last,
  All-set, All-take, All-get_or, arith, length-append, get_or-append_left, get_or-append_at,
  if◌then◌else◌, ◌==◌, Bool-cases, inl, inr, ==_iff, ==→ne,
}
use fuse_using_memcached.Memcache.Server.{Memcached}
use fuse_using_memcached.Cachefs.Layout.{Header, IsHeader, header_cell, cell}
use fuse_using_memcached.Cachefs.Keys.{child_key}
use fuse_using_memcached.Cachefs.Keys.Laws.{IsPath}
use fuse_using_memcached.Cachefs.Keys.Distinct.{child_key-path, path-child_key, child_key-child_key}
use fuse_using_memcached.Cachefs.Listing.Tokens.{IsFileName, join}
use fuse_using_memcached.Cachefs.Listing.Populated.{
  join-ne, dir-ne_join, join-ne_dir, HasIndex, IsPopulated, entry-IsPath,
}
use fuse_using_memcached.Cachefs.Removal.Entry.{removed}

module _ (m : Memcached) (path dir last : Bytes) (index : ℕ) (h hl : Header) (s : m.State) where
  open m use {view, put, delete, view-put, view-delete}

  pub view-removed :
      (k : Bytes)
      → view (removed m path dir last index h hl s) k ≡ (
          if same path k
          then none
          else if same (child_key h.num_buckets dir) k
          then none
          else if same last k
          then some (header_cell (record hl { parent_index = index }))
          else if same (child_key index dir) k
          then some (cell last)
          else if same dir k
          then some (header_cell (record h { num_buckets = h.num_buckets - 1 }))
          else view s k)
  unfolding removed
  view-removed k = simp (view-put, view-delete)

-- The last of the names takes the place of the one with the number `k`, which is counted from 0.
module _ (m : Memcached) (s : m.State) (dir last : Bytes) (front : List Bytes) (h hl : Header)
    (p : IsPopulated m s dir h (front ++ (last ∷ []))) (k : ℕ) (k_in : k ≤ length front)
    (hl_fields : IsHeader hl) (hl_buckets : hl.num_buckets < 2 ^ 31)
    (hl_xattrs : hl.xattr_num < 2 ^ 31) where
  open m use {view}

  abbrev names : List Bytes
  names = front ++ (last ∷ [])

  abbrev name : Bytes
  name = get_or (front ++ (last ∷ [])) k []

  abbrev left : m.State
  left =
      removed m (join dir (get_or (front ++ (last ∷ [])) k [])) dir (join dir last) (suc k) h hl s

  size_lem : length (front ++ (last ∷ [])) ≡ length front + 1
  size_lem = length-append front (last ∷ [])

  count_lem : h.num_buckets ≡ length front + 1
  count_lem = let d = p.directory in d.counted ∙ size_lem

  few_lem : length front + 2 < 2 ^ 31
  few_lem = let d = p.directory in let few = d.few in omega (arith, size_lem)

  name-IsPath : IsPath (join dir (get_or (front ++ (last ∷ [])) k []))
  name-IsPath = entry-IsPath p.directory k (omega (arith, size_lem))

  name-IsFileName : IsFileName (get_or (front ++ (last ∷ [])) k [])
  name-IsFileName =
      let d = p.directory in
      All-get_or IsFileName (front ++ (last ∷ [])) k [] d.named (omega (arith, size_lem))

  last_at : get_or (front ++ (last ∷ [])) (length front) [] ≡ last
  last_at = get_or-append_at front last [] []

  last-IsPath : IsPath (join dir last)
  last-IsPath =
      subst (λ n. IsPath (join dir n)) last_at
        (entry-IsPath p.directory (length front) (omega (arith, size_lem)))

  last-IsFileName : IsFileName last
  last-IsFileName =
      let d = p.directory in
      subst IsFileName last_at (
        All-get_or IsFileName (front ++ (last ∷ [])) (length front) [] d.named
          (omega (arith, size_lem)))

  -- Another place holds another name.
  other_name :
      (i : ℕ)
      → i ≢ k
      → i ≤ length front
      → get_or (front ++ (last ∷ [])) k [] ≢ get_or (front ++ (last ∷ [])) i []
  other_name i ne i_in e =
      ne (p.distinct i k (omega (arith, size_lem)) (omega (arith, size_lem)) (sym e))

  entry_left :
      (i : ℕ)
      → i < length front
      → view left (child_key (suc i) dir) ≡ some (cell (join dir (get_or (set front k last) i [])))
  entry_left i lt =
      let d = p.directory in
      let small : suc i < 2 ^ 31 = omega (arith, few_lem) in
      let place : suc k < 2 ^ 31 = omega (arith, few_lem) in
      let n_small : h.num_buckets < 2 ^ 31 = omega (arith, few_lem, count_lem) in
      let key = child_key (suc i) dir in
      view-removed m (join dir (get_or (front ++ (last ∷ [])) k [])) dir (join dir last) (suc k) h
        hl s key
      ∙ rw
          (
            path-child_key (suc i) small d.path_ok name-IsPath,
            child_key-child_key n_small small d.path_ok d.path_ok (omega (arith, count_lem)),
            path-child_key (suc i) small d.path_ok last-IsPath,
            get_or-set front k last i [] lt,
          )
          (elim (Bool-cases (i == k)) [
            | inl e ↦
                let same_place : suc k ≡ suc i = omega (arith, (==_iff i k).0 e) in
                rw (e, same_place, same_refl (child_key (suc i) dir)) refl
            | inr e ↦
                rw
                  (
                    e,
                    child_key-child_key place small d.path_ok d.path_ok
                        (λ c. ==→ne i k e (omega arith)),
                    path-child_key (suc i) small d.path_ok d.path_ok,
                  )
                  (d.entries i (omega (arith, size_lem))
                    ∙ ap (λ n. some (cell (join dir n)))
                        (get_or-append_left front (last ∷ []) i [] lt))
          ])

  -- An entry that stays is found under its name, with its number.
  child_left :
      (i : ℕ)
      → i < length front
      → HasIndex m left (join dir (get_or (set front k last) i [])) (suc i)
  child_left i lt =
      let d = p.directory in
      let place : suc k < 2 ^ 31 = omega (arith, few_lem) in
      let n_small : h.num_buckets < 2 ^ 31 = omega (arith, few_lem, count_lem) in
      let last_ne : (j : ℕ) → j < length front → last ≢ get_or (front ++ (last ∷ [])) j [] =
        λ j j_in same_name. absurd (
          omega (
            arith,
            size_lem,
            p.distinct (length front) j (omega (arith, size_lem)) (omega (arith, size_lem))
                (last_at ∙ same_name),
          )) in
      elim (Bool-cases (i == k)) [
        | inl e ↦
            let same_place : i ≡ k = (==_iff i k).0 e in
            subst (λ n. HasIndex m left (join dir n) (suc i))
              (sym (get_or-set front k last i [] lt ∙ rw e refl))
              (record {
                header = record hl { parent_index = suc k };
                fields = record {
                  is_dir = hl_fields.is_dir;
                  data_len = hl_fields.data_len;
                  num_buckets = hl_fields.num_buckets;
                  parent_index = omega (arith, few_lem);
                  xattr_num = hl_fields.xattr_num;
                };
                placed = omega (arith, same_place);
                buckets = hl_buckets;
                xattrs = hl_xattrs;
                main =
                    view-removed m (join dir (get_or (front ++ (last ∷ [])) k [])) dir
                      (join dir last) (suc k) h hl s (join dir last)
                    ∙ rw
                        (
                          join-ne dir (get_or (front ++ (last ∷ [])) k []) last
                              (λ q. last_ne k (omega (arith, same_place)) (sym q)),
                          child_key-path h.num_buckets n_small d.path_ok last-IsPath,
                          same_refl (join dir last),
                        )
                        refl;
              })
        | inr e ↦
            let c = p.children i (omega (arith, size_lem)) in
            let here = entry-IsPath p.directory i (omega (arith, size_lem)) in
            subst (λ n. HasIndex m left (join dir n) (suc i))
              (sym (
                get_or-set front k last i [] lt
                ∙ rw e (sym (get_or-append_left front (last ∷ []) i [] lt))))
              (record {
                header = c.header;
                fields = c.fields;
                placed = c.placed;
                buckets = c.buckets;
                xattrs = c.xattrs;
                main =
                    view-removed m (join dir (get_or (front ++ (last ∷ [])) k [])) dir
                      (join dir last) (suc k) h hl s (join dir (get_or (front ++ (last ∷ [])) i []))
                    ∙ rw
                        (
                          join-ne dir (get_or (front ++ (last ∷ [])) k [])
                              (get_or (front ++ (last ∷ [])) i [])
                              (other_name i (==→ne i k e) (omega arith)),
                          child_key-path h.num_buckets n_small d.path_ok here,
                          join-ne dir last (get_or (front ++ (last ∷ [])) i []) (last_ne i lt),
                          child_key-path (suc k) place d.path_ok here,
                          dir-ne_join dir (get_or (front ++ (last ∷ [])) i []) (
                              All-get_or IsFileName (front ++ (last ∷ [])) i [] d.named
                                (omega (arith, size_lem))),
                        )
                        c.main;
              })
      ]

  distinct_left :
      (i j : ℕ)
      → i < length (set front k last)
      → j < length (set front k last)
      → get_or (set front k last) i [] ≡ get_or (set front k last) j []
      → i ≡ j
  distinct_left i j i_in j_in e =
      let size = length-set front k last in
      let i_left : i < length front = omega (arith, size) in
      let j_left : j < length front = omega (arith, size) in
      ground (
        arith,
        size_lem,
        p.distinct (if i == k then length front else i) (if j == k then length front else j)
            (ground (arith, size_lem)) (ground (arith, size_lem))
            (sym (get_or-set_last front last k i [] i_left)
              ∙ e
              ∙ get_or-set_last front last k j [] j_left),
      )

  pub left-IsPopulated :
      IsPopulated m left dir (record h { num_buckets = length front }) (set front k last)
  left-IsPopulated =
      let d = p.directory in
      let size = length-set front k last in
      let n_small : h.num_buckets < 2 ^ 31 = omega (arith, few_lem, count_lem) in
      let place : suc k < 2 ^ 31 = omega (arith, few_lem) in
      let less : h.num_buckets - 1 ≡ length front = omega (arith, count_lem) in
      record {
        directory = record {
          path_ok = d.path_ok;
          fields = record {
            is_dir = d.fields.is_dir;
            data_len = d.fields.data_len;
            num_buckets = omega (arith, few_lem);
            parent_index = d.fields.parent_index;
            xattr_num = d.fields.xattr_num;
          };
          main =
              view-removed m (join dir (get_or (front ++ (last ∷ [])) k [])) dir (join dir last)
                (suc k) h hl s dir
              ∙ rw
                  (
                    join-ne_dir dir (get_or (front ++ (last ∷ [])) k []) name-IsFileName,
                    child_key-path h.num_buckets n_small d.path_ok d.path_ok,
                    join-ne_dir dir last last-IsFileName,
                    child_key-path (suc k) place d.path_ok d.path_ok,
                    same_refl dir,
                    less,
                  )
                  refl;
          counted = sym size;
          few = omega (arith, size, few_lem);
          entries = λ i lt. entry_left i (omega (arith, size));
          named =
              All-set IsFileName front k last (All-take IsFileName front (last ∷ []) d.named)
                last-IsFileName;
          short =
              All-set (λ n. length (join dir n) ≤ 238) front k last
                (All-take (λ n. length (join dir n) ≤ 238) front (last ∷ []) d.short)
                (let ok = last-IsPath in ok.short);
        };
        distinct = distinct_left;
        children = λ i lt. child_left i (omega (arith, size));
      }
