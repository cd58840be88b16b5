-- ===== src/Cachefs/Listing/Growth.antt =====
-- A new entry below a directory: where `addToParent` looks for the directory, and what it then lists.
use fuse_using_memcached.Prelude.{
  ℕ, zero, suc, ◌+◌, ◌-◌, ◌^◌, ◌≤◌, ◌<◌, ◌≡◌, ◌≢◌, refl, ap, ◌∙◌, sym, [], ◌∷◌, ◌++◌, false, List,
  if◌then◌else◌, some, Bytes, same, length, get_or, All, All-append, arith, ne→==, le→leb,
  length-append, Bool-cases, inl, inr, take-append, get_or-append_left, get_or-append_at, ltb,
  ltb→lt,
}
use fuse_using_memcached.Machine.Buffer.{block, load}
use fuse_using_memcached.Machine.Buffer.Laws.{get_or-append_right}
use fuse_using_memcached.Memcache.Server.{Memcached, IsKeyByte}
use fuse_using_memcached.Cachefs.Layout.{Header, header_cell, cell}
use fuse_using_memcached.Cachefs.Keys.{root, child_key, parent_of, parent_loop}
use fuse_using_memcached.Cachefs.Keys.Laws.{IsPath}
use fuse_using_memcached.Cachefs.Keys.Distinct.{path-child_key, child_key-child_key, same-ne}
use fuse_using_memcached.Cachefs.Entries.{hello_create, hello_mkdir}
use fuse_using_memcached.Cachefs.Entries.Laws.{
  Linked, new_file, new_dir_cell, hello_create-Linked, hello_mkdir-Linked,
}
use fuse_using_memcached.Cachefs.Listing.Tokens.{
  IsFileName, IsNameByte, get_or-IsNameByte, stem, join, length-join,
}
use fuse_using_memcached.Cachefs.Listing.Laws.{IsDirectory}

parent_loop-at :
    (pos k : ℕ) (path : Bytes)
    → ((i : ℕ) → i < k → get_or path (pos + suc i) 0 ≢ b'/')
    → parent_loop (pos + k) path ≡ parent_loop pos path
unfolding parent_loop
parent_loop-at pos zero path clear = ap (λ j. parent_loop j path) (omega arith)
parent_loop-at pos (suc k) path clear =
    let e : pos + suc k ≡ suc (pos + k) = omega arith in
    let other : get_or path (suc (pos + k)) 0 ≢ b'/' =
      λ h. clear k (omega arith) (ap (λ j. get_or path j 0) e ∙ h) in
    ap (λ j. parent_loop j path) e
    ∙ rw (ne→== (get_or path (suc (pos + k)) 0) b'/' other)
        (parent_loop-at pos k path (λ i lt. clear i (omega arith)))

parent_of-loop :
    (path : Bytes)
    → 0 < length path
    → length path ≤ 238
    → parent_of path ≡ parent_loop (length path - 1) path
unfolding parent_of
parent_of-loop [] h k = absurd (omega arith)
parent_of-loop (c ∷ path) h k =
    let e : suc (length path) - 1 ≡ length path = omega arith in
    rw (le→leb (suc (length path) + 1) 250 (omega arith), e)

-- The last step of the walk, at the slash behind `front`.
parent_loop-slash :
    (front name : Bytes)
    → parent_loop (length front) (front ++ (b'/' ∷ name))
      ≡ some (if same front [] then root else front)
unfolding parent_loop same
parent_loop-slash [] name = refl
parent_loop-slash (c ∷ front) name =
    let e : length (c ∷ front) ≡ length (c ∷ front) + 0 = omega arith in
    let here : get_or (front ++ (b'/' ∷ name)) (length front) 0 ≡ b'/' =
      ap (λ j. get_or (front ++ (b'/' ∷ name)) j 0)
        (let f : length front ≡ length front + 0 = omega arith in f)
      ∙ get_or-append_right front (b'/' ∷ name) 0 in
    rw here (ap some (ap (◌∷◌ c) (take-append (length front) front (b'/' ∷ name) refl)))

stem-restored : (dir : Bytes) → IsPath dir → (if same (stem dir) [] then root else stem dir) ≡ dir
unfolding stem same
stem-restored [] h = absurd (omega (arith, h.rooted))
stem-restored (c ∷ []) h = let e = h.rooted in ground arith
stem-restored (c ∷ b ∷ dir) h = ground arith

-- The parent of a directory's path joined with a name is the directory.
pub parent_of-join :
    (dir name : Bytes)
    → IsPath dir
    → IsFileName name
    → length (join dir name) ≤ 238
    → parent_of (join dir name) ≡ some dir
unfolding join
parent_of-join dir name d n short =
    let l = length-join dir name in
    let e : length (join dir name) - 1 ≡ length (stem dir) + length name = omega arith in
    parent_of-loop (join dir name) (omega arith) short
    ∙ ap (λ j. parent_loop j (join dir name)) e
    ∙ parent_loop-at (length (stem dir)) (length name) (join dir name) (λ i lt h.
      get_or-IsNameByte name i n.plain lt
        (sym (get_or-append_right (stem dir) (b'/' ∷ name) (suc i)) ∙ h))
    ∙ parent_loop-slash (stem dir) name
    ∙ ap some (stem-restored dir d)

module _ (dir name : Bytes) (d : IsPath dir) (n : IsFileName name)
    (short : length (join dir name) ≤ 238) where
  name_plain : (s : Bytes) → All IsNameByte s → All IsKeyByte s
  name_plain [] h = tt
  name_plain (c ∷ s) (h, hs) = (h.0, name_plain s hs)

  join-rooted :
      (front : Bytes) → get_or front 0 b'/' ≡ b'/' → get_or (front ++ (b'/' ∷ name)) 0 0 ≡ b'/'
  join-rooted [] h = refl
  join-rooted (c ∷ front) h = h

  stem-IsPath : (get_or (stem dir) 0 b'/' ≡ b'/') × All IsKeyByte (stem dir)
  unfolding stem
  stem-IsPath = elim (Bool-cases (same dir root)) [
    | inl e ↦ rw e (refl, tt)
    | inr e ↦ rw e (default dir d.rooted, d.plain)
  ]
    where
      default : (q : Bytes) → get_or q 0 0 ≡ b'/' → get_or q 0 b'/' ≡ b'/'
      default [] h = refl
      default (c ∷ q) h = h

  -- A directory's path joined with a name is a path.
  pub join-IsPath : IsPath (join dir name)
  unfolding join
  join-IsPath = record {
    rooted = join-rooted (stem dir) stem-IsPath.0;
    short = short;
    plain =
        All-append IsKeyByte (stem dir) (b'/' ∷ name) stem-IsPath.1
          ((omega arith, omega arith), name_plain name n.plain);
  }

  pub join-ne_root : same (join dir name) root ≡ false
  join-ne_root =
      same-ne (join dir name) root
        λ e. let l = length-join dir name in let f = ap length e in absurd (omega (arith, n.filled))

module _ (m : Memcached) {s s' : m.State} {dir name main : Bytes} {h : Header} {names : List Bytes}
    (d : IsDirectory m s dir h names) (n : IsFileName name) (short : length (join dir name) ≤ 238)
    (room : suc (suc (length names)) < 2 ^ 31) (l : Linked m s s' (join dir name) dir main h) where
  open m use {view}

  old_entry :
      (i : ℕ)
      → i < length names
      → view s' (child_key (suc i) dir)
        ≡ some (cell (join dir (get_or (names ++ (name ∷ [])) i [])))
  old_entry i lt =
      let small : suc i < 2 ^ 31 = omega (arith, d.few) in
      let next : h.num_buckets + 1 < 2 ^ 31 = omega (arith, d.counted) in
      let path_ok = join-IsPath dir name d.path_ok n short in
      l.others (child_key (suc i) dir) (path-child_key (suc i) small d.path_ok path_ok)
        (path-child_key (suc i) small d.path_ok d.path_ok)
        (child_key-child_key next small d.path_ok d.path_ok (omega (arith, d.counted)))
      ∙ d.entries i lt
      ∙ ap (λ x. some (cell (join dir x))) (sym (get_or-append_left names (name ∷ []) i [] lt))

  new_entry :
      (i : ℕ)
      → i ≡ length names
      → view s' (child_key (suc i) dir)
        ≡ some (cell (join dir (get_or (names ++ (name ∷ [])) i [])))
  new_entry i e =
      let f : suc i ≡ h.num_buckets + 1 = omega (arith, d.counted) in
      ap (λ k. view s' (child_key k dir)) f
      ∙ l.listed
      ∙ ap (λ x. some (cell (join dir x)))
          (sym (get_or-append_at names name [] [])
            ∙ ap (λ k. get_or (names ++ (name ∷ [])) k []) (sym e))

  -- A linked entry is the directory's last child; the others stay.
  pub IsDirectory-Linked :
      IsDirectory m s' dir (record h { num_buckets = h.num_buckets + 1 }) (names ++ (name ∷ []))
  IsDirectory-Linked = record {
    path_ok = d.path_ok;
    fields = record {
      is_dir = d.fields.is_dir;
      data_len = d.fields.data_len;
      num_buckets = omega (arith, d.counted);
      parent_index = d.fields.parent_index;
      xattr_num = d.fields.xattr_num;
    };
    main = l.counted;
    counted = omega (arith, d.counted, length-append names (name ∷ []));
    few = omega (arith, length-append names (name ∷ []));
    entries = λ i lt. elim (Bool-cases (ltb i (length names))) [
      | inl e ↦ old_entry i (ltb→lt i (length names) e)
      | inr e ↦ new_entry i (ground (arith, length-append names (name ∷ [])))
    ];
    named = All-append IsFileName names (name ∷ []) d.named (n, tt);
    short = All-append (λ n. length (join dir n) ≤ 238) names (name ∷ []) d.short (short, tt);
  }

module _ (m : Memcached) (junk : ℕ → ℕ → ℕ) (s : m.State) (dir name : Bytes) (h : Header)
    (names : List Bytes) (d : IsDirectory m s dir h names) (n : IsFileName name)
    (short : length (join dir name) ≤ 238) (room : suc (suc (length names)) < 2 ^ 31) where
  open m use {view}

  -- `hello_create` in a directory returns 0, adds the name as the directory's last child, and makes
  -- the file: its header has no data, no bucket and no attribute, and knows its place.
  pub hello_create-IsDirectory :
      (s' : m.State) × (hello_create m junk (join dir name) s ≡ some (some 0, s'))
      × IsDirectory m s' dir (record h { num_buckets = h.num_buckets + 1 }) (names ++ (name ∷ []))
      × (view s' (join dir name) ≡ some (header_cell (new_file (suc (length names)))))
  hello_create-IsDirectory =
      let (s', run, l) =
        hello_create-Linked m junk s (join-IsPath dir name d.path_ok n short) d.path_ok
          (parent_of-join dir name d.path_ok n short) (join-ne_root dir name d.path_ok n short) h
          d.fields d.main (omega (arith, d.counted)) in
      let place : h.num_buckets + 1 ≡ suc (length names) = omega (arith, d.counted) in
      (
        s',
        run,
        IsDirectory-Linked m d n short room l,
        l.entry ∙ ap (λ i. some (header_cell (new_file i))) place,
      )

  -- `hello_mkdir` does the same for a directory, but for the number of attributes in its header,
  -- which is what a block of memory held before.
  pub hello_mkdir-IsDirectory :
      (s' : m.State) × (hello_mkdir m junk (join dir name) s ≡ some (0, s'))
      × IsDirectory m s' dir (record h { num_buckets = h.num_buckets + 1 }) (names ++ (name ∷ []))
      × (view s' (join dir name)
          ≡ some (new_dir_cell (load 20 4 (block 24 (junk 6))) (suc (length names))))
  hello_mkdir-IsDirectory =
      let (s', run, l) =
        hello_mkdir-Linked m junk s (join-IsPath dir name d.path_ok n short) d.path_ok
          (parent_of-join dir name d.path_ok n short) (join-ne_root dir name d.path_ok n short) h
          d.fields d.main (omega (arith, d.counted)) in
      let place : h.num_buckets + 1 ≡ suc (length names) = omega (arith, d.counted) in
      (
        s',
        run,
        IsDirectory-Linked m d n short room l,
        l.entry ∙ ap (λ i. some (new_dir_cell (load 20 4 (block 24 (junk 6))) i)) place,
      )
