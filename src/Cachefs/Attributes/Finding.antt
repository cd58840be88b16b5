-- ===== src/Cachefs/Attributes/Finding.antt =====
-- The search for an attribute in cachedfs/main.c, and `hello_getxattr`.
use fuse_using_memcached.Prelude.{
  ℕ, suc, ◌+◌, ◌*◌, ◌^◌, ◌<◌, ◌≡◌, refl, sym, [], ◌∷◌, if◌then◌else◌, Option, some, none, Bytes,
  List, same, same_iff, length, take, min, All, arith, le→leb, lt→leb_false, Bool-cases, inl, inr,
}
use fuse_using_memcached.Machine.Word.{neg, is_negative}
use fuse_using_memcached.Machine.Buffer.{Buffer, block, store}
use fuse_using_memcached.Machine.Cmd.{Cmd, pure, lift}
use fuse_using_memcached.Memcache.Server.{Memcached}
use fuse_using_memcached.Memcache.Laws.{cache_get-hit}
use fuse_using_memcached.Cachefs.Layout.{Header}
use fuse_using_memcached.Cachefs.Keys.{xattr_key}
use fuse_using_memcached.Cachefs.Keys.Laws.{IsPath, xattr_key-IsKey, length-xattr_key}
use fuse_using_memcached.Cachefs.Counters.Laws.{load-xattr_num}
use fuse_using_memcached.Cachefs.Attributes.{xattr_value, get_xattr, find_xattr, hello_getxattr}
use fuse_using_memcached.Cachefs.Attributes.Stored.{
  Xattr, IsXattr, xattr_cell, length-xattr_cell, xattr_cell-IsValue, cur_name-held,
  xattr_value-held,
}
use fuse_using_memcached.Cachefs.Attributes.Listed.{HasXattr, Held, HasXattrs}
use fuse_using_memcached.Cachefs.Attributes.Adding.{get_main}

-- The first attribute with a name, and its number if the list begins with `i`.
abbrev pub find_first : ℕ → Bytes → List Xattr → Option (ℕ × Xattr)
find_first i name [] = none
find_first i name (x ∷ xs) = if same name x.name then some (i, x) else find_first (suc i) name xs

-- What `hello_getxattr` gives for an attribute that was found or not.
abbrev pub answer : ℕ → Option (ℕ × Xattr) → ℕ × Bytes
answer size none = (neg 1, [])
answer size (some (i, x)) = (length x.value, take (min size (length x.value)) x.value)

module _ (m : Memcached) (junk : ℕ → ℕ → ℕ) (path : Bytes) (path_ok : IsPath path)
    (s : m.State) where
  pub get_xattr-held :
      (i : ℕ) (x : Xattr) (hx : HasXattr m s path i x)
      → i < 2 ^ 31
      → IsXattr x
      → get_xattr m junk i path s
        ≡ some (store 0 (xattr_cell hx.mid hx.pad i x) (block 66000 (junk (2 * i + 1))), s)
  unfolding get_xattr
  get_xattr-held i x hx small ok =
      let room = length-xattr_key i small path_ok in
      let fits = ok.fits in
      rw
        (
          le→leb (length (xattr_key i path) + 1) 250 (omega arith),
          cache_get-hit m (junk (2 * i)) (xattr_key i path) (xattr_cell hx.mid hx.pad i x)
              (block 66000 (junk (2 * i + 1))) s (xattr_key-IsKey i small path_ok)
              (xattr_cell-IsValue hx.mid hx.pad i x hx.mid_length hx.pad_length ok) hx.stored
              (omega (arith, length-xattr_cell hx.mid hx.pad i x hx.mid_length hx.pad_length ok)),
        )
        refl

  -- The block that the search ends with holds the attribute.
  abbrev pub IsFound : Bytes → Option (ℕ × Xattr) → Option (ℕ × Buffer) → Type 0
  IsFound name none r = r ≡ none
  IsFound name (some (i, x)) r =
      (hx : HasXattr m s path i x) × IsXattr x
      × (x.name ≡ name)
      × (r ≡ some (i, store 0 (xattr_cell hx.mid hx.pad i x) (block 66000 (junk (2 * i + 1)))))

  pub find_xattr-first :
      (i : ℕ) (name : Bytes) (xs : List Xattr)
      → i + length xs < 2 ^ 31
      → All IsXattr xs
      → Held m s path i xs
      → (r : Option (ℕ × Buffer)) × (find_xattr m junk (length xs) i path name s ≡ some (r, s))
        × IsFound name (find_first i name xs) r
  unfolding find_xattr
  find_xattr-first i name [] small ok held = (none, refl, refl)
  find_xattr-first i name (x ∷ xs) small (hx_ok, ok) (hx, held) =
      let c = store 0 (xattr_cell hx.mid hx.pad i x) (block 66000 (junk (2 * i + 1))) in
      let got = get_xattr-held i x hx (omega arith) hx_ok in
      let cur =
        cur_name-held hx.mid hx.pad i x hx.mid_length hx.pad_length hx_ok
          (block 66000 (junk (2 * i + 1))) in
      elim (Bool-cases (same name x.name)) [
        | inl e ↦ (
          some (i, c),
          rw (got, cur, e) refl,
          rw e (hx, hx_ok, sym ((same_iff name x.name).0 e), refl),
        )
        | inr e ↦
            let next : i + 1 ≡ suc i = omega arith in
            let rest = find_xattr-first (suc i) name xs (omega arith) ok held in
            (rest.0, rw (got, cur, e, next) rest.1, rw e rest.2)
      ]

  answer-found :
      (name : Bytes) (size : ℕ) (o : Option (ℕ × Xattr)) (r : Option (ℕ × Buffer))
      → IsFound name o r
      → (elim r as (λ x. Cmd m.State (ℕ × Bytes)) [
        | none ↦ pure (neg 1, [])
        | some f ↦ lift (xattr_value f.1 name size)
      ])
          s
        ≡ some (answer size o, s)
  answer-found name size none r e = rw e refl
  answer-found name size (some (i, x)) r (hx, ok, called, e) =
      rw
        (
          e,
          ← called,
          xattr_value-held hx.mid hx.pad i x hx.mid_length hx.pad_length ok
              (block 66000 (junk (2 * i + 1))) size,
        )
        refl

module _ (m : Memcached) (junk : ℕ → ℕ → ℕ) (path : Bytes) (h : Header) (xs : List Xattr)
    (s : m.State) (p : HasXattrs m s path h xs) where
  pub find_main :
      (name : Bytes)
      → (r : Option (ℕ × Buffer)) × (find_xattr m junk
            (if is_negative h.xattr_num then 0 else h.xattr_num)
            1
            path
            name
            s
          ≡ some (r, s))
        × IsFound m junk path p.path_ok s name (find_first 1 name xs) r
  find_main name =
      let few = p.few in
      let found = find_xattr-first m junk path p.path_ok s 1 name xs (omega arith) p.valid p.held in
      (found.0, rw (p.counted, lt→leb_false (2 ^ 31) (length xs) (omega arith)) found.1, found.2)

  -- hello_getxattr on a path with a header and the list `xs` of its attributes looks the name
  -- up in the list: it returns the length of the first value with the name, and gives as much
  -- of the value as there is room for, or returns -1 if there is none. It changes nothing.
  pub hello_getxattr-lookup :
      (name : Bytes) (size : ℕ)
      → hello_getxattr m junk path name size s ≡ some (answer size (find_first 1 name xs), s)
  unfolding hello_getxattr
  hello_getxattr-lookup name size =
      let found = find_main name in
      rw
        (
          get_main m junk path h xs s p 0 1,
          load-xattr_num h (block 1024 (junk 1)) p.fields,
          found.1,
        )
        (answer-found m junk path p.path_ok s name size (find_first 1 name xs) found.0 found.2)
