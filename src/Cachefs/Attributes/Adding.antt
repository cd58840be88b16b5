-- ===== src/Cachefs/Attributes/Adding.antt =====
-- `hello_setxattr` of cachedfs/main.c, which adds an attribute to a path's list.
use fuse_using_memcached.Prelude.{
  ℕ, suc, ◌+◌, ◌*◌, ◌^◌, ◌≤◌, ◌<◌, ◌≡◌, refl, ◌∙◌, [], ◌∷◌, ◌++◌, false, if◌then◌else◌, some, Bytes,
  List, same, same_refl, length, All-append, arith, length-append, le→leb,
}
use fuse_using_memcached.Machine.Word.{int_add}
use fuse_using_memcached.Machine.Buffer.{block, store, store_int}
use fuse_using_memcached.Memcache.Server.{Memcached}
use fuse_using_memcached.Memcache.Client.{cache_get}
use fuse_using_memcached.Memcache.Laws.{cache_get-hit, cache_set-put}
use fuse_using_memcached.Cachefs.Layout.{Header, header_cell}
use fuse_using_memcached.Cachefs.Keys.{xattr_key}
use fuse_using_memcached.Cachefs.Keys.Laws.{IsPath, IsPath-IsKey, xattr_key-IsKey, length-xattr_key}
use fuse_using_memcached.Cachefs.Counters.Laws.{
  header_cell-IsValue, load-xattr_num, store-xattr_num,
}
use fuse_using_memcached.Cachefs.Attributes.{xattr_block, hello_setxattr}
use fuse_using_memcached.Cachefs.Attributes.Stored.{Xattr, IsXattr, xattr_cell}
use fuse_using_memcached.Cachefs.Attributes.Written.{left_mid, left_pad, load-xattr_block}
use fuse_using_memcached.Cachefs.Attributes.Listed.{
  HasXattr, recount-IsHeader, HasXattrs, Held-agree, Held-append, xattr_key-xattr_key,
  xattr_key-path, path-xattr_key,
}

module _ (m : Memcached) (junk : ℕ → ℕ → ℕ) (path : Bytes) (h : Header) (xs : List Xattr)
    (s : m.State) (p : HasXattrs m s path h xs) where
  open m use {view, put, view-put}

  -- The operations read the main value into a block of 1024 bytes.
  pub get_main :
      (n k : ℕ)
      → cache_get m (junk n) path (block 1024 (junk k)) s
        ≡ some ((0, store 0 (header_cell h) (block 1024 (junk k))), s)
  get_main n k =
      cache_get-hit m (junk n) path (header_cell h) (block 1024 (junk k)) s (IsPath-IsKey p.path_ok)
        (header_cell-IsValue h) p.main (omega arith)

  module _ (x : Xattr) (ok : IsXattr x) where
    -- The store with the attribute.
    abbrev added : m.State
    added =
        put (xattr_key (suc (length xs)) path)
          (xattr_cell (left_mid (junk 3) (length x.value)) (left_pad (junk 3)) (suc (length xs)) x)
          (put path (header_cell (record h { xattr_num = suc (length xs) })) s)

    hello_setxattr-added : hello_setxattr m junk path x.name x.value s ≡ some (0, added)
    unfolding hello_setxattr
    hello_setxattr-added =
        let few = p.few in
        let fits = ok.fits in
        let counted = p.counted in
        let n = suc (length xs) in
        let number : int_add h.xattr_num 1 ≡ n = omega arith in
        let b = store 0 (header_cell h) (block 1024 (junk 1)) in
        let key = xattr_key-IsKey n (omega arith) p.path_ok in
        let room = length-xattr_key n (omega arith) p.path_ok in
        let s₁ = put path (header_cell (record h { xattr_num = n })) s in
        rw
          (
            get_main 0 1,
            load-xattr_num h (block 1024 (junk 1)) p.fields,
            number,
            cache_set-put m (junk 2) path (store_int 20 n b) 24 s (IsPath-IsKey p.path_ok)
                (omega arith) (omega arith),
            store-xattr_num h (block 1024 (junk 1)) n,
            le→leb (length (xattr_key n path) + 1) 250 (omega arith),
            cache_set-put m (junk 4) (xattr_key n path) (xattr_block (junk 3) n x.name x.value)
                (4 + 2 * 4 + 20 + length x.name + length x.value) s₁ key (omega arith)
                (omega arith),
            load-xattr_block (junk 3) n x,
          )
          refl

    abbrev header : Header
    header = record h { xattr_num = suc (length xs) }

    abbrev value : Bytes
    value = xattr_cell (left_mid (junk 3) (length x.value)) (left_pad (junk 3)) (suc (length xs)) x

    module _ (small : suc (length xs) < 2 ^ 30) where
      view-added_main :
          (q : Bytes)
          → IsPath q
          → view added q ≡ (if same path q then some (header_cell header) else view s q)
      view-added_main q hq =
          view-put (xattr_key (suc (length xs)) path) q value (put path (header_cell header) s)
          ∙ rw (xattr_key-path {i = suc (length xs)} (omega arith) p.path_ok hq)
              (view-put path q (header_cell header) s)

      view-added_old :
          (j : ℕ) → j ≤ length xs → view added (xattr_key j path) ≡ view s (xattr_key j path)
      view-added_old j le =
          view-put (xattr_key (suc (length xs)) path) (xattr_key j path) value
            (put path (header_cell header) s)
          ∙ rw
              (xattr_key-xattr_key {i = suc (length xs)} {j = j} (omega arith) (omega arith)
                p.path_ok (λ e. absurd (omega arith)))
              (view-put path (xattr_key j path) (header_cell header) s
                ∙ rw (path-xattr_key {i = j} (omega arith) p.path_ok p.path_ok) refl)

      added-HasXattr : HasXattr m added path (1 + length xs) x
      added-HasXattr =
          let e : 1 + length xs ≡ suc (length xs) = omega arith in
          rw e (record {
            mid = left_mid (junk 3) (length x.value);
            pad = left_pad (junk 3);
            mid_length = refl;
            pad_length = refl;
            stored =
                view-put (xattr_key (suc (length xs)) path) (xattr_key (suc (length xs)) path) value
                  (put path (header_cell header) s)
                ∙ rw (same_refl (xattr_key (suc (length xs)) path)) refl;
          })

      -- hello_setxattr on a path with a header and the list `xs` of its attributes, fewer than
      -- 2 ^ 30 with the new one, of a name that has no zero byte and fewer than 250 bytes,
      -- which has 64000 bytes or less together with the value: it returns 0 and appends the
      -- attribute to the list, also if the list has the name already. The main value of any
      -- other path stays.
      pub hello_setxattr-append :
          (q : Bytes)
          → IsPath q
          → same path q ≡ false
          → (t : m.State) × (hello_setxattr m junk path x.name x.value s ≡ some (0, t))
            × HasXattrs m t path (record h { xattr_num = suc (length xs) }) (xs ++ (x ∷ []))
            × (view t q ≡ view s q)
      hello_setxattr-append q hq ne = (
        added,
        hello_setxattr-added,
        record {
          path_ok = p.path_ok;
          fields = recount-IsHeader h _ p.fields (omega arith);
          main = view-added_main path p.path_ok ∙ rw (same_refl path) refl;
          counted = omega (arith, length-append xs (x ∷ []));
          few = omega (arith, length-append xs (x ∷ []));
          valid = All-append IsXattr xs (x ∷ []) p.valid (ok, tt);
          held =
              Held-append m added path 1 xs (x ∷ [])
                (Held-agree m s added path 1 xs (λ j lo hi. view-added_old j (omega arith)) p.held)
                (added-HasXattr, tt);
        },
        view-added_main q hq ∙ rw ne refl,
      )
