-- ===== src/Cachefs/Attributes/Removing.antt =====
-- `hello_removexattr` of cachedfs/main.c: the last attribute takes the place of the one removed.
use fuse_using_memcached.Prelude.{
  ℕ, suc, ◌+◌, ◌*◌, ◌^◌, ◌<◌, ◌≡◌, ◌≢◌, refl, ◌∙◌, sym, [], ◌∷◌, ◌++◌, false, if◌then◌else◌, some,
  none, Bytes, List, same, same_refl, length, set, length-set, All-set, All-take, All-drop, arith,
  length-append,
}
use fuse_using_memcached.Machine.Word.{neg, int_sub}
use fuse_using_memcached.Machine.Buffer.{block, store, store_int}
use fuse_using_memcached.Memcache.Server.{Memcached}
use fuse_using_memcached.Memcache.Laws.{cache_set-put}
use fuse_using_memcached.Cachefs.Layout.{Header, header_cell}
use fuse_using_memcached.Cachefs.Keys.{xattr_key}
use fuse_using_memcached.Cachefs.Keys.Laws.{IsPath, IsPath-IsKey}
use fuse_using_memcached.Cachefs.Counters.Laws.{load-xattr_num, store-xattr_num}
use fuse_using_memcached.Cachefs.Attributes.{hello_removexattr}
use fuse_using_memcached.Cachefs.Attributes.Stored.{Xattr, IsXattr, xattr_cell}
use fuse_using_memcached.Cachefs.Attributes.Listed.{
  HasXattr, recount-IsHeader, HasXattrs, HasXattr-agree, xattr_key-xattr_key, xattr_key-path,
  path-xattr_key,
}
use fuse_using_memcached.Cachefs.Attributes.Adding.{get_main}
use fuse_using_memcached.Cachefs.Attributes.Finding.{find_first, find_main}
use fuse_using_memcached.Cachefs.Attributes.Places.{
  find_first-bounds, Held-first, Held-last, Held-set,
}
use fuse_using_memcached.Cachefs.Attributes.MovingLast.{move_last_xattr-put}

module _ (m : Memcached) (junk : ℕ → ℕ → ℕ) (path name : Bytes) (h : Header) (xs : List Xattr)
    (s : m.State) (p : HasXattrs m s path h xs) where
  -- hello_removexattr of a name that is not there returns -1 and changes nothing.
  pub hello_removexattr-missing :
      find_first 1 name xs ≡ none → hello_removexattr m junk path name s ≡ some (neg 1, s)
  unfolding hello_removexattr
  hello_removexattr-missing missing =
      let r = find_main m (λ i. junk (2 * i + 1)) path h xs s p name in
      rw
        (
          get_main m junk path h xs s p 0 2,
          load-xattr_num h (block 1024 (junk 2)) p.fields,
          r.1,
          rw missing at r.2,
        )
        refl

module _ (m : Memcached) (junk : ℕ → ℕ → ℕ) (path name : Bytes) (h : Header) (front : List Xattr)
    (last : Xattr) (s : m.State) (p : HasXattrs m s path h (front ++ (last ∷ []))) where
  open m use {view, put, delete, view-put, view-delete}

  abbrev n : ℕ
  n = 1 + length front

  abbrev header : Header
  header = record h { xattr_num = length front }

  abbrev s₁ : m.State
  s₁ = put path (header_cell header) s

  n_few : n < 2 ^ 30
  n_few = let few = p.few in omega (arith, length-append front (last ∷ []))

  view-counted : (j : ℕ) → j < 2 ^ 31 → view s₁ (xattr_key j path) ≡ view s (xattr_key j path)
  view-counted j small =
      view-put path (xattr_key j path) (header_cell header) s
      ∙ rw (path-xattr_key {i = j} small p.path_ok p.path_ok) refl

  last_held : HasXattr m s₁ path n last
  last_held =
      HasXattr-agree m s s₁ path n last (view-counted n (omega (arith, n_few)))
        (Held-last m s s path 1 front last p.held)

  last_valid : IsXattr last
  last_valid = (All-drop IsXattr front (last ∷ []) p.valid).0

  module _ (k : ℕ) (x : Xattr)
      (found : find_first 1 name (front ++ (last ∷ [])) ≡ some (suc k, x)) where
    abbrev moved : Bytes
    moved = xattr_cell last_held.mid last_held.pad (suc k) last

    -- The store after the call.
    abbrev removed : m.State
    removed = delete (xattr_key n path) (put (xattr_key (suc k) path) moved s₁)

    in_list : suc k < 1 + n
    in_list =
        let (lo, hi) = find_first-bounds 1 (suc k) name x (front ++ (last ∷ [])) found in
        omega (arith, length-append front (last ∷ []))

    view-removed_main :
        (q : Bytes)
        → IsPath q
        → view removed q ≡ (if same path q then some (header_cell header) else view s q)
    view-removed_main q hq =
        view-delete (xattr_key n path) q (put (xattr_key (suc k) path) moved s₁)
        ∙ rw (xattr_key-path {i = n} (omega (arith, n_few)) p.path_ok hq) (
            view-put (xattr_key (suc k) path) q moved s₁
            ∙ rw (xattr_key-path {i = suc k} (omega (arith, n_few, in_list)) p.path_ok hq)
                (view-put path q (header_cell header) s))

    view-removed_other :
        (j : ℕ) → j < n → j ≢ suc k → view removed (xattr_key j path) ≡ view s (xattr_key j path)
    view-removed_other j lt ne =
        view-delete (xattr_key n path) (xattr_key j path) (put (xattr_key (suc k) path) moved s₁)
        ∙ rw
            (xattr_key-xattr_key {i = n} {j = j} (omega (arith, n_few)) (omega (arith, n_few))
              p.path_ok (λ e. absurd (omega arith)))
            (view-put (xattr_key (suc k) path) (xattr_key j path) moved s₁
              ∙ rw
                  (xattr_key-xattr_key {i = suc k} {j = j} (omega (arith, n_few, in_list))
                    (omega (arith, n_few)) p.path_ok (λ e. ne (sym e)))
                  (view-counted j (omega (arith, n_few))))

    moved-HasXattr : k < length front → HasXattr m removed path (1 + k) last
    moved-HasXattr lt =
        let e : 1 + k ≡ suc k = omega arith in
        rw e (record {
          mid = last_held.mid;
          pad = last_held.pad;
          mid_length = last_held.mid_length;
          pad_length = last_held.pad_length;
          stored =
              view-delete (xattr_key n path) (xattr_key (suc k) path)
                (put (xattr_key (suc k) path) moved s₁)
              ∙ rw
                  (xattr_key-xattr_key {i = n} {j = suc k} (omega (arith, n_few))
                    (omega (arith, n_few, in_list)) p.path_ok (λ e. absurd (omega arith)))
                  (view-put (xattr_key (suc k) path) (xattr_key (suc k) path) moved s₁
                    ∙ rw (same_refl (xattr_key (suc k) path)) refl);
        })

    hello_removexattr-removed : hello_removexattr m junk path name s ≡ some (0, removed)
    unfolding hello_removexattr
    hello_removexattr-removed =
        let few = n_few in
        let counted = p.counted in
        let fields = p.fields in
        let number : int_sub h.xattr_num 1 ≡ length front =
          omega (arith, length-append front (last ∷ [])) in
        let last_number : h.xattr_num ≡ n = omega (arith, length-append front (last ∷ [])) in
        let b = store 0 (header_cell h) (block 1024 (junk 2)) in
        let r = find_main m (λ i. junk (2 * i + 1)) path h (front ++ (last ∷ [])) s p name in
        let (hx, ok, called, found_at) = rw found at r.2 in
        rw
          (
            get_main m junk path h (front ++ (last ∷ [])) s p 0 2,
            load-xattr_num h (block 1024 (junk 2)) p.fields,
            r.1,
            found_at,
            load-xattr_num h (block 1024 (junk 2)) p.fields,
            number,
            cache_set-put m (junk 4) path (store_int 20 (length front) b) 24 s
                (IsPath-IsKey p.path_ok) (omega arith) (omega arith),
            store-xattr_num h (block 1024 (junk 2)) (length front),
            last_number,
            move_last_xattr-put m (λ i. junk (2 * i + 2)) path (suc k) n last s₁ last_held p.path_ok
                (omega (arith, in_list)) (omega arith) (last_valid),
          )
          refl

    -- hello_removexattr on a path with a header and the attributes `front` and `last`, of a
    -- name that is among them, `k` places from the first on: it returns 0, the last attribute
    -- takes the place of the first one with the name, and the last one's entry is deleted. The
    -- main value of any other path stays.
    pub hello_removexattr-set :
        (q : Bytes)
        → IsPath q
        → same path q ≡ false
        → (t : m.State) × (hello_removexattr m junk path name s ≡ some (0, t))
          × HasXattrs m t path (record h { xattr_num = length front }) (set front k last)
          × (view t (xattr_key (suc (length front)) path) ≡ none)
          × (view t q ≡ view s q)
    hello_removexattr-set q hq ne = (
      removed,
      hello_removexattr-removed,
      record {
        path_ok = p.path_ok;
        fields = recount-IsHeader h _ p.fields (omega (arith, n_few));
        main = view-removed_main path p.path_ok ∙ rw (same_refl path) refl;
        counted = sym (length-set front k last);
        few = omega (arith, length-set front k last, n_few);
        valid =
            All-set IsXattr front k last (All-take IsXattr front (last ∷ []) p.valid) last_valid;
        held =
            Held-set m s removed path 1 k front last
              (λ j lo hi ne. view-removed_other j hi (λ e. ne (omega arith))) moved-HasXattr
              (Held-first m s s path 1 front (last ∷ []) p.held);
      },
      view-delete (xattr_key n path) (xattr_key (suc (length front)) path)
            (put (xattr_key (suc k) path) moved s₁)
          ∙ rw
              (
                let e : n ≡ suc (length front) = omega arith in e,
                same_refl (xattr_key (suc (length front)) path),
              )
              refl,
      view-removed_main q hq ∙ rw ne refl,
    )
